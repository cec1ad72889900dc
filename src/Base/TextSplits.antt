-- ===== src/Base/TextSplits.antt =====
-- Splitting texts that were put together: the operations of `str` and `FromStr` on what
-- concatenation and `Display` give.

use Prim.Native.Nat.{ℕ, ◌<◌}
use Prim.Native.Char.{Char, code}
use Prim.Native.String.{String}
use mathlib.Core.Path.{◌≡◌, refl, sym, ap, ◌∙◌}
use mathlib.Core.Logic.{inl, inr}
use mathlib.Core.Bool.{Bool, true, false, ◌&&◌, ◌||◌, not}
use mathlib.Core.Option.{none, some}
use native.Mathlib.Omega.{arith}
use text.Mathlib.TextLemmas.{cons-append, nil-append, append-nil}
use v2ray_rs.Base.Tests.{leb, ltb, ◌==◌, if◌then◌else◌, Bool-cases, ==_iff}
use v2ray_rs.Base.Decimal.{
  all_digits, parse_unsigned, leading, to_string, leading-to_string, to_string-digits,
}
use v2ray_rs.Base.Text.{
  trim_start, trim_end, trim, ◌⧺◌, is_ascii_digit, is_empty_str, strip_prefix, split_once,
  rsplit_once,
}

-- no character with the given code
abbrev pub lacks : ℕ → String → Bool
lacks n String.[] = true
lacks n (String.◌∷◌ c s) = not (code c == n) && lacks n s

pub strip_prefix-append : (p s : String) → strip_prefix p (p ⧺ s) ≡ some s
strip_prefix-append String.[] s = rw nil-append refl
strip_prefix-append (String.◌∷◌ c p) s =
    rw (cons-append, (==_iff (code c) (code c)).1 refl) (strip_prefix-append p s)

both : (a b : Bool) → a && b ≡ true → (a ≡ true) × (b ≡ true)
both true b h = (refl, h)
both false b h = cc

not-true : (b : Bool) → not b ≡ true → b ≡ false
not-true true h = cc
not-true false h = refl

pub split_once-append :
    (c : Char) (s t : String)
    → lacks (code c) s ≡ true
    → split_once (code c) (s ⧺ String.◌∷◌ c t) ≡ some (s, t)
split_once-append c String.[] t h = rw (nil-append, (==_iff (code c) (code c)).1 refl) refl
split_once-append c (String.◌∷◌ d s) t h =
    let (other, rest) = both (not (code d == code c)) _ h in
    rw (cons-append, not-true _ other, split_once-append c s t rest) refl

pub split_once-lacks : (n : ℕ) (t : String) → lacks n t ≡ true → split_once n t ≡ none
split_once-lacks n String.[] h = refl
split_once-lacks n (String.◌∷◌ d t) h =
    let (other, rest) = both (not (code d == n)) _ h in
    rw (split_once-lacks n t rest, not-true _ other) refl

pub rsplit_once-lacks : (n : ℕ) (t : String) → lacks n t ≡ true → rsplit_once n t ≡ none
rsplit_once-lacks n String.[] h = refl
rsplit_once-lacks n (String.◌∷◌ d t) h =
    let (other, rest) = both (not (code d == n)) _ h in
    rw (rsplit_once-lacks n t rest, not-true _ other) refl

pub rsplit_once-append :
    (c : Char) (s t : String)
    → lacks (code c) t ≡ true
    → rsplit_once (code c) (s ⧺ String.◌∷◌ c t) ≡ some (s, t)
rsplit_once-append c String.[] t h =
    rw (nil-append, rsplit_once-lacks (code c) t h, (==_iff (code c) (code c)).1 refl) refl
rsplit_once-append c (String.◌∷◌ d s) t h = rw (cons-append, rsplit_once-append c s t h) refl

pub lacks-append :
    (n : ℕ) (s t : String) → lacks n s ≡ true → lacks n t ≡ true → lacks n (s ⧺ t) ≡ true
lacks-append n String.[] t h k = rw nil-append k
lacks-append n (String.◌∷◌ d s) t h k =
    let (other, rest) = both (not (code d == n)) _ h in
    rw (cons-append, other) (lacks-append n s t rest k)

differs :
    (m n : ℕ)
    → leb b'0' m && leb m b'9' ≡ true
    → leb b'0' n && leb n b'9' ≡ false
    → (m == n) ≡ false
differs m n h k = elim (Bool-cases (m == n)) [
  | inl e ↦ let same : m ≡ n = (==_iff m n).0 e in absurd (cc (rw same at h, k))
  | inr e ↦ e
]

-- a text of digits has no character that is no digit
pub all_digits-lacks :
    (n : ℕ) (s : String) → all_digits s ≡ true → leb b'0' n && leb n b'9' ≡ false → lacks n s ≡ true
all_digits-lacks n String.[] h k = refl
all_digits-lacks n (String.◌∷◌ d s) h k =
    let (digit, rest) = both (is_ascii_digit d) _ h in
    let other : (code d == n) ≡ false = differs (code d) n digit k in
    rw (other) (all_digits-lacks n s rest k)

picked :
    (b : Bool) (v limit : ℕ)
    → b ≡ true
    → v < limit
    → (if b && ltb v limit then some v else none) ≡ some v
picked b v limit h k = let small : ltb v limit ≡ true = ground arith in rw (h, small) refl

-- A text of digits is read as the number that it begins with.
pub parse_unsigned-digits :
    (limit : ℕ) (s : String)
    → all_digits s ≡ true
    → is_empty_str s ≡ false
    → leading 0 s < limit
    → parse_unsigned limit s ≡ some (leading 0 s)
unfolding parse_unsigned
parse_unsigned-digits limit String.[] h k b = cc
parse_unsigned-digits limit (String.◌∷◌ c s) h k b =
    let (digit, _) = both (is_ascii_digit c) (all_digits s) h in
    let no_sign : (code c == b'+') ≡ false = differs (code c) b'+' digit refl in
    rw no_sign (picked (all_digits (String.◌∷◌ c s)) (leading 0 (String.◌∷◌ c s)) limit h b)

printed-leading : (n : ℕ) → leading 0 (to_string n) ≡ n
unfolding leading
printed-leading n = ap (leading 0) (sym (append-nil (to_string n))) ∙ leading-to_string n String.[]

-- What is printed is read back.
pub parse_unsigned-to_string :
    (limit n : ℕ) → n < limit → parse_unsigned limit (to_string n) ≡ some n
parse_unsigned-to_string limit n h =
    let (digits, filled) = to_string-digits n in
    let e : leading 0 (to_string n) ≡ n = printed-leading n in
    parse_unsigned-digits limit (to_string n) digits filled (rw e h) ∙ ap some e

digit-whitespace :
    (n : ℕ)
    → leb b'0' n && leb n b'9' ≡ true
    → ((leb 9 n && leb n 13)
        || n == 32
        || n == 0x85
        || n == 0xa0
        || n == 0x1680
        || (leb 0x2000 n && leb n 0x200a)
        || n == 0x2028
        || n == 0x2029
        || n == 0x202f
        || n == 0x205f
        || n == 0x3000)
      ≡ false
digit-whitespace n h = ground arith

trim_start-digits : (s : String) → all_digits s ≡ true → trim_start s ≡ s
trim_start-digits String.[] h = refl
trim_start-digits (String.◌∷◌ c s) h =
    let (digit, _) = both (is_ascii_digit c) _ h in rw (digit-whitespace (code c) digit) refl

trim_end-digits : (s : String) → all_digits s ≡ true → trim_end s ≡ s
trim_end-digits String.[] h = refl
trim_end-digits (String.◌∷◌ c s) h =
    let (digit, rest) = both (is_ascii_digit c) _ h in
    rw (trim_end-digits s rest, digit-whitespace (code c) digit) (ground arith)

-- a text of digits has no white space to trim
pub trim-digits : (s : String) → all_digits s ≡ true → trim s ≡ s
trim-digits s h = rw (trim_start-digits s h) (trim_end-digits s h)
