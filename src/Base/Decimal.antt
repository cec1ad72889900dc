-- ===== src/Base/Decimal.antt =====
-- Unsigned decimal numbers: `Display` of the integer types and `FromStr` with a bound, as the
-- code uses them for ports, identifiers and tags.
use Prim.Native.Nat.{ℕ, zero, suc, ◌+◌, ◌-◌, ◌*◌, ◌/◌, ◌%◌, ◌<◌, ◌≤◌}
use Prim.Native.Char.{code}
use Prim.Native.String.{String}
use mathlib.Core.Path.{◌≡◌, refl, ◌∙◌, ap}
use mathlib.Core.Logic.{inl, inr}
use mathlib.Core.Bool.{Bool, true, false, ◌&&◌}
use mathlib.Core.Option.{Option, none, some}
use native.Mathlib.Omega.{arith}
use text.Mathlib.TextLemmas.{cons-append, nil-append, append_assoc}
use v2ray_rs.Base.Tests.{ltb, ◌==◌, if◌then◌else◌, Bool-cases}
use v2ray_rs.Base.Text.{◌⧺◌, is_ascii_digit, is_empty_str}

abbrev digit : ℕ → String
digit zero = "0"
digit (suc zero) = "1"
digit (suc (suc zero)) = "2"
digit (suc (suc (suc zero))) = "3"
digit (suc (suc (suc (suc zero)))) = "4"
digit (suc (suc (suc (suc (suc zero))))) = "5"
digit (suc (suc (suc (suc (suc (suc zero)))))) = "6"
digit (suc (suc (suc (suc (suc (suc (suc zero))))))) = "7"
digit (suc (suc (suc (suc (suc (suc (suc (suc zero)))))))) = "8"
digit _ = "9"

print_from : ℕ → ℕ → String
print_from zero n = digit n
print_from (suc f) n =
    let more = print_from f (n / 10) in if ltb n 10 then digit n else more ⧺ digit (n % 10)

-- `n` itself is fuel enough, since each round divides by ten
unfoldable pub to_string : ℕ → String
unfolding print_from
to_string n = print_from n n

-- the number that a text begins with
unfoldable pub leading : ℕ → String → ℕ
leading acc String.[] = acc
leading acc (String.◌∷◌ c s) =
    let rest = leading (acc * 10 + (code c - b'0')) s in if is_ascii_digit c then rest else acc

abbrev pub all_digits : String → Bool
all_digits String.[] = true
all_digits (String.◌∷◌ c s) = is_ascii_digit c && all_digits s

-- the digits of a number after its sign
abbrev pub parse_digits : ℕ → String → Option ℕ
parse_digits limit String.[] = none
parse_digits limit s = if all_digits s && ltb (leading 0 s) limit then some (leading 0 s) else none

-- `FromStr` of an unsigned integer type with the values below the limit: an optional plus sign, at
-- least one digit and nothing else
unfoldable pub parse_unsigned : ℕ → String → Option ℕ
unfolding leading
parse_unsigned limit String.[] = none
parse_unsigned limit (String.◌∷◌ c s) =
    if code c == b'+' then parse_digits limit s else parse_digits limit (String.◌∷◌ c s)

abbrev or_zero : Option ℕ → ℕ
or_zero none = 0
or_zero (some n) = n

within :
    (b : Bool) (v limit n : ℕ) → (if b && ltb v limit then some v else none) ≡ some n → n < limit
within false v limit n e = cc
within true v limit n e = elim (Bool-cases (ltb v limit)) [
  | inl h ↦
      let same : v ≡ n = ap (λ o. or_zero o) (rw h at e) in
      let small : v < limit = ground arith in rw (← same) small
  | inr h ↦ absurd (cc (rw h at e))
]

parse_digits-bound : (limit : ℕ) (s : String) (n : ℕ) → parse_digits limit s ≡ some n → n < limit
parse_digits-bound limit String.[] n e = cc
parse_digits-bound limit (String.◌∷◌ c s) n e =
    within (all_digits (String.◌∷◌ c s)) (leading 0 (String.◌∷◌ c s)) limit n e

-- A number that is read is below the limit.
pub parse_unsigned-bound :
    (limit : ℕ) (s : String) (n : ℕ) → parse_unsigned limit s ≡ some n → n < limit
unfolding parse_unsigned
parse_unsigned-bound limit String.[] n e = cc
parse_unsigned-bound limit (String.◌∷◌ c s) n e = elim (Bool-cases (code c == b'+')) [
  | inl h ↦ parse_digits-bound limit s n (rw h at e)
  | inr h ↦ parse_digits-bound limit (String.◌∷◌ c s) n (rw h at e)
]

-- Reading one digit, and then what follows it.
leading-digit :
    (d acc r : ℕ) (t : String) → d < 10 → acc * 10 + d ≡ r → leading acc (digit d ⧺ t) ≡ leading r t
unfolding leading
leading-digit zero acc r t h e = rw cons-append (rw nil-append (ap (λ k. leading k t) e))
leading-digit (suc zero) acc r t h e = rw cons-append (rw nil-append (ap (λ k. leading k t) e))
leading-digit (suc (suc zero)) acc r t h e =
    rw cons-append (rw nil-append (ap (λ k. leading k t) e))
leading-digit (suc (suc (suc zero))) acc r t h e =
    rw cons-append (rw nil-append (ap (λ k. leading k t) e))
leading-digit (suc (suc (suc (suc zero)))) acc r t h e =
    rw cons-append (rw nil-append (ap (λ k. leading k t) e))
leading-digit (suc (suc (suc (suc (suc zero))))) acc r t h e =
    rw cons-append (rw nil-append (ap (λ k. leading k t) e))
leading-digit (suc (suc (suc (suc (suc (suc zero)))))) acc r t h e =
    rw cons-append (rw nil-append (ap (λ k. leading k t) e))
leading-digit (suc (suc (suc (suc (suc (suc (suc zero))))))) acc r t h e =
    rw cons-append (rw nil-append (ap (λ k. leading k t) e))
leading-digit (suc (suc (suc (suc (suc (suc (suc (suc zero)))))))) acc r t h e =
    rw cons-append (rw nil-append (ap (λ k. leading k t) e))
leading-digit (suc (suc (suc (suc (suc (suc (suc (suc (suc zero))))))))) acc r t h e =
    rw cons-append (rw nil-append (ap (λ k. leading k t) e))
leading-digit (suc (suc (suc (suc (suc (suc (suc (suc (suc (suc n)))))))))) acc r t h e =
    absurd (omega arith)

leading-print_from : (f n : ℕ) (t : String) → n ≤ f → leading 0 (print_from f n ⧺ t) ≡ leading n t
unfolding print_from
leading-print_from zero n t h = leading-digit n 0 n t (omega arith) (omega arith)
leading-print_from (suc f) n t h = elim (Bool-cases (ltb n 10)) [
  | inl small ↦ rw small (leading-digit n 0 n t (ground arith) (omega arith))
  | inr big ↦
      let large : 10 ≤ n = ground arith in
      rw big (
        rw append_assoc (
          leading-print_from f (n / 10) (digit (n % 10) ⧺ t) (omega arith)
          ∙ leading-digit (n % 10) (n / 10) n t (omega arith) (omega arith)))
]

-- The print of `n` followed by a text that does not begin with a digit reads back as `n`.
pub leading-to_string : (n : ℕ) (t : String) → leading 0 (to_string n ⧺ t) ≡ leading n t
unfolding to_string
leading-to_string n t = leading-print_from n n t (omega arith)

digit-IsDigit : (d : ℕ) → all_digits (digit d) ≡ true
digit-IsDigit zero = refl
digit-IsDigit (suc zero) = refl
digit-IsDigit (suc (suc zero)) = refl
digit-IsDigit (suc (suc (suc zero))) = refl
digit-IsDigit (suc (suc (suc (suc zero)))) = refl
digit-IsDigit (suc (suc (suc (suc (suc zero))))) = refl
digit-IsDigit (suc (suc (suc (suc (suc (suc zero)))))) = refl
digit-IsDigit (suc (suc (suc (suc (suc (suc (suc zero))))))) = refl
digit-IsDigit (suc (suc (suc (suc (suc (suc (suc (suc zero)))))))) = refl
digit-IsDigit (suc (suc (suc (suc (suc (suc (suc (suc (suc n))))))))) = refl

digit-filled : (d : ℕ) → is_empty_str (digit d) ≡ false
digit-filled zero = refl
digit-filled (suc zero) = refl
digit-filled (suc (suc zero)) = refl
digit-filled (suc (suc (suc zero))) = refl
digit-filled (suc (suc (suc (suc zero)))) = refl
digit-filled (suc (suc (suc (suc (suc zero))))) = refl
digit-filled (suc (suc (suc (suc (suc (suc zero)))))) = refl
digit-filled (suc (suc (suc (suc (suc (suc (suc zero))))))) = refl
digit-filled (suc (suc (suc (suc (suc (suc (suc (suc zero)))))))) = refl
digit-filled (suc (suc (suc (suc (suc (suc (suc (suc (suc n))))))))) = refl

all_digits-append :
    (s t : String) → all_digits s ≡ true → all_digits t ≡ true → all_digits (s ⧺ t) ≡ true
all_digits-append String.[] t h k = rw nil-append k
all_digits-append (String.◌∷◌ c s) t h k = elim (Bool-cases (is_ascii_digit c)) [
  | inl e ↦ rw (cons-append, e) (all_digits-append s t (rw e at h) k)
  | inr e ↦ absurd (cc (rw e at h))
]

filled-append : (s t : String) → is_empty_str s ≡ false → is_empty_str (s ⧺ t) ≡ false
filled-append String.[] t h = cc
filled-append (String.◌∷◌ c s) t h = rw cons-append refl

printed : (f n : ℕ) → (all_digits (print_from f n) ≡ true) × (is_empty_str (print_from f n) ≡ false)
unfolding print_from
printed zero n = (digit-IsDigit n, digit-filled n)
printed (suc f) n = elim (Bool-cases (ltb n 10)) [
  | inl small ↦ rw small (digit-IsDigit n, digit-filled n)
  | inr big ↦
      let (digits, filled) = printed f (n / 10) in
      rw big (
        all_digits-append (print_from f (n / 10)) (digit (n % 10)) digits (digit-IsDigit (n % 10)),
        filled-append (print_from f (n / 10)) (digit (n % 10)) filled,
      )
]

-- A printed number is digits only, at least one.
pub to_string-digits :
    (n : ℕ) → (all_digits (to_string n) ≡ true) × (is_empty_str (to_string n) ≡ false)
unfolding to_string
to_string-digits n = printed n n
