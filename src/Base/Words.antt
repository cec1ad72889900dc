-- ===== src/Base/Words.antt =====
-- Words of a text: the characters that are mapped, and words joined by a character.
use Prim.Native.Nat.{ℕ}
use Prim.Native.Char.{Char, code}
use Prim.Native.String.{String}
use mathlib.Core.Path.{◌≡◌, refl}
use mathlib.Core.Logic.{inl, inr}
use mathlib.Core.Bool.{Bool, true, false, not, ◌&&◌}
use mathlib.Core.List.{List, [], ◌∷◌, map}
use text.Mathlib.TextLemmas.{append_assoc, cons-append, nil-append}
use v2ray_rs.Base.Tests.{if◌then◌else◌, ◌==◌, ==_iff, Bool-cases}
use v2ray_rs.Base.Lists.{keep_if, All}
use v2ray_rs.Base.Text.{◌⧺◌, is_empty_str, split, extend_head}
use v2ray_rs.Base.TextSplits.{lacks}

-- `s.chars().map(f).collect::<String>()`
abbrev pub map_chars : (Char → Char) → String → String
map_chars f String.[] = String.[]
map_chars f (String.◌∷◌ c s) = String.◌∷◌ (f c) (map_chars f s)

-- `words.join(sep)`
abbrev pub join_words : String → List String → String
join_words sep [] = String.[]
join_words sep (w ∷ []) = w
join_words sep (w ∷ v ∷ ws) = w ⧺ sep ⧺ join_words sep (v ∷ ws)

-- every character passes a test
abbrev pub all_chars : (Char → Bool) → String → Bool
all_chars p String.[] = true
all_chars p (String.◌∷◌ c s) = p c && all_chars p s

-- a line without the carriage return at its end
abbrev pub strip_cr : String → String
strip_cr String.[] = String.[]
strip_cr (String.◌∷◌ c s) =
    let rest = strip_cr s in if is_empty_str s && code c == 13 then String.[] else String.◌∷◌ c rest

abbrev pub drop_last_empty : List String → List String
drop_last_empty [] = []
drop_last_empty (l ∷ []) = if is_empty_str l then [] else l ∷ []
drop_last_empty (l ∷ ls) = l ∷ drop_last_empty ls

-- `str::lines`
abbrev pub lines : String → List String
lines s = map strip_cr (drop_last_empty (split 10 s))

both : (a b : Bool) → a && b ≡ true → (a ≡ true) × (b ≡ true)
both true b h = (refl, h)
both false b h = cc

pub all_chars-map_chars :
    (p : Char → Bool) (f : Char → Char)
    → ((c : Char) → p (f c) ≡ true)
    → (s : String) → all_chars p (map_chars f s) ≡ true
all_chars-map_chars p f h String.[] = refl
all_chars-map_chars p f h (String.◌∷◌ c s) = rw (h c) (all_chars-map_chars p f h s)

pub all_chars-append :
    (p : Char → Bool) (s t : String)
    → all_chars p s ≡ true
    → all_chars p t ≡ true
    → all_chars p (s ⧺ t) ≡ true
all_chars-append p String.[] t h k = rw nil-append k
all_chars-append p (String.◌∷◌ c s) t h k =
    let (first, rest) = both (p c) _ h in rw (cons-append, first) (all_chars-append p s t rest k)

-- a word between separators: characters that pass the test, and none of the separator
abbrev pub IsWord : (Char → Bool) → ℕ → String → Type 0
IsWord p n w = (all_chars p w ≡ true) × (lacks n w ≡ true)

All-extend_head :
    (p : Char → Bool) (n : ℕ) (c : Char) (ws : List String)
    → p c ≡ true
    → (code c == n) ≡ false
    → All (IsWord p n) ws
    → All (IsWord p n) (extend_head c ws)
All-extend_head p n c [] h k all = ((rw h refl, rw k refl), tt)
All-extend_head p n c (w ∷ ws) h k ((a, b), all) = ((rw h a, rw k b), all)

pub All-split :
    (p : Char → Bool) (n : ℕ) (s : String) → all_chars p s ≡ true → All (IsWord p n) (split n s)
All-split p n String.[] h = ((refl, refl), tt)
All-split p n (String.◌∷◌ c s) h =
    let (first, rest) = both (p c) _ h in
    elim (Bool-cases (code c == n)) [
      | inl e ↦ rw e ((refl, refl), All-split p n s rest)
      | inr e ↦ rw e (All-extend_head p n c (split n s) first e (All-split p n s rest))
    ]

pub All-keep_if {ℓ κ} :
    {A : Type ℓ} (P : A → Type κ) (p : A → Bool) (xs : List A)
    → All P xs
    → All (λ x. P x × (p x ≡ true)) (keep_if p xs)
All-keep_if P p [] h = tt
All-keep_if P p (x ∷ xs) h = elim (Bool-cases (p x)) [
  | inl e ↦ rw e ((h.0, e), All-keep_if P p xs h.1)
  | inr e ↦ rw e (All-keep_if P p xs h.1)
]

other_char :
    (n : ℕ) (c : Char) (s : String)
    → lacks n (String.◌∷◌ c s) ≡ true
    → ((code c == n) ≡ false) × (lacks n s ≡ true)
other_char n c s h = elim (Bool-cases (code c == n)) [
  | inl e ↦ cc (rw e at h)
  | inr e ↦ (e, rw e at h)
]

split_one : (n : ℕ) (w : String) → lacks n w ≡ true → split n w ≡ w ∷ []
split_one n String.[] h = refl
split_one n (String.◌∷◌ c s) h =
    let (other, rest) = other_char n c s h in rw (other, split_one n s rest) refl

split_first :
    (d : Char) (w t : String)
    → lacks (code d) w ≡ true
    → split (code d) (w ⧺ String.◌∷◌ d t) ≡ w ∷ split (code d) t
split_first d String.[] t h = rw (nil-append, (==_iff (code d) (code d)).1 refl) refl
split_first d (String.◌∷◌ c s) t h =
    let (other, rest) = other_char (code d) c s h in
    rw (cons-append, other, split_first d s t rest) refl

-- words that lack the separator are split as they were joined
pub split-join_words :
    (p : Char → Bool) (d : Char) (w : String) (ws : List String)
    → All (λ x. IsWord p (code d) x × (not (is_empty_str x) ≡ true)) (w ∷ ws)
    → split (code d) (join_words (String.◌∷◌ d String.[]) (w ∷ ws)) ≡ w ∷ ws
split-join_words p d w [] (((_, h), _), _) = split_one (code d) w h
split-join_words p d w (v ∷ ws) (((_, h), _), rest) =
    rw
      (
        append_assoc,
        cons-append,
        nil-append,
        split_first d w (join_words (String.◌∷◌ d String.[]) (v ∷ ws)) h,
        split-join_words p d v ws rest,
      )
      refl

pub all_chars-join_words :
    (p : Char → Bool) (d : Char) (ws : List String)
    → p d ≡ true
    → All (λ x. IsWord p (code d) x × (not (is_empty_str x) ≡ true)) ws
    → all_chars p (join_words (String.◌∷◌ d String.[]) ws) ≡ true
all_chars-join_words p d [] h all = refl
all_chars-join_words p d (w ∷ []) h (((a, _), _), _) = a
all_chars-join_words p d (w ∷ v ∷ ws) h (((a, _), _), rest) =
    all_chars-append p (w ⧺ String.◌∷◌ d String.[]) (join_words (String.◌∷◌ d String.[]) (v ∷ ws))
      (all_chars-append p w (String.◌∷◌ d String.[]) a (rw h refl))
      (all_chars-join_words p d (v ∷ ws) h rest)
