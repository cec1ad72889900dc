-- ===== src/Base/Bytes.antt =====
-- Texts as UTF-8: lengths in bytes and slices at byte positions.
use Prim.Native.Nat.{ℕ, ◌+◌, ◌-◌, ◌≤◌}
use Prim.Native.Char.{Char, code}
use Prim.Native.String.{String}
use mathlib.Core.Path.{◌≡◌, refl, sym, ap, ◌∙◌}
use mathlib.Core.Logic.{◌⊎◌, inl, inr}
use mathlib.Core.Bool.{true, false}
use mathlib.Core.Option.{Option, none, some}
use mathlib.Core.List.{List, [], ◌∷◌}
use native.Mathlib.Omega.{arith}
use text.Mathlib.TextLemmas.{cons-append, nil-append}
use v2ray_rs.Base.Tests.{ltb, leb, ◌==◌, if◌then◌else◌, Bool-cases}
use v2ray_rs.Base.Text.{◌⧺◌}

-- `char::len_utf8`
unfoldable pub utf8_len : Char → ℕ
utf8_len c =
    if ltb (code c) 0x80
    then 1
    else if ltb (code c) 0x800
    then 2
    else if ltb (code c) 0x10000
    then 3
    else 4

-- `str::len`
unfoldable pub byte_length : String → ℕ
unfolding utf8_len
byte_length String.[] = 0
byte_length (String.◌∷◌ c s) = utf8_len c + byte_length s

-- `char_indices().map(|(i, _)| i)`, from an offset on
unfoldable pub char_starts : ℕ → String → List ℕ
unfolding utf8_len
char_starts offset String.[] = []
char_starts offset (String.◌∷◌ c s) = offset ∷ char_starts (offset + utf8_len c) s

-- `take_while(|&i| i <= max)`
abbrev pub take_while_le : ℕ → List ℕ → List ℕ
take_while_le max [] = []
take_while_le max (i ∷ is) = let rest = take_while_le max is in if leb i max then i ∷ rest else []

-- `last().unwrap_or(default)`
abbrev pub last_or : ℕ → List ℕ → ℕ
last_or default [] = default
last_or default (i ∷ is) = last_or i is

abbrev prepended : Char → Option String → Option String
prepended c none = none
prepended c (some s) = some (String.◌∷◌ c s)

abbrev done_at : ℕ → Option String
done_at n = if n == 0 then some String.[] else none

-- `&s[..n]`, a panic where the position is past the end or inside a character
unfoldable pub slice_to : ℕ → String → Option String
unfolding utf8_len
slice_to n String.[] = done_at n
slice_to n (String.◌∷◌ c s) =
    let more = prepended c (slice_to (n - utf8_len c) s) in
    if n == 0 then some String.[] else if leb (utf8_len c) n then more else none

pub byte_length-append : (s t : String) → byte_length (s ⧺ t) ≡ byte_length s + byte_length t
unfolding byte_length
byte_length-append String.[] t = rw nil-append (omega arith)
byte_length-append (String.◌∷◌ c s) t = rw cons-append (omega (arith, byte_length-append s t))

utf8_len-pos : (c : Char) → 1 ≤ utf8_len c
unfolding utf8_len
utf8_len-pos c = ground arith

-- the bytes of a beginning are sliced off
slice_to-append : (s t : String) → slice_to (byte_length s) (s ⧺ t) ≡ some s
unfolding slice_to byte_length
slice_to-append String.[] String.[] = refl
slice_to-append String.[] (String.◌∷◌ c t) = rw nil-append refl
slice_to-append (String.◌∷◌ c s) t =
    let positive : (utf8_len c + byte_length s == 0) ≡ false = ground (arith, utf8_len-pos c) in
    let fits : leb (utf8_len c) (utf8_len c + byte_length s) ≡ true = ground arith in
    let left : utf8_len c + byte_length s - utf8_len c ≡ byte_length s = omega arith in
    rw (cons-append, positive, fits, left, slice_to-append s t) refl

-- The last start of a character up to a bound, from an offset on: the default, or the offset and the
-- bytes of a beginning of the text.
boundary_cases :
    (max default offset : ℕ) (s : String)
    → default ≤ max
    → (last_or default (take_while_le max (char_starts offset s)) ≤ max)
      × ((last_or default (take_while_le max (char_starts offset s)) ≡ default)
          ⊎ ((t : String) × (rest : String) × (s ≡ t ⧺ rest)
              × (last_or default (take_while_le max (char_starts offset s))
                  ≡ offset + byte_length t)))
unfolding char_starts byte_length
boundary_cases max default offset String.[] h = (h, inl refl)
boundary_cases max default offset (String.◌∷◌ c s) h = elim (Bool-cases (leb offset max)) [
  | inr past ↦ rw past (h, inl refl)
  | inl within ↦
      let (bound, cases) = boundary_cases max offset (offset + utf8_len c) s (ground arith) in
      rw within (
        bound,
        inr (
            go c s (last_or offset (take_while_le max (char_starts (offset + utf8_len c) s)))
              cases),
      )
]
  where
    go :
        (c : Char) (s : String) (b : ℕ)
        → (b ≡ offset)
          ⊎ ((t : String) × (rest : String) × (s ≡ t ⧺ rest)
              × (b ≡ offset + utf8_len c + byte_length t))
        → (t : String) × (rest : String) × (String.◌∷◌ c s ≡ t ⧺ rest)
          × (b ≡ offset + byte_length t)
    go c s b (inl e) = (String.[], String.◌∷◌ c s, rw nil-append refl, omega (arith, e))
    go c s b (inr (t, rest, e, k)) =
        (String.◌∷◌ c t, rest, rw cons-append (ap (String.◌∷◌ c) e), omega (arith, k))

-- The text up to the last character start within a bound: it is never sliced inside a character.
pub slice_to-last_start :
    (max : ℕ) (s : String)
    → (t : String) × (rest : String) × (slice_to (last_or 0 (take_while_le max (char_starts 0 s))) s
        ≡ some t)
      × (s ≡ t ⧺ rest)
      × (byte_length t ≤ max)
slice_to-last_start max s =
    let (bound, cases) = boundary_cases max 0 0 s (omega arith) in
    elim cases [
      | inl e ↦ beginning String.[] s (rw nil-append refl) (e ∙ sym empty) bound
      | inr (t, rest, e, k) ↦ beginning t rest e (omega (arith, k)) bound
    ]
  where
    empty : byte_length String.[] ≡ 0
    empty = unfold byte_length in refl

    beginning :
        (t rest : String)
        → s ≡ t ⧺ rest
        → last_or 0 (take_while_le max (char_starts 0 s)) ≡ byte_length t
        → last_or 0 (take_while_le max (char_starts 0 s)) ≤ max
        → (t : String) × (rest : String) × (slice_to
              (last_or 0 (take_while_le max (char_starts 0 s)))
              s
            ≡ some t)
          × (s ≡ t ⧺ rest)
          × (byte_length t ≤ max)
    beginning t rest e k bound = (
      t,
      rest,
      ap (λ (n : ℕ). slice_to n s) k ∙ ap (slice_to (byte_length t)) e ∙ slice_to-append t rest,
      e,
      omega (arith, k),
    )
