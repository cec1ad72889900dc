-- ===== src/Storage/CustomPresets/Names.antt =====
-- crates/core/src/persistence.rs: the file names that `slugify` makes.
use v2ray_rs.Storage.CustomPresets.{is_ascii_alphanumeric, or_dash, slugify}
use v2ray_rs.Base.{
  Char, code, String, ◌≡◌, refl, ◌⊎◌, inl, inr, Bool, true, not, ◌||◌, List, [], ◌∷◌, ◌==◌,
  Bool-cases, keep_if, All, is_empty_str, Unicode, split, map_chars, join_words, all_chars,
  all_chars-map_chars, IsWord, All-split, All-keep_if, split-join_words, all_chars-join_words,
}

-- what a slug consists of
abbrev pub is_slug_char : Char → Bool
is_slug_char c = is_ascii_alphanumeric c || code c == b'-'

or_dash_slug : (c : Char) → is_slug_char (or_dash c) ≡ true
or_dash_slug c = elim (Bool-cases (is_ascii_alphanumeric c)) [
  | inl e ↦ rw (e, e) refl
  | inr e ↦ rw e refl
]

-- A slug is empty, or it is made of words without a dash between single dashes.
abbrev pub IsSlug : String → Type 0
IsSlug s =
    (all_chars is_slug_char s ≡ true)
    × ((s ≡ "") ⊎ All (λ w. not (is_empty_str w) ≡ true) (split b'-' s))

All-nonempty :
    (ws : List String)
    → All (λ w. IsWord is_slug_char b'-' w × (not (is_empty_str w) ≡ true)) ws
    → All (λ w. not (is_empty_str w) ≡ true) ws
All-nonempty [] h = tt
All-nonempty (w ∷ ws) h = (h.0.1, All-nonempty ws h.1)

joined-IsSlug :
    (ws : List String)
    → All (λ w. IsWord is_slug_char b'-' w × (not (is_empty_str w) ≡ true)) ws
    → IsSlug (join_words "-" ws)
joined-IsSlug [] h = (refl, inl refl)
joined-IsSlug (w ∷ ws) h = (
  all_chars-join_words is_slug_char "-" (w ∷ ws) refl h,
  inr (rw (split-join_words is_slug_char "-" w ws h) (All-nonempty (w ∷ ws) h)),
)

-- Whatever the name of a preset is, its slug holds only ASCII letters, digits and dashes, and no
-- dash stands first, last or beside another: a preset is stored in the directory of the presets.
pub slugify-IsSlug : (u : Unicode) (name : String) → IsSlug (slugify u name)
unfolding slugify
slugify-IsSlug u name =
    let text = map_chars or_dash (u.to_lowercase name) in
    joined-IsSlug (keep_if (λ s. not (is_empty_str s)) (split b'-' text)) (
      All-keep_if (IsWord is_slug_char b'-') (λ s. not (is_empty_str s)) (split b'-' text)
        (All-split is_slug_char b'-' text
          (all_chars-map_chars is_slug_char or_dash or_dash_slug (u.to_lowercase name))))
