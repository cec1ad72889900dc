-- ===== src/Base/Sorting.antt =====
-- `Vec::sort_by`: the stable sort by a total preorder, here by insertion, and the order of texts.
use Prim.Native.Char.{code}
use Prim.Native.String.{String}
use mathlib.Core.Path.{◌≡◌, refl}
use mathlib.Core.Logic.{inl, inr}
use mathlib.Core.Bool.{Bool, true, false}
use mathlib.Core.List.Perm
use mathlib.Core.List.{List, [], ◌∷◌, Perm}
use native.Mathlib.Omega.{arith}
use v2ray_rs.Base.Tests.{ltb, ◌==◌, if◌then◌else◌, Bool-cases}
use v2ray_rs.Base.Lists.{All}

-- texts are ordered by their UTF-8 bytes, which is the order of their code points
unfoldable pub leb_str : String → String → Bool
leb_str String.[] t = true
leb_str (String.◌∷◌ c s) String.[] = false
leb_str (String.◌∷◌ c s) (String.◌∷◌ d t) =
    let rest = leb_str s t in if code c == code d then rest else ltb (code c) (code d)

pub leb_str_total : (s t : String) → leb_str s t ≡ false → leb_str t s ≡ true
unfolding leb_str
leb_str_total String.[] t h = cc
leb_str_total (String.◌∷◌ c s) String.[] h = refl
leb_str_total (String.◌∷◌ c s) (String.◌∷◌ d t) h = ground (arith, leb_str_total s t)

pub leb_str_trans : (s t u : String) → leb_str s t ≡ true → leb_str t u ≡ true → leb_str s u ≡ true
unfolding leb_str
leb_str_trans String.[] t u h k = refl
leb_str_trans (String.◌∷◌ c s) String.[] u h k = cc
leb_str_trans (String.◌∷◌ c s) (String.◌∷◌ d t) String.[] h k = cc
leb_str_trans (String.◌∷◌ c s) (String.◌∷◌ d t) (String.◌∷◌ e u) h k =
    ground (arith, leb_str_trans s t u)

module _ {ℓ} {A : Type ℓ} (le : A → A → Bool) where
  unfoldable pub insert_sorted : A → List A → List A
  insert_sorted x [] = x ∷ []
  insert_sorted x (y ∷ ys) =
      let later = insert_sorted x ys in if le x y then x ∷ y ∷ ys else y ∷ later

  unfoldable pub sort_by : List A → List A
  unfolding insert_sorted
  sort_by [] = []
  sort_by (x ∷ xs) = insert_sorted x (sort_by xs)

  -- every element is at most each later one
  abbrev pub IsSorted : List A → Type ℓ
  IsSorted [] = Unit
  IsSorted (x ∷ xs) = All (λ y. le x y ≡ true) xs × IsSorted xs

  insert_sorted-perm : (x : A) (xs : List A) → Perm (insert_sorted x xs) (x ∷ xs)
  unfolding insert_sorted
  insert_sorted-perm x [] = Perm.rfl
  insert_sorted-perm x (y ∷ ys) = elim (Bool-cases (le x y)) [
    | inl e ↦ rw e Perm.rfl
    | inr e ↦ rw e (Perm.trans (Perm.cons y (insert_sorted-perm x ys)) (Perm.swap x y ys))
  ]

  -- sorting rearranges
  pub sort_by-perm : (xs : List A) → Perm (sort_by xs) xs
  unfolding sort_by
  sort_by-perm [] = Perm.rfl
  sort_by-perm (x ∷ xs) =
      Perm.trans (insert_sorted-perm x (sort_by xs)) (Perm.cons x (sort_by-perm xs))

  module _ (total : (x y : A) → le x y ≡ false → le y x ≡ true)
      (trans : (x y z : A) → le x y ≡ true → le y z ≡ true → le x z ≡ true) where
    insert_sorted-All {κ} :
        (P : A → Type κ) (x : A) (xs : List A) → P x → All P xs → All P (insert_sorted x xs)
    unfolding insert_sorted
    insert_sorted-All P x [] p h = (p, tt)
    insert_sorted-All P x (y ∷ ys) p h = elim (Bool-cases (le x y)) [
      | inl e ↦ rw e (p, h)
      | inr e ↦ rw e (h.0, insert_sorted-All P x ys p h.1)
    ]

    All-trans :
        (x y : A) (ys : List A)
        → le x y ≡ true
        → All (λ z. le y z ≡ true) ys
        → All (λ z. le x z ≡ true) ys
    All-trans x y [] e h = tt
    All-trans x y (z ∷ zs) e h = (trans x y z e h.0, All-trans x y zs e h.1)

    insert_sorted-IsSorted : (x : A) (xs : List A) → IsSorted xs → IsSorted (insert_sorted x xs)
    unfolding insert_sorted
    insert_sorted-IsSorted x [] h = (tt, tt)
    insert_sorted-IsSorted x (y ∷ ys) h = elim (Bool-cases (le x y)) [
      | inl e ↦ rw e ((e, All-trans x y ys e h.0), h)
      | inr e ↦ rw e (
        insert_sorted-All (λ z. le y z ≡ true) x ys (total x y e) h.0,
        insert_sorted-IsSorted x ys h.1,
      )
    ]

    -- a sorted list comes out
    pub sort_by-IsSorted : (xs : List A) → IsSorted (sort_by xs)
    unfolding sort_by
    sort_by-IsSorted [] = tt
    sort_by-IsSorted (x ∷ xs) = insert_sorted-IsSorted x (sort_by xs) (sort_by-IsSorted xs)
