-- ===== src/Subscription/Update/Counting.antt =====
-- How often the elements of two lists match, counted from either side.
use v2ray_rs.Base.{
  ℕ, ◌+◌, ◌-◌, ◌≡◌, refl, sym, Bool, true, false, not, ◌||◌, List, [], ◌∷◌, arith, length, any, All,
}

abbrev pub bit : Bool → ℕ
bit true = 1
bit false = 0

none_here : (b : Bool) {c : Bool} {n : ℕ} → b || c ≡ false → (c ≡ false → n ≡ 0) → bit b + n ≡ 0
none_here true h f = cc
none_here false {n = n} h f = omega (arith, f h)

both : (b : Bool) → bit b + bit (not b) ≡ 1
both true = refl
both false = refl

module _ {ℓ} {A : Type ℓ} where
  -- the number of elements that pass a test
  abbrev pub count : (A → Bool) → List A → ℕ
  count p [] = 0
  count p (x ∷ xs) = bit (p x) + count p xs

  abbrev pub total : (A → ℕ) → List A → ℕ
  total f [] = 0
  total f (x ∷ xs) = f x + total f xs

  total-add : (f g : A → ℕ) (xs : List A) → total (λ x. f x + g x) xs ≡ total f xs + total g xs
  total-add f g [] = refl
  total-add f g (x ∷ xs) = omega (arith, total-add f g xs)

  total-zero : (xs : List A) → total (λ x. 0) xs ≡ 0
  total-zero [] = refl
  total-zero (x ∷ xs) = omega (arith, total-zero xs)

  pub count-total : (p : A → Bool) (xs : List A) → count p xs ≡ total (λ x. bit (p x)) xs
  count-total p [] = refl
  count-total p (x ∷ xs) = omega (arith, count-total p xs)

  pub count-both : (p : A → Bool) (xs : List A) → count p xs + count (λ x. not (p x)) xs ≡ length xs
  count-both p [] = refl
  count-both p (x ∷ xs) = omega (arith, both (p x), count-both p xs)

  pub count-none : (p : A → Bool) (xs : List A) → any p xs ≡ false → count p xs ≡ 0
  count-none p [] h = refl
  count-none p (x ∷ xs) h = none_here (p x) h (count-none p xs)

  pub count-not : (p : A → Bool) (xs : List A) → count (λ x. not (p x)) xs ≡ length xs - count p xs
  count-not p xs = omega (arith, count-both p xs)

  pub total-cong : (f g : A → ℕ) (xs : List A) → All (λ x. f x ≡ g x) xs → total f xs ≡ total g xs
  total-cong f g [] h = refl
  total-cong f g (x ∷ xs) h = omega (arith, h.0, total-cong f g xs h.1)

module _ {ℓ κ} {A : Type ℓ} {B : Type κ} where
  -- the pairs that match, counted by rows and by columns
  pub double_count :
      (p : A → B → Bool) (xs : List A) (ys : List B)
      → total (λ x. count (p x) ys) xs ≡ total (λ y. count (λ x. p x y) xs) ys
  double_count p [] ys = sym (total-zero ys)
  double_count p (x ∷ xs) ys =
      let e = total-add (λ y. bit (p x y)) (λ y. count (λ x. p x y) xs) ys in
      omega (arith, e, double_count p xs ys, count-total (p x) ys)
