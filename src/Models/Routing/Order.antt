-- ===== src/Models/Routing/Order.antt =====
-- The order of the rules under `RoutingRuleSet::move_rule` of routing.rs.
use mathlib.Core.List.{Perm}
use mathlib.Core.List.Perm
use v2ray_rs.Models.Routing.{RoutingRuleSet, moved, move_rule}
use v2ray_rs.Base.{
  ℕ, zero, suc, ◌+◌, ◌≤◌, ◌<◌, ◌≡◌, refl, ap, ◌⊎◌, inl, inr, true, false, ◌&&◌, some, List, [], ◌∷◌,
  arith, ltb, Bool-cases, Option-cases, length, get_elem?, insert_at, erase_at,
}

module _ {ℓ} {A : Type ℓ} where
  insert_at-perm : (xs : List A) (i : ℕ) (v : A) → Perm (insert_at xs i v) (v ∷ xs)
  insert_at-perm xs zero v = Perm.refl _
  insert_at-perm [] (suc i) v = Perm.refl _
  insert_at-perm (x ∷ xs) (suc i) v =
      Perm.trans (Perm.cons x (insert_at-perm xs i v)) (Perm.swap v x xs)

  erase_at-perm :
      (xs : List A) (i : ℕ) (v : A) → get_elem? xs i ≡ some v → Perm (v ∷ erase_at xs i) xs
  erase_at-perm [] i v h = cc
  erase_at-perm (x ∷ xs) zero v h = let e : x ≡ v = cc in rw e (Perm.refl _)
  erase_at-perm (x ∷ xs) (suc i) v h =
      Perm.trans (Perm.swap x v (erase_at xs i)) (Perm.cons x (erase_at-perm xs i v h))

  get_elem?-insert_at :
      (xs : List A) (i : ℕ) (v : A) → i ≤ length xs → get_elem? (insert_at xs i v) i ≡ some v
  get_elem?-insert_at xs zero v h = refl
  get_elem?-insert_at [] (suc i) v h = absurd (omega arith)
  get_elem?-insert_at (x ∷ xs) (suc i) v h = get_elem?-insert_at xs i v (omega arith)

  erase_at-insert_at :
      (xs : List A) (i : ℕ) (v : A) → i ≤ length xs → erase_at (insert_at xs i v) i ≡ xs
  erase_at-insert_at xs zero v h = refl
  erase_at-insert_at [] (suc i) v h = absurd (omega arith)
  erase_at-insert_at (x ∷ xs) (suc i) v h =
      ap (λ t. x ∷ t) (erase_at-insert_at xs i v (omega arith))

  length-erase_at : (xs : List A) (i : ℕ) → i < length xs → length (erase_at xs i) + 1 ≡ length xs
  length-erase_at [] i h = absurd (omega arith)
  length-erase_at (x ∷ xs) zero h = omega arith
  length-erase_at (x ∷ xs) (suc i) h = omega (arith, length-erase_at xs i (omega arith))

  get_elem?_inside : (xs : List A) (i : ℕ) → i < length xs → (v : A) × (get_elem? xs i ≡ some v)
  get_elem?_inside [] i h = absurd (omega arith)
  get_elem?_inside (x ∷ xs) zero h = (x, refl)
  get_elem?_inside (x ∷ xs) (suc i) h = get_elem?_inside xs i (omega arith)

in_bounds : (from to n : ℕ) → ltb from n && ltb to n ≡ true → (from < n) × (to < n)
in_bounds from to n h = ground arith

out_of_bounds : (from to n : ℕ) → ltb from n && ltb to n ≡ false → (n ≤ from) ⊎ (n ≤ to)
out_of_bounds from to n h = ground arith

module _ {N : Type 0} where
  moved-perm :
      (rules : RoutingRuleSet N) (from to : ℕ)
      → Perm (moved rules from to (get_elem? rules from)) rules
  moved-perm rules from to = elim (Option-cases (get_elem? rules from)) [
    | inl e ↦ rw e (Perm.refl rules)
    | inr (v, e) ↦
        rw e (Perm.trans (insert_at-perm (erase_at rules from) to v) (erase_at-perm rules from v e))
  ]

  -- Moving a rule permutes the rule set, whatever the two indices: no rule is lost or duplicated.
  pub move_rule-perm :
      (from to : ℕ) (rules : RoutingRuleSet N) → Perm (move_rule from to rules) rules
  unfolding move_rule
  move_rule-perm from to rules =
      elim (Bool-cases (ltb from (length rules) && ltb to (length rules))) [
        | inl e ↦ rw e (moved-perm rules from to)
        | inr e ↦ rw e (Perm.refl rules)
      ]

  -- With both indices in bounds, the rule that stood at `from` stands at `to`, and without it the
  -- set reads as before, so every other rule keeps its place among the others. With an index out of
  -- bounds the set is unchanged.
  pub move_rule_lem :
      (from to : ℕ) (rules : RoutingRuleSet N)
      → ((from < length rules)
          × (to < length rules)
          × (get_elem? (move_rule from to rules) to ≡ get_elem? rules from)
          × (erase_at (move_rule from to rules) to ≡ erase_at rules from))
        ⊎ (((length rules ≤ from) ⊎ (length rules ≤ to)) × (move_rule from to rules ≡ rules))
  unfolding move_rule
  move_rule_lem from to rules =
      elim (Bool-cases (ltb from (length rules) && ltb to (length rules))) [
        | inl inside ↦
            let (hf, ht) = in_bounds from to (length rules) inside in
            let (v, e) = get_elem?_inside rules from hf in
            let room : to ≤ length (erase_at rules from) =
              omega (arith, length-erase_at rules from hf) in
            inl (
              hf,
              ht,
              rw (inside, e) (get_elem?-insert_at (erase_at rules from) to v room),
              rw (inside, e) (erase_at-insert_at (erase_at rules from) to v room),
            )
        | inr outside ↦ inr (out_of_bounds from to (length rules) outside, rw outside refl)
      ]
