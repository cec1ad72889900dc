-- ===== src/Models/Routing/Removal.antt =====
-- `RoutingRuleSet::remove` of routing.rs.
use native.Mathlib.Nat.{zero-add}
use v2ray_rs.Models.Subscription.{UuidValue}
use v2ray_rs.Models.Routing.{RoutingRule, RoutingRuleSet, position_from, remove}
use v2ray_rs.Base.{
  ℕ, suc, ◌+◌, ◌≡◌, refl, ap, ◌∙◌, ◌≢◌, ◌⊎◌, inl, inr, none, some, [], ◌∷◌, ◌++◌, arith, ◌==◌,
  Bool-cases, get_elem?, erase_at, All,
}

module _ {N : Type 0} where
  -- no rule of the list has the identifier
  abbrev pub Absent : UuidValue → RoutingRuleSet N → Type 0
  Absent id = All (λ r. r.id ≢ id)

  -- the first rule with the identifier, between what stands before and after it
  pub record Located (id : UuidValue) (rules : RoutingRuleSet N) : Type 0 where
    pub before : RoutingRuleSet N
    pub rule : RoutingRule N
    pub after : RoutingRuleSet N
    pub parts : rules ≡ before ++ rule ∷ after
    pub has_id : rule.id ≡ id
    pub first : Absent id before

  abbrev RestOf : RoutingRuleSet N → ℕ → UuidValue → Type 0
  RestOf rules at id =
      ((position_from at id rules ≡ none) × Absent id rules)
      ⊎ ((k : ℕ) × (l : Located id rules) × (position_from at id rules ≡ some (at + k))
          × (get_elem? rules k ≡ some l.rule)
          × (erase_at rules k ≡ l.before ++ l.after))

  position_from_lem : (at : ℕ) (id : UuidValue) (rules : RoutingRuleSet N) → RestOf rules at id
  unfolding position_from
  position_from_lem at id [] = inl (refl, tt)
  position_from_lem at id (r ∷ rs) = elim (Bool-cases (r.id == id)) [
    | inl same ↦ inr (
      0,
      record { before = []; rule = r; after = rs; parts = refl; has_id = ground arith; first = tt },
      rw same (ap some (omega arith)),
      refl,
      refl,
    )
    | inr other ↦ elim (position_from_lem (at + 1) id rs) [
      | inl (e, gone) ↦ inl (rw other e, (ground arith, gone))
      | inr (k, l, e, got, erased) ↦ inr (
        suc k,
        record {
          before = r ∷ l.before;
          rule = l.rule;
          after = l.after;
          parts = ap (λ t. r ∷ t) l.parts;
          has_id = l.has_id;
          first = (ground arith, l.first);
        },
        rw other (e ∙ ap some (omega arith)),
        got,
        ap (λ t. r ∷ t) erased,
      )
    ]
  ]

  -- Either no rule has the identifier, and `remove` returns nothing and changes nothing, or the
  -- first rule with it is returned and exactly that rule is taken out.
  pub remove_lem :
      (id : UuidValue) (rules : RoutingRuleSet N)
      → (Absent id rules × (remove id rules ≡ (none, rules)))
        ⊎ ((l : Located id rules) × (remove id rules ≡ (some l.rule, l.before ++ l.after)))
  unfolding remove
  remove_lem id rules = elim (position_from_lem 0 id rules) [
    | inl (e, gone) ↦ inl (gone, rw e)
    | inr (k, l, e, got, erased) ↦ inr (l, rw (e, zero-add, got, erased))
  ]
