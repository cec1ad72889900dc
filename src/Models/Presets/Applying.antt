-- ===== src/Models/Presets/Applying.antt =====
-- `RoutingRuleSet::apply_preset` of routing.rs.
use mathlib.Core.List.{append_assoc, append-nil}
use v2ray_rs.Models.Subscription.{UuidValue}
use v2ray_rs.Models.Validation.{RuleMatch, geo_ip, geo_site, domain, ip_cidr, IpNetApi}
use v2ray_rs.Models.Routing.{RoutingRule, RoutingRuleSet, rule_match_eq}
use v2ray_rs.Models.Presets.{
  PresetRule, Preset, routing_rule, rules_from, rules, already_exists, apply_from, apply_preset,
}
use v2ray_rs.Base.{
  ap, ℕ, suc, ◌≡◌, refl, sym, ◌∙◌, inl, inr, true, List, [], ◌∷◌, ◌++◌, eq_refl, if◌then◌else◌,
  Bool-cases, All,
}

module _ {N : Type 0} (net : IpNetApi N) where
  any-append_left :
      (m : RuleMatch N) (xs ys : RoutingRuleSet N)
      → already_exists net m xs ≡ true
      → already_exists net m (xs ++ ys) ≡ true
  any-append_left m [] ys h = cc
  any-append_left m (x ∷ xs) ys h = elim (Bool-cases (rule_match_eq net x.match_condition m)) [
    | inl e ↦ rw e refl
    | inr e ↦ rw e (any-append_left m xs ys (rw e at h))
  ]

  any-append_last :
      (m : RuleMatch N) (xs : RoutingRuleSet N) (r : RoutingRule N)
      → rule_match_eq net r.match_condition m ≡ true
      → already_exists net m (xs ++ r ∷ []) ≡ true
  any-append_last m [] r h = rw h refl
  any-append_last m (x ∷ xs) r h = elim (Bool-cases (rule_match_eq net x.match_condition m)) [
    | inl e ↦ rw e refl
    | inr e ↦ rw e (any-append_last m xs r h)
  ]

  -- the set after one round of the loop
  abbrev round : RoutingRule N → RoutingRuleSet N → RoutingRuleSet N
  round r set = if already_exists net r.match_condition set then set else set ++ r ∷ []

  round-keeps :
      (m : RuleMatch N) (r : RoutingRule N) (set : RoutingRuleSet N)
      → already_exists net m set ≡ true
      → already_exists net m (round r set) ≡ true
  round-keeps m r set h = elim (Bool-cases (already_exists net r.match_condition set)) [
    | inl e ↦ rw e h
    | inr e ↦ rw e (any-append_left m set (r ∷ []) h)
  ]

  apply_from-keeps :
      (m : RuleMatch N) (more : List (RoutingRule N)) (set : RoutingRuleSet N)
      → already_exists net m set ≡ true
      → already_exists net m (apply_from net more set) ≡ true
  unfolding apply_from
  apply_from-keeps m [] set h = h
  apply_from-keeps m (r ∷ more) set h =
      apply_from-keeps m more (round r set) (round-keeps m r set h)

  apply_from_extends :
      (more : List (RoutingRule N)) (set : RoutingRuleSet N)
      → (extra : RoutingRuleSet N) × (apply_from net more set ≡ set ++ extra)
  unfolding apply_from
  apply_from_extends [] set = ([], sym (append-nil set))
  apply_from_extends (r ∷ more) set = elim (Bool-cases (already_exists net r.match_condition set)) [
    | inl e ↦ let (extra, p) = apply_from_extends more set in (extra, rw e p)
    | inr e ↦
        let (extra, p) = apply_from_extends more (set ++ r ∷ []) in
        (r ∷ extra, rw e (p ∙ append_assoc set (r ∷ []) extra))
  ]

  -- Applying a preset only appends: the rules that were there keep their places.
  pub apply_preset_extends :
      (fresh : ℕ → UuidValue) (p : Preset N) (set : RoutingRuleSet N)
      → (extra : RoutingRuleSet N) × (apply_preset net fresh p set ≡ set ++ extra)
  unfolding apply_preset
  apply_preset_extends fresh p set = apply_from_extends (rules fresh p) set

  -- with every match condition there, the loop changes nothing
  abbrev Covers : RoutingRuleSet N → List (PresetRule N) → Type 0
  Covers set = All (λ pr. already_exists net pr.match_condition set ≡ true)

  apply_from_of_Covers :
      (fresh : ℕ → UuidValue) (n : ℕ) (prs : List (PresetRule N)) (set : RoutingRuleSet N)
      → Covers set prs
      → apply_from net (rules_from fresh n prs) set ≡ set
  unfolding apply_from
  apply_from_of_Covers fresh n [] set h = refl
  apply_from_of_Covers fresh n (pr ∷ prs) set h =
      let same : round (routing_rule (fresh n) pr) set ≡ set = rw h.0 refl in
      ap (apply_from net (rules_from fresh (suc n) prs)) same
      ∙ apply_from_of_Covers fresh (suc n) prs set h.1

module _ {N : Type 0} (net : IpNetApi N) (eq_self : (n : N) → net.eq n n ≡ true) where
  rule_match_eq_self : (m : RuleMatch N) → rule_match_eq net m m ≡ true
  rule_match_eq_self (geo_ip s) = eq_refl s
  rule_match_eq_self (geo_site s) = eq_refl s
  rule_match_eq_self (domain s) = eq_refl s
  rule_match_eq_self (ip_cidr n) = eq_self n

  round_covers :
      (r : RoutingRule N) (set : RoutingRuleSet N)
      → already_exists net r.match_condition (round net r set) ≡ true
  round_covers r set = elim (Bool-cases (already_exists net r.match_condition set)) [
    | inl e ↦ rw e e
    | inr e ↦
        rw e (any-append_last net r.match_condition set r (rule_match_eq_self r.match_condition))
  ]

  apply_from-Covers :
      (fresh : ℕ → UuidValue) (n : ℕ) (prs : List (PresetRule N)) (set : RoutingRuleSet N)
      → Covers net (apply_from net (rules_from fresh n prs) set) prs
  unfolding apply_from
  apply_from-Covers fresh n [] set = tt
  apply_from-Covers fresh n (pr ∷ prs) set = (
    apply_from-keeps net pr.match_condition (rules_from fresh (suc n) prs)
        (round net (routing_rule (fresh n) pr) set) (round_covers (routing_rule (fresh n) pr) set),
    apply_from-Covers fresh (suc n) prs (round net (routing_rule (fresh n) pr) set),
  )

  -- Where the equality of networks is reflexive, after a preset is applied each of its match
  -- conditions stands in the set.
  pub apply_preset-Covers :
      (fresh : ℕ → UuidValue) (p : Preset N) (set : RoutingRuleSet N)
      → All
          (λ pr. already_exists net pr.match_condition (apply_preset net fresh p set) ≡ true)
          p.rules
  unfolding apply_preset
  apply_preset-Covers fresh p set = apply_from-Covers fresh 0 p.rules set

  -- Where the equality of networks is reflexive, applying the same preset a second time, with
  -- whatever new identifiers, changes nothing.
  pub apply_preset_idempotent :
      (fresh fresh' : ℕ → UuidValue) (p : Preset N) (set : RoutingRuleSet N)
      → apply_preset net fresh' p (apply_preset net fresh p set) ≡ apply_preset net fresh p set
  unfolding apply_preset
  apply_preset_idempotent fresh fresh' p set =
      apply_from_of_Covers net fresh' 0 p.rules _ (apply_from-Covers fresh 0 p.rules set)
