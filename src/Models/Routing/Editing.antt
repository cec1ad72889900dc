-- ===== src/Models/Routing/Editing.antt =====
-- `RoutingRuleSet::edit_rule` of routing.rs.
use v2ray_rs.Models.Subscription.{UuidValue}
use v2ray_rs.Models.Validation.{RuleMatch, IpNetApi, ValidationError, validate_rule_match}
use v2ray_rs.Models.Routing.{
  RuleAction, RoutingRule, RoutingRuleSet, set_action, edit_one, edit_from, edit_rule,
}
use v2ray_rs.Models.Routing.Removal.{Absent, Located}
use v2ray_rs.Base.{
  ◌≡◌, refl, ap, ◌⊎◌, inl, inr, Bool, true, false, Option, none, some, [], ◌∷◌, ◌++◌, arith, ◌==◌,
  Bool-cases, Unicode, Result, ok, err,
}

module _ {N : Type 0} where
  -- the rule with its new match condition and action, where they are given
  abbrev pub edited : Option (RuleMatch N) → Option RuleAction → RoutingRule N → RoutingRule N
  edited none action rule = set_action action rule
  edited (some m) action rule = set_action action (record rule { match_condition = m })

module _ {N : Type 0} (u : Unicode) (net : IpNetApi N) where
  -- the new match condition, if there is one, passes validation
  abbrev pub Accepted : Option (RuleMatch N) → Type 0
  Accepted none = Unit
  Accepted (some m) = validate_rule_match u net m ≡ ok tt

  abbrev pub Refused : Option (RuleMatch N) → ValidationError → Type 0
  Refused none e = ⊥
  Refused (some m) e = validate_rule_match u net m ≡ err e

  abbrev OneOutcome : Option (RuleMatch N) → Option RuleAction → RoutingRule N → Type 0
  OneOutcome m action r =
      (Accepted m × (edit_one u net m action r ≡ ok (edited m action r)))
      ⊎ ((e : ValidationError) × Refused m e × (edit_one u net m action r ≡ err e))

  edit_one_checked :
      (m : RuleMatch N) (action : Option RuleAction) (r : RoutingRule N)
      (v : Result ValidationError (Unit {0}))
      → validate_rule_match u net m ≡ v
      → OneOutcome (some m) action r
  unfolding edit_one
  edit_one_checked m action r (ok tt) e = inl (e, rw e)
  edit_one_checked m action r (err x) e = inr (x, e, rw e)

  edit_one_lem :
      (m : Option (RuleMatch N)) (action : Option RuleAction) (r : RoutingRule N)
      → OneOutcome m action r
  unfolding edit_one
  edit_one_lem none action r = inl (tt, refl)
  edit_one_lem (some m) action r = edit_one_checked m action r (validate_rule_match u net m) refl

  abbrev pub EditOutcome :
      UuidValue
      → Option (RuleMatch N)
      → Option RuleAction
      → RoutingRuleSet N
      → Result ValidationError (Bool × RoutingRuleSet N)
      → Type 0
  EditOutcome id m action rules result =
      (Absent id rules × (result ≡ ok (false, rules)))
      ⊎ ((l : Located id rules) × ((Accepted m
              × (result ≡ ok (true, l.before ++ edited m action l.rule ∷ l.after)))
            ⊎ ((e : ValidationError) × Refused m e × (result ≡ err e))))

  edit_from_lem :
      (id : UuidValue) (m : Option (RuleMatch N)) (action : Option RuleAction)
      (rules : RoutingRuleSet N)
      → EditOutcome id m action rules (edit_from u net id m action rules)
  unfolding edit_from
  edit_from_lem id m action [] = inl (tt, refl)
  edit_from_lem id m action (r ∷ rs) = elim (Bool-cases (r.id == id)) [
    | inl same ↦
        let here : Located id (r ∷ rs) = record {
          before = [];
          rule = r;
          after = rs;
          parts = refl;
          has_id = ground arith;
          first = tt;
        } in
        elim (edit_one_lem m action r) [
          | inl (a, e) ↦ inr (here, inl (a, rw (same, e)))
          | inr (x, f, e) ↦ inr (here, inr (x, f, rw (same, e)))
        ]
    | inr other ↦ elim (edit_from_lem id m action rs) [
      | inl (gone, e) ↦ inl ((ground arith, gone), rw (other, e))
      | inr (l, rest) ↦
          let later : Located id (r ∷ rs) = record {
            before = r ∷ l.before;
            rule = l.rule;
            after = l.after;
            parts = ap (λ t. r ∷ t) l.parts;
            has_id = l.has_id;
            first = (ground arith, l.first);
          } in
          elim rest [
            | inl (a, e) ↦ inr (later, inl (a, rw (other, e)))
            | inr (x, f, e) ↦ inr (later, inr (x, f, rw (other, e)))
          ]
    ]
  ]

  pub edit_rule_lem :
      (id : UuidValue) (m : Option (RuleMatch N)) (action : Option RuleAction)
      (rules : RoutingRuleSet N)
      → EditOutcome id m action rules (edit_rule u net id m action rules)
  unfolding edit_rule
  edit_rule_lem id m action rules = edit_from_lem id m action rules
