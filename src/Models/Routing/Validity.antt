-- ===== src/Models/Routing/Validity.antt =====
-- Validated rule sets: every operation of routing.rs but `add` and `apply_preset` keeps a set of
-- rules whose match conditions all pass validation.
use v2ray_rs.Models.Subscription.{UuidValue}
use v2ray_rs.Models.Validation.{RuleMatch, IpNetApi, ValidationError, validate_rule_match}
use v2ray_rs.Models.Routing.{
  RuleAction, RoutingRule, RoutingRuleSet, moved, remove, move_rule, add_validated, add_at,
  edit_rule,
}
use v2ray_rs.Models.Routing.Removal.{remove_lem}
use v2ray_rs.Models.Routing.Editing.{edited, Accepted, edit_rule_lem}
use v2ray_rs.Base.{
  ℕ, zero, suc, ◌≡◌, refl, inl, inr, Bool, ◌&&◌, Option, none, some, List, [], ◌∷◌, ◌++◌, ltb,
  Bool-cases, Option-cases, length, get_elem?, insert_at, erase_at, All, All-append, Unicode,
  Result, ok, err,
}

-- the operations of a user on the rule set
pub data Operation (N : Type 0) : Type 0 where
  insert_last : RoutingRule N → Operation N
  insert_at_index : ℕ → RoutingRule N → Operation N
  edit : UuidValue → Option (RuleMatch N) → Option RuleAction → Operation N
  delete : UuidValue → Operation N
  reorder : ℕ → ℕ → Operation N

module _ {ℓ} {A : Type ℓ} (P : A → Type 0) where
  All-insert_at : (xs : List A) (i : ℕ) (v : A) → All P xs → P v → All P (insert_at xs i v)
  All-insert_at xs zero v h p = (p, h)
  All-insert_at [] (suc i) v h p = (p, tt)
  All-insert_at (x ∷ xs) (suc i) v h p = (h.0, All-insert_at xs i v h.1 p)

  All-erase_at : (xs : List A) (i : ℕ) → All P xs → All P (erase_at xs i)
  All-erase_at [] i h = tt
  All-erase_at (x ∷ xs) zero h = h.1
  All-erase_at (x ∷ xs) (suc i) h = (h.0, All-erase_at xs i h.1)

  All-get_elem? : (xs : List A) (i : ℕ) (v : A) → get_elem? xs i ≡ some v → All P xs → P v
  All-get_elem? [] i v e h = cc
  All-get_elem? (x ∷ xs) zero v e h = let same : v ≡ x = cc in rw same h.0
  All-get_elem? (x ∷ xs) (suc i) v e h = All-get_elem? xs i v e h.1

  All-around :
      (xs : List A) (v : A) (ys : List A) → All P (xs ++ v ∷ ys) → All P xs × P v × All P ys
  All-around [] v ys h = (tt, h.0, h.1)
  All-around (x ∷ xs) v ys h = let (a, b, c) = All-around xs v ys h.1 in ((h.0, a), b, c)

module _ {N : Type 0} (u : Unicode) (net : IpNetApi N) where
  abbrev pub HasValidMatch : RoutingRule N → Type 0
  HasValidMatch r = validate_rule_match u net r.match_condition ≡ ok tt

  abbrev pub IsValid : RoutingRuleSet N → Type 0
  IsValid = All HasValidMatch

  -- the set that an operation leaves; one that returns an error leaves it as it was
  abbrev pub left_by :
      Result ValidationError (RoutingRuleSet N) → RoutingRuleSet N → RoutingRuleSet N
  left_by (ok after) before = after
  left_by (err e) before = before

  abbrev left_by_edit :
      Result ValidationError (Bool × RoutingRuleSet N) → RoutingRuleSet N → RoutingRuleSet N
  left_by_edit (ok (found, after)) before = after
  left_by_edit (err e) before = before

  abbrev pub perform : Operation N → RoutingRuleSet N → RoutingRuleSet N
  perform (insert_last r) rules = left_by (add_validated u net r rules) rules
  perform (insert_at_index i r) rules = left_by (add_at u net i r rules) rules
  perform (edit id m action) rules = left_by_edit (edit_rule u net id m action rules) rules
  perform (delete id) rules = (remove id rules).1
  perform (reorder from to) rules = move_rule from to rules

  unfoldable pub perform_all : List (Operation N) → RoutingRuleSet N → RoutingRuleSet N
  perform_all [] rules = rules
  perform_all (op ∷ ops) rules = perform_all ops (perform op rules)

  add_validated-IsValid :
      (r : RoutingRule N) (rules : RoutingRuleSet N) (v : Result ValidationError (Unit {0}))
      → validate_rule_match u net r.match_condition ≡ v
      → IsValid rules
      → IsValid (left_by (add_validated u net r rules) rules)
  unfolding add_validated
  add_validated-IsValid r rules (ok tt) e h =
      rw e (All-append HasValidMatch rules (r ∷ []) h (e, tt))
  add_validated-IsValid r rules (err x) e h = rw e h

  add_at-IsValid :
      (i : ℕ) (r : RoutingRule N) (rules : RoutingRuleSet N) (v : Result ValidationError (Unit {0}))
      → validate_rule_match u net r.match_condition ≡ v
      → IsValid rules
      → IsValid (left_by (add_at u net i r rules) rules)
  unfolding add_at
  add_at-IsValid i r rules (ok tt) e h = elim (Bool-cases (ltb (length rules) i)) [
    | inl out ↦ rw (e, out) h
    | inr inside ↦ rw (e, inside) (All-insert_at HasValidMatch rules i r h e)
  ]
  add_at-IsValid i r rules (err x) e h = rw e h

  edited-IsValid :
      (m : Option (RuleMatch N)) (action : Option RuleAction) (r : RoutingRule N)
      → Accepted u net m
      → HasValidMatch r
      → HasValidMatch (edited m action r)
  edited-IsValid none none r a h = h
  edited-IsValid none (some x) r a h = h
  edited-IsValid (some m) none r a h = a
  edited-IsValid (some m) (some x) r a h = a

  edit_rule-IsValid :
      (id : UuidValue) (m : Option (RuleMatch N)) (action : Option RuleAction)
      (rules : RoutingRuleSet N)
      → IsValid rules
      → IsValid (left_by_edit (edit_rule u net id m action rules) rules)
  edit_rule-IsValid id m action rules h = elim (edit_rule_lem u net id m action rules) [
    | inl (gone, e) ↦ rw e h
    | inr (l, inr (x, f, e)) ↦ rw e h
    | inr (l, inl (a, e)) ↦
        let (hb, hr, ha) = All-around HasValidMatch l.before l.rule l.after (rw l.parts at h) in
        rw e (
          All-append HasValidMatch l.before (edited m action l.rule ∷ l.after) hb
            (edited-IsValid m action l.rule a hr, ha))
  ]

  remove-IsValid :
      (id : UuidValue) (rules : RoutingRuleSet N) → IsValid rules → IsValid (remove id rules).1
  remove-IsValid id rules h = elim (remove_lem id rules) [
    | inl (gone, e) ↦ rw e h
    | inr (l, e) ↦
        let (hb, hr, ha) = All-around HasValidMatch l.before l.rule l.after (rw l.parts at h) in
        rw e (All-append HasValidMatch l.before l.after hb ha)
  ]

  moved-IsValid :
      (from to : ℕ) (rules : RoutingRuleSet N)
      → IsValid rules
      → IsValid (moved rules from to (get_elem? rules from))
  moved-IsValid from to rules h = elim (Option-cases (get_elem? rules from)) [
    | inl e ↦ rw e h
    | inr (v, e) ↦ rw e (
        All-insert_at HasValidMatch (erase_at rules from) to v
          (All-erase_at HasValidMatch rules from h) (All-get_elem? HasValidMatch rules from v e h))
  ]

  move_rule-IsValid :
      (from to : ℕ) (rules : RoutingRuleSet N) → IsValid rules → IsValid (move_rule from to rules)
  unfolding move_rule
  move_rule-IsValid from to rules h =
      elim (Bool-cases (ltb from (length rules) && ltb to (length rules))) [
        | inl e ↦ rw e (moved-IsValid from to rules h)
        | inr e ↦ rw e h
      ]

  perform-IsValid :
      (op : Operation N) (rules : RoutingRuleSet N) → IsValid rules → IsValid (perform op rules)
  perform-IsValid (insert_last r) rules h = add_validated-IsValid r rules _ refl h
  perform-IsValid (insert_at_index i r) rules h = add_at-IsValid i r rules _ refl h
  perform-IsValid (edit id m action) rules h = edit_rule-IsValid id m action rules h
  perform-IsValid (delete id) rules h = remove-IsValid id rules h
  perform-IsValid (reorder from to) rules h = move_rule-IsValid from to rules h

  -- From a set of rules that all pass validation, any sequence of validated insertions, edits,
  -- deletions and moves, failing ones included, leaves a set of rules that all pass validation.
  pub perform_all-IsValid :
      (ops : List (Operation N)) (rules : RoutingRuleSet N)
      → IsValid rules
      → IsValid (perform_all ops rules)
  unfolding perform_all
  perform_all-IsValid [] rules h = h
  perform_all-IsValid (op ∷ ops) rules h =
      perform_all-IsValid ops (perform op rules) (perform-IsValid op rules h)
