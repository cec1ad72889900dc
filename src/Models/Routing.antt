-- ===== src/Models/Routing.antt =====
-- crates/core/src/models/routing.rs: the routing rules and the ordered rule set. A method that
-- mutates the set returns the new list of rules; `Vec::remove` and `Vec::insert` are `erase_at` and
-- `insert_at`, whose indices the code has tested. `apply_preset` stands in Presets.
pub mod Order
pub mod Removal
pub mod Editing
pub mod Validity
use v2ray_rs.Models.Subscription.{UuidValue}
use v2ray_rs.Models.Validation.{
  RuleMatch, geo_ip, geo_site, domain, ip_cidr, IpNetApi, ValidationError, index_out_of_bounds,
  validate_rule_match,
}
use v2ray_rs.Base.{
  ℕ, ◌+◌, Bool, true, false, ◌&&◌, Option, none, some, List, [], ◌∷◌, ◌++◌, ltb, ◌==◌,
  if◌then◌else◌, length, get_elem?, insert_at, erase_at, keep_if, str_eq, Unicode, Result, ok, err,
  ◌>>=◌, ◌>>◌,
}

pub data RuleAction : Type 0 where
  proxy direct block : RuleAction

pub record RoutingRule (N : Type 0) : Type 0 where
  pub id : UuidValue
  pub match_condition : RuleMatch N
  pub action : RuleAction
  pub enabled : Bool

-- the one field of `RoutingRuleSet`
abbrev pub RoutingRuleSet : Type 0 → Type 0
RoutingRuleSet N = List (RoutingRule N)

-- `derive(PartialEq)` on `RuleMatch`
abbrev pub rule_match_eq : {N : Type 0} → IpNetApi N → RuleMatch N → RuleMatch N → Bool
rule_match_eq net (geo_ip a) (geo_ip b) = str_eq a b
rule_match_eq net (geo_site a) (geo_site b) = str_eq a b
rule_match_eq net (domain a) (domain b) = str_eq a b
rule_match_eq net (ip_cidr a) (ip_cidr b) = net.eq a b
rule_match_eq net _ _ = false

module _ {N : Type 0} where
  abbrev pub new : RoutingRuleSet N
  new = []

  unfoldable pub add : RoutingRule N → RoutingRuleSet N → RoutingRuleSet N
  add rule rules = rules ++ rule ∷ []

  -- `Iterator::position`, counting from `at`
  pub position_from : ℕ → UuidValue → RoutingRuleSet N → Option ℕ
  position_from at id [] = none
  position_from at id (r ∷ rs) = if r.id == id then some at else position_from (at + 1) id rs

  pub position : UuidValue → RoutingRuleSet N → Option ℕ
  unfolding position_from
  position id rules = position_from 0 id rules

  abbrev pub taken : RoutingRuleSet N → Option ℕ → Option (RoutingRule N) × RoutingRuleSet N
  taken rules none = (none, rules)
  taken rules (some pos) = (get_elem? rules pos, erase_at rules pos)

  unfoldable pub remove : UuidValue → RoutingRuleSet N → Option (RoutingRule N) × RoutingRuleSet N
  unfolding position
  remove id rules = taken rules (position id rules)

  abbrev pub moved : RoutingRuleSet N → ℕ → ℕ → Option (RoutingRule N) → RoutingRuleSet N
  moved rules from to none = rules
  moved rules from to (some rule) = insert_at (erase_at rules from) to rule

  unfoldable pub move_rule : ℕ → ℕ → RoutingRuleSet N → RoutingRuleSet N
  move_rule from to rules =
      if ltb from (length rules) && ltb to (length rules)
      then moved rules from to (get_elem? rules from)
      else rules

  unfoldable pub enabled_rules : RoutingRuleSet N → List (RoutingRule N)
  enabled_rules = keep_if (λ r. r.enabled)

  abbrev pub set_action : Option RuleAction → RoutingRule N → RoutingRule N
  set_action none rule = rule
  set_action (some new_action) rule = record rule { action = new_action }

module _ {N : Type 0} (u : Unicode) (net : IpNetApi N) where
  -- a method that validates first leaves the set as it was when validation fails
  unfoldable pub add_validated :
      RoutingRule N → RoutingRuleSet N → Result ValidationError (RoutingRuleSet N)
  add_validated rule rules = do
    validate_rule_match u net rule.match_condition
    ok (rules ++ rule ∷ [])

  unfoldable pub add_at :
      ℕ → RoutingRule N → RoutingRuleSet N → Result ValidationError (RoutingRuleSet N)
  add_at index rule rules = do
    validate_rule_match u net rule.match_condition
    if ltb (length rules) index
        then err (index_out_of_bounds index)
        else ok (insert_at rules index rule)

  -- the new match condition, validated, and the new action of one rule
  edit_one :
      Option (RuleMatch N)
      → Option RuleAction
      → RoutingRule N
      → Result ValidationError (RoutingRule N)
  edit_one none action rule = ok (set_action action rule)
  edit_one (some new_match) action rule = do
    validate_rule_match u net new_match
    ok (set_action action (record rule { match_condition = new_match }))

  -- `iter_mut().find`: the first rule with the identifier is edited in place
  edit_from :
      UuidValue
      → Option (RuleMatch N)
      → Option RuleAction
      → RoutingRuleSet N
      → Result ValidationError (Bool × RoutingRuleSet N)
  edit_from id match_condition action [] = ok (false, [])
  edit_from id match_condition action (r ∷ rs) =
      let later = edit_from id match_condition action rs in
      if r.id == id
      then (do r' ← edit_one match_condition action r; ok (true, r' ∷ rs))
      else (do res ← later; ok (res.0, r ∷ res.1))

  unfoldable pub edit_rule :
      UuidValue
      → Option (RuleMatch N)
      → Option RuleAction
      → RoutingRuleSet N
      → Result ValidationError (Bool × RoutingRuleSet N)
  unfolding edit_one edit_from
  edit_rule id match_condition action rules = edit_from id match_condition action rules
