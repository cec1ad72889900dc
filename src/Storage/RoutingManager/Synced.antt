-- ===== src/Storage/RoutingManager/Synced.antt =====
-- The rules in memory and the rules on the disk under the methods of routing_manager.rs.
use v2ray_rs.Models.Subscription.{UuidValue}
use v2ray_rs.Models.Presets.{Preset}
use v2ray_rs.Models.Presets
use v2ray_rs.Models.Validation.{IpNetApi, ValidationError}
use v2ray_rs.Models.Routing.{RoutingRuleSet}
use v2ray_rs.Models.Routing.Validity.{
  Operation, insert_last, insert_at_index, edit, delete, reorder,
}
use v2ray_rs.Models.Routing.Validity
use v2ray_rs.Storage.Persistence.{PersistenceError, Codec, Faults}
use v2ray_rs.Storage.Persistence.Subscriptions.{FileHolds}
use v2ray_rs.Storage.RoutingManager.{
  apply_preset, RoutingManagerError, validation, persistence, RoutingManager, delete_rule,
  reorder_rule, add_rule, add_rule_at, edit_rule,
}
use v2ray_rs.Base.{ℕ, ◌≡◌, ◌⊎◌, Bool, true, [], Unicode, Result, ok, err}

abbrev pub as_found :
    {N : Type 0}
    → Result RoutingManagerError (Unit {0}) × RoutingManager N
    → Result RoutingManagerError Bool × RoutingManager N
as_found (ok _, m) = (ok true, m)
as_found (err e, m) = (err e, m)

pub data Method (N : Type 0) : Type 0 where
  operation : Operation N → Method N
  preset : (ℕ → UuidValue) → Preset N → Method N

module _ {N : Type 0} (codec : Codec (RoutingRuleSet N)) (u : Unicode) (net : IpNetApi N) where
  -- the file holds the rules of the memory
  abbrev pub IsSynced : RoutingManager N → Type 0
  IsSynced m = FileHolds codec [] m.disk.routing_rules m.rules

  -- the method of each operation
  abbrev pub operate :
      Operation N → Faults → RoutingManager N → Result RoutingManagerError Bool × RoutingManager N
  operate (insert_last rule) faults m = as_found (add_rule codec u net faults rule m)
  operate (insert_at_index i rule) faults m = as_found (add_rule_at codec u net faults i rule m)
  operate (edit id match_condition action) faults m =
      edit_rule codec u net faults id match_condition action m
  operate (delete id) faults m = delete_rule codec faults id m
  operate (reorder from to) faults m = as_found (reorder_rule codec faults from to m)

  -- the methods that change the rules
  abbrev pub perform :
      Method N → Faults → RoutingManager N → Result RoutingManagerError Bool × RoutingManager N
  perform (operation op) faults m = operate op faults m
  perform (preset fresh p) faults m = as_found (apply_preset codec u net faults fresh p m)

  -- the rules that they lead to
  abbrev pub left_by : Method N → RoutingRuleSet N → RoutingRuleSet N
  left_by (operation op) rules = Validity.perform u net op rules
  left_by (preset fresh p) rules = Presets.apply_preset net fresh p rules

  -- success, a refused rule, or a failed write
  abbrev pub Outcome :
      RoutingRuleSet N
      → RoutingManager N
      → Result RoutingManagerError Bool × RoutingManager N
      → Type 0
  Outcome rules m (r, after) =
      ((b : Bool) × (r ≡ ok b) × (after.rules ≡ rules) × IsSynced after)
      ⊎ (((e : ValidationError) × (r ≡ err (validation e)) × (after ≡ m))
          ⊎ ((e : PersistenceError) × (r ≡ err (persistence e))
              × (after.rules ≡ rules)
              × (after.disk ≡ m.disk)))
