-- ===== src/Storage/RoutingManager.antt =====
-- crates/core/src/routing_manager.rs: the rule set in memory with its file. A method returns its
-- result and the manager that it leaves; what goes wrong in its call is an argument.
pub mod Synced
use v2ray_rs.Models.Subscription.{UuidValue}
use v2ray_rs.Models.Validation.{RuleMatch, IpNetApi, ValidationError}
use v2ray_rs.Models.Routing.{RuleAction, RoutingRule, RoutingRuleSet, enabled_rules}
use v2ray_rs.Models.Routing
use v2ray_rs.Models.Presets.{Preset}
use v2ray_rs.Models.Presets
use v2ray_rs.Models.Proxy.{ProxyNode}
use v2ray_rs.Models.Settings.{AppSettings}
use v2ray_rs.Config.Json.{Value}
use v2ray_rs.Config.Common.{ConfigError}
use v2ray_rs.Config.Generator.{new_writer}
use v2ray_rs.Config.Writer
use v2ray_rs.Storage.Persistence.{
  PersistenceError, Codec, Disk, Faults, save_routing_rules, load_routing_rules,
}
use v2ray_rs.Base.{
  ℕ, zero, suc, ◌+◌, ◌-◌, ◌*◌, ◌/◌, ◌%◌, ◌^◌, ◌≤◌, ◌<◌, Char, code, String, ◌≡◌, refl, sym, ap, ◌∙◌,
  ◌≢◌, ◌↔◌, ◌⊎◌, inl, inr, Bool, true, false, not, ◌&&◌, ◌||◌, Option, none, some, List, [], ◌∷◌,
  ◌++◌, map, Memᴰ, arith, eq_iff, eq_refl, ltb, leb, ◌==◌, if◌then◌else◌, ==_iff, Bool-cases,
  Option-cases, is_some, unwrap_or, length, get_elem?, insert_at, erase_at, drop, keep_if, any, all,
  find, All, length-append, length-map, All-append, ◌⧺◌, str_eq, chars, is_empty_str,
  is_ascii_uppercase, is_ascii_lowercase, is_ascii_digit, char_is, Unicode, trim, strip_prefix,
  split_once, rsplit_once, split, to_string, leading, leading-to_string, Result, ok, err, ◌>>=◌,
  ◌>>◌, is_ok, ok_or, to_option, map_err, contains_str, parse_unsigned, parse_unsigned-bound, lacks,
  strip_prefix-append, split_once-append, rsplit_once-append, lacks-append, all_digits-lacks,
  parse_unsigned-to_string, split_once-lacks, all_digits, to_string-digits, trim-digits, ℤ, pos,
  negsuc, as_i32, as_i64, leb_ℤ, as_i32-pos, as_i64-pos, join, Files, put, put_self, put_other,
  join-str_eq, leb_str, leb_str_total, leb_str_trans, insert_sorted, sort_by, IsSorted,
  sort_by-perm, sort_by-IsSorted, map_chars, join_words, all_chars, all_chars-map_chars,
  all_chars-append, IsWord, All-split, All-keep_if, split-join_words, all_chars-join_words,
  strip_cr, drop_last_empty, lines, utf8_len, byte_length, char_starts, take_while_le, last_or,
  slice_to, byte_length-append, slice_to-last_start,
}

pub data RoutingManagerError : Type 0 where
  validation : ValidationError → RoutingManagerError
  persistence : PersistenceError → RoutingManagerError
  config : ConfigError → RoutingManagerError

-- the manager, with the disk that its paths point to
pub record RoutingManager (N : Type 0) : Type 0 where
  pub rules : RoutingRuleSet N
  pub disk : Disk

module _ {N : Type 0} (codec : Codec (RoutingRuleSet N)) where
  unfoldable pub load : Faults → Disk → Result PersistenceError (RoutingManager N)
  load faults d = do
    rules ← load_routing_rules codec faults d
    ok (record { rules = rules; disk = d })

  abbrev pub persisted :
      {A : Type 0}
      → A
      → Result PersistenceError (Unit {0}) × Disk
      → RoutingManager N
      → Result RoutingManagerError A × RoutingManager N
  persisted a (ok _, d) m = (ok a, record m { disk = d })
  persisted a (err e, d) m = (err (persistence e), record m { disk = d })

  -- `self.persist()?` and then the result
  abbrev pub persist :
      {A : Type 0} → Faults → A → RoutingManager N → Result RoutingManagerError A × RoutingManager N
  persist faults a m = persisted a (save_routing_rules codec faults m.rules m.disk) m

  -- the result of a validated operation on the rules, then the write
  abbrev pub then_persist :
      Faults
      → Result ValidationError (RoutingRuleSet N)
      → RoutingManager N
      → Result RoutingManagerError (Unit {0}) × RoutingManager N
  then_persist faults (err e) m = (err (validation e), m)
  then_persist faults (ok rules) m = persist faults tt (record m { rules = rules })

  -- the write only if the rule was found
  abbrev pub if_found :
      Faults → Bool → RoutingManager N → Result RoutingManagerError Bool × RoutingManager N
  if_found faults found m = if found then persist faults found m else (ok found, m)

  abbrev pub then_if_found :
      Faults
      → Result ValidationError (Bool × RoutingRuleSet N)
      → RoutingManager N
      → Result RoutingManagerError Bool × RoutingManager N
  then_if_found faults (err e) m = (err (validation e), m)
  then_if_found faults (ok (found, rules)) m = if_found faults found (record m { rules = rules })

  unfoldable pub delete_rule :
      Faults → UuidValue → RoutingManager N → Result RoutingManagerError Bool × RoutingManager N
  delete_rule faults id m =
      let (removed, rules) = Routing.remove id m.rules in
      if_found faults (is_some removed) (record m { rules = rules })

  unfoldable pub reorder_rule :
      Faults → ℕ → ℕ → RoutingManager N → Result RoutingManagerError (Unit {0}) × RoutingManager N
  reorder_rule faults from to m =
      persist faults tt (record m { rules = Routing.move_rule from to m.rules })

module _ {N : Type 0} (codec : Codec (RoutingRuleSet N)) (u : Unicode) (net : IpNetApi N) where
  unfoldable pub add_rule :
      Faults
      → RoutingRule N
      → RoutingManager N
      → Result RoutingManagerError (Unit {0}) × RoutingManager N
  add_rule faults rule m = then_persist codec faults (Routing.add_validated u net rule m.rules) m

  unfoldable pub add_rule_at :
      Faults
      → ℕ
      → RoutingRule N
      → RoutingManager N
      → Result RoutingManagerError (Unit {0}) × RoutingManager N
  add_rule_at faults index rule m =
      then_persist codec faults (Routing.add_at u net index rule m.rules) m

  unfoldable pub edit_rule :
      Faults
      → UuidValue
      → Option (RuleMatch N)
      → Option RuleAction
      → RoutingManager N
      → Result RoutingManagerError Bool × RoutingManager N
  edit_rule faults id match_condition action m =
      then_if_found codec faults (Routing.edit_rule u net id match_condition action m.rules) m

  -- `fresh` draws the identifiers of the new rules
  unfoldable pub apply_preset :
      Faults
      → (ℕ → UuidValue)
      → Preset N
      → RoutingManager N
      → Result RoutingManagerError (Unit {0}) × RoutingManager N
  apply_preset faults fresh preset m =
      persist codec faults tt (record m { rules = Presets.apply_preset net fresh preset m.rules })

abbrev pub configured :
    Option (Result ConfigError String × Files) → Option (Result RoutingManagerError String × Files)
configured none = none
configured (some (ok path, files)) = some (ok path, files)
configured (some (err e, files)) = some (err (config e), files)

-- the enabled rules are passed to the writer; a result `none` is a panic
unfoldable pub write_config :
    {N : Type 0}
    → Unicode
    → IpNetApi N
    → (Value → Result String String)
    → Writer.Faults
    → String
    → List ProxyNode
    → AppSettings
    → RoutingManager N
    → Files
    → Option (Result RoutingManagerError String × Files)
write_config u net to_json faults data_dir nodes settings m files = configured (
    Writer.write_config u net to_json faults (new_writer settings data_dir) nodes
      (enabled_rules m.rules) settings files)
