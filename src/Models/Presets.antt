-- ===== src/Models/Presets.antt =====
-- crates/core/src/models/presets.rs: presets of rules, and `apply_preset` of routing.rs. The
-- identifiers that `Uuid::new_v4` draws are the list `fresh`, one for each rule of the preset.
pub mod Applying
pub mod Builtin
use v2ray_rs.Models.Subscription.{UuidValue}
use v2ray_rs.Models.Validation.{geo_ip, RuleMatch, geo_site, ip_cidr, IpNetApi}
use v2ray_rs.Models.Routing.{
  block, RuleAction, proxy, direct, RoutingRule, RoutingRuleSet, rule_match_eq,
}
use v2ray_rs.Base.{
  ℕ, suc, String, Bool, true, Option, none, some, List, [], ◌∷◌, ◌++◌, map, if◌then◌else◌, any,
}

pub record PresetRule (N : Type 0) : Type 0 where
  pub match_condition : RuleMatch N
  pub action : RuleAction

pub record Preset (N : Type 0) : Type 0 where
  pub name : String
  pub description : String
  pub rules : List (PresetRule N)

module _ {N : Type 0} where
  abbrev pub preset_rule : RoutingRule N → PresetRule N
  preset_rule r = record { match_condition = r.match_condition; action = r.action }

  unfoldable pub from_rules : String → String → List (RoutingRule N) → Preset N
  from_rules name description rules = record {
    name = name;
    description = description;
    rules = map preset_rule rules;
  }

  abbrev pub routing_rule : UuidValue → PresetRule N → RoutingRule N
  routing_rule fresh pr = record {
    id = fresh;
    match_condition = pr.match_condition;
    action = pr.action;
    enabled = true;
  }

  -- `fresh n` is the n-th identifier that is drawn
  abbrev pub rules_from : (ℕ → UuidValue) → ℕ → List (PresetRule N) → List (RoutingRule N)
  rules_from fresh n [] = []
  rules_from fresh n (pr ∷ prs) = routing_rule (fresh n) pr ∷ rules_from fresh (suc n) prs

  unfoldable pub rules : (ℕ → UuidValue) → Preset N → List (RoutingRule N)
  rules fresh p = rules_from fresh 0 p.rules

module _ {N : Type 0} (net : IpNetApi N) where
  abbrev pub already_exists : RuleMatch N → RoutingRuleSet N → Bool
  already_exists m = any (λ r. rule_match_eq net r.match_condition m)

  -- the loop of `apply_preset`
  pub apply_from : List (RoutingRule N) → RoutingRuleSet N → RoutingRuleSet N
  apply_from [] set = set
  apply_from (rule ∷ more) set =
      apply_from more (if already_exists rule.match_condition set then set else set ++ rule ∷ [])

  unfoldable pub apply_preset : (ℕ → UuidValue) → Preset N → RoutingRuleSet N → RoutingRuleSet N
  unfolding apply_from rules
  apply_preset fresh preset set = apply_from (rules fresh preset) set

abbrev site_rules : {N : Type 0} → List String → List (PresetRule N)
site_rules [] = []
site_rules (c ∷ cs) = record { match_condition = geo_site c; action = proxy } ∷ site_rules cs

-- `parse` is `"…".parse::<IpNet>().unwrap()`; a panic there is none of the result
module _ {N : Type 0} (net : IpNetApi N) where
  abbrev lan_rules : List String → Option (List (PresetRule N))
  lan_rules [] = some []
  lan_rules (c ∷ cs) = elim (net.parse c) [
    | none ↦ none
    | some n ↦ elim (lan_rules cs) [
      | none ↦ none
      | some rest ↦ some (record { match_condition = ip_cidr n; action = direct } ∷ rest)
    ]
  ]

module _ {N : Type 0} where
  abbrev pub popular_ai : Preset N
  popular_ai = record {
    name = "Popular AI";
    description = "Route AI services through proxy";
    rules = site_rules ("openai" ∷ "anthropic" ∷ "google" ∷ []);
  }

  -- the presets of `builtin_presets` that parse no network
  abbrev pub named_presets : List (Preset N)
  named_presets =
      record {
        name = "RU Direct";
        description = "Route Russian traffic directly";
        rules = record { match_condition = geo_ip "RU"; action = direct } ∷ [];
      }
      ∷ record {
        name = "CN Direct";
        description = "Route Chinese traffic directly";
        rules =
            record { match_condition = geo_ip "CN"; action = direct }
            ∷ record { match_condition = geo_site "cn"; action = direct }
            ∷ record { match_condition = geo_site "geolocation-cn"; action = direct }
            ∷ [];
      }
      ∷ record {
        name = "Block Ads";
        description = "Block advertising domains";
        rules = record { match_condition = geo_site "category-ads-all"; action = block } ∷ [];
      }
      ∷ popular_ai
      ∷ record {
        name = "Social Networks";
        description = "Route social media through proxy";
        rules = site_rules (
            "discord" ∷ "telegram" ∷ "whatsapp" ∷ "tiktok" ∷ "instagram" ∷ "twitter" ∷ "facebook"
            ∷ "youtube" ∷ "reddit" ∷ "github" ∷ []);
      }
      ∷ []

module _ {N : Type 0} (net : IpNetApi N) where
  abbrev pub builtin_presets : Option (List (Preset N))
  builtin_presets = elim (lan_rules net ("10.0.0.0/8" ∷ "172.16.0.0/12" ∷ "192.168.0.0/16" ∷ [])) [
    | none ↦ none
    | some lan ↦ some (
        named_presets
        ++ record {
          name = "Bypass LAN";
          description = "Route local network traffic directly";
          rules = lan;
        }
          ∷ [])
  ]
