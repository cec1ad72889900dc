-- ===== src/Models/Presets/Builtin.antt =====
-- The built-in presets of presets.rs against the validation of validation.rs.
use v2ray_rs.Models.Subscription.{UuidValue}
use v2ray_rs.Models.Validation.{
  RuleMatch, geo_ip, geo_site, domain, ip_cidr, IpNetApi, invalid_geo_site_category,
  validate_rule_match,
}
use v2ray_rs.Models.Routing.{RoutingRuleSet, rule_match_eq}
use v2ray_rs.Models.Routing.Validity.{IsValid}
use v2ray_rs.Models.Presets.{already_exists, apply_preset, popular_ai}
use v2ray_rs.Models.Presets.Applying.{apply_preset-Covers}
use v2ray_rs.Base.{
  ℕ, String, ◌≡◌, refl, ap, inl, inr, true, [], ◌∷◌, eq_iff, Bool-cases, Unicode, ok, err,
}

module _ {N : Type 0} (u : Unicode) (net : IpNetApi N) where
  openai_refused :
      validate_rule_match u net (geo_site "openai") ≡ err (invalid_geo_site_category "openai")
  unfolding validate_rule_match
  openai_refused = refl

  site_eq :
      (m : RuleMatch N) (s : String) → rule_match_eq net m (geo_site s) ≡ true → m ≡ geo_site s
  site_eq (geo_site t) s h = ap geo_site ((eq_iff t s).0 h)
  site_eq (geo_ip t) s h = cc
  site_eq (domain t) s h = cc
  site_eq (ip_cidr n) s h = cc

  not-IsValid_of_openai :
      (set : RoutingRuleSet N)
      → already_exists net (geo_site "openai") set ≡ true
      → ¬ IsValid u net set
  not-IsValid_of_openai [] e h = cc
  not-IsValid_of_openai (r ∷ rs) e h =
      elim (Bool-cases (rule_match_eq net r.match_condition (geo_site "openai"))) [
        | inl same ↦
            let m : r.match_condition ≡ geo_site "openai" =
              site_eq r.match_condition "openai" same in
            let v : validate_rule_match u net (geo_site "openai") ≡ ok tt = rw m at h.0 in
            cc (v, openai_refused)
        | inr other ↦ not-IsValid_of_openai rs (rw other at e) h.1
      ]

module _ {N : Type 0} (u : Unicode) (net : IpNetApi N) (eq_self : (n : N) → net.eq n n ≡ true) where
  -- Where the equality of networks is reflexive, whatever the rule set, after the built-in preset
  -- "Popular AI" is applied it holds a rule that validation refuses, since the preset names
  -- categories that the validation does not list.
  pub popular_ai-not-IsValid :
      (fresh : ℕ → UuidValue) (set : RoutingRuleSet N)
      → ¬ IsValid u net (apply_preset net fresh popular_ai set)
  popular_ai-not-IsValid fresh set =
      not-IsValid_of_openai u net _ (apply_preset-Covers net eq_self fresh popular_ai set).0
