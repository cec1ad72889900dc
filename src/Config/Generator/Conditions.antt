-- ===== src/Config/Generator/Conditions.antt =====
-- The routing rules of the generated configurations, for every backend.
use v2ray_rs.Models.Proxy.{ProxyNode}
use v2ray_rs.Models.Settings.{BackendType, v2ray, xray, sing_box, AppSettings}
use v2ray_rs.Models.Validation.{RuleMatch, geo_ip, geo_site, domain, ip_cidr, IpNetApi}
use v2ray_rs.Models.Routing.{RuleAction, proxy, direct, block, RoutingRule, enabled_rules}
use v2ray_rs.Config.Json.{Value, object, strings, str, get, as_array, elements-items, put, array}
use v2ray_rs.Config.V2ray
use v2ray_rs.Config.V2ray.{rule_target}
use v2ray_rs.Config.Xray
use v2ray_rs.Config.Xray.Patch
use v2ray_rs.Config.Xray.Patch.{xray_outbounds, fixed_outbounds}
use v2ray_rs.Config.Singbox
use v2ray_rs.Config.Singbox.{rule_outbound}
use v2ray_rs.Config.Generator.{generate_for}
use v2ray_rs.Config.Generator.Rules.{route_with_rules}
use v2ray_rs.Base.{
  String, ◌≡◌, refl, ap, ◌∙◌, inl, inr, some, List, [], ◌∷◌, ◌++◌, map, unwrap_or, ◌⧺◌, keep_if,
  Unicode, ok,
}

-- the rules of a configuration
unfoldable pub rules_of : BackendType → Value → List Value
rules_of sing_box c = unwrap_or (as_array (get "rules" (get "route" c))) []
rules_of _ c = unwrap_or (as_array (get "rules" (get "routing" c))) []

abbrev pub outbound_of : RuleAction → String
outbound_of proxy = "proxy-0"
outbound_of direct = "direct"
outbound_of block = "block"

module _ {N : Type 0} (u : Unicode) (net : IpNetApi N) where
  -- a rule in the format of a backend: v2ray and xray have the databases under a prefix of the
  -- pattern, sing-box has rule sets
  abbrev pub described : BackendType → RuleMatch N → String → Value
  described sing_box (geo_ip c) out =
      object
        (("rule_set", strings (("geoip-" ⧺ u.to_lowercase c) ∷ [])) ∷ ("outbound", str out) ∷ [])
  described sing_box (geo_site c) out =
      object
        (("rule_set", strings (("geosite-" ⧺ u.to_lowercase c) ∷ [])) ∷ ("outbound", str out) ∷ [])
  described sing_box (domain p) out =
      object (("domain_suffix", strings (p ∷ [])) ∷ ("outbound", str out) ∷ [])
  described sing_box (ip_cidr n) out =
      object (("ip_cidr", strings (net.display n ∷ [])) ∷ ("outbound", str out) ∷ [])
  described _ (geo_ip c) out = object (
      ("type", str "field")
      ∷ ("ip", strings (("geoip:" ⧺ u.to_lowercase c) ∷ []))
      ∷ ("outboundTag", str out)
      ∷ [])
  described _ (geo_site c) out = object (
      ("type", str "field")
      ∷ ("domain", strings (("geosite:" ⧺ u.to_lowercase c) ∷ []))
      ∷ ("outboundTag", str out)
      ∷ [])
  described _ (domain p) out =
      object (("type", str "field") ∷ ("domain", strings (p ∷ [])) ∷ ("outboundTag", str out) ∷ [])
  described _ (ip_cidr n) out =
      object (
        ("type", str "field")
        ∷ ("ip", strings (net.display n ∷ []))
        ∷ ("outboundTag", str out)
        ∷ [])

  abbrev pub expected : BackendType → RoutingRule N → Value
  expected b r = described b r.match_condition (outbound_of r.action)

  v2ray_target : (a : RuleAction) → rule_target a ≡ outbound_of a
  v2ray_target proxy = refl
  v2ray_target direct = refl
  v2ray_target block = refl

  singbox_target : (a : RuleAction) → rule_outbound a ≡ outbound_of a
  singbox_target proxy = refl
  singbox_target direct = refl
  singbox_target block = refl

  v2ray_match :
      (m : RuleMatch N) (out : String) → V2ray.match_rule u net m out ≡ described v2ray m out
  v2ray_match (geo_ip c) out = refl
  v2ray_match (geo_site c) out = refl
  v2ray_match (domain p) out = refl
  v2ray_match (ip_cidr n) out = refl

  singbox_match :
      (m : RuleMatch N) (out : String) → Singbox.match_rule u net m out ≡ described sing_box m out
  singbox_match (geo_ip c) out = refl
  singbox_match (geo_site c) out = refl
  singbox_match (domain p) out = refl
  singbox_match (ip_cidr n) out = refl

  xray_same : (m : RuleMatch N) (out : String) → described v2ray m out ≡ described xray m out
  xray_same (geo_ip c) out = refl
  xray_same (geo_site c) out = refl
  xray_same (domain p) out = refl
  xray_same (ip_cidr n) out = refl

  v2ray_built :
      (rs : List (RoutingRule N))
      → map (V2ray.build_routing_rule u net) rs ≡ map (expected v2ray) rs
  unfolding V2ray.build_routing_rule
  v2ray_built [] = refl
  v2ray_built (r ∷ rs) = λ i.
      (v2ray_match r.match_condition (rule_target r.action)
          ∙ ap (described v2ray r.match_condition) (v2ray_target r.action))
        i
      ∷ v2ray_built rs i

  singbox_built :
      (rs : List (RoutingRule N))
      → map (Singbox.build_route_rule u net) rs ≡ map (expected sing_box) rs
  unfolding Singbox.build_route_rule
  singbox_built [] = refl
  singbox_built (r ∷ rs) = λ i.
      (singbox_match r.match_condition (rule_outbound r.action)
          ∙ ap (described sing_box r.match_condition) (singbox_target r.action))
        i
      ∷ singbox_built rs i

  v2ray_as_xray : (rs : List (RoutingRule N)) → map (expected v2ray) rs ≡ map (expected xray) rs
  v2ray_as_xray [] = refl
  v2ray_as_xray (r ∷ rs) =
      λ i. xray_same r.match_condition (outbound_of r.action) i ∷ v2ray_as_xray rs i

  v2ray_listed :
      (rs : List (RoutingRule N))
      → unwrap_or (as_array (get "rules" (V2ray.routing_of u net rs))) [] ≡ map (expected v2ray) rs
  v2ray_listed [] = refl
  v2ray_listed (r ∷ rs) = rw elements-items (v2ray_built (r ∷ rs))

  singbox_listed :
      (rs : List (RoutingRule N))
      → unwrap_or (as_array (get "rules" (Singbox.route_of u net rs))) []
        ≡ map (expected sing_box) rs
  singbox_listed [] = refl
  singbox_listed (r ∷ rs) =
      route_with_rules u net (Singbox.rule_sets u net (r ∷ rs)) _ ∙ singbox_built (r ∷ rs)

  xray_listed :
      (nodes : List ProxyNode) (rules : List (RoutingRule N)) (settings : AppSettings) (c : Value)
      → Xray.generate u net nodes rules settings ≡ some (ok c)
      → rules_of xray c ≡ map (expected xray) (enabled_rules rules)
  unfolding rules_of V2ray.assemble V2ray.build_routing
  xray_listed nodes rules settings c e = elim (Patch.generate_lem u net nodes rules settings) [
    | inl (z, x) ↦ cc
    | inr (v, x) ↦
        let same : put "outbounds" (array (xray_outbounds 0 nodes ++ fixed_outbounds))
              (V2ray.assemble u net nodes rules settings)
            ≡ c =
          cc in
        rw (← same) (v2ray_listed (enabled_rules rules) ∙ v2ray_as_xray (enabled_rules rules))
  ]

  -- The rules of a generated configuration are the enabled rules, in their order and one for each:
  -- each is the object with the condition in the format of the backend, where countries and categories
  -- are in lower case, and the outbound of its action, which is "proxy-0", "direct" or "block".
  pub generate_for-rules :
      (b : BackendType) (nodes : List ProxyNode) (rules : List (RoutingRule N))
      (settings : AppSettings) (c : Value)
      → generate_for u net b nodes rules settings ≡ some (ok c)
      → rules_of b c ≡ map (expected b) (keep_if (λ (r : RoutingRule N). r.enabled) rules)
  unfolding generate_for V2ray.generate V2ray.assemble V2ray.build_routing Singbox.generate
      Singbox.assemble Singbox.build_route rules_of enabled_rules
  generate_for-rules v2ray [] rules settings c e = cc
  generate_for-rules v2ray (n ∷ ns) rules settings c e =
      let same : V2ray.assemble u net (n ∷ ns) rules settings ≡ c = cc in
      rw (← same) (v2ray_listed (enabled_rules rules))
  generate_for-rules sing_box [] rules settings c e = cc
  generate_for-rules sing_box (n ∷ ns) rules settings c e =
      let same : Singbox.assemble u net (n ∷ ns) rules settings ≡ c = cc in
      rw (← same) (singbox_listed (enabled_rules rules))
  generate_for-rules xray nodes rules settings c e = xray_listed nodes rules settings c e
