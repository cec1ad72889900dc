-- ===== src/Tests/Config.antt =====
-- Runs of the configuration generators.
use v2ray_rs.Models.Proxy.{remark}
use v2ray_rs.Models.Settings.{v2ray, default_settings}
use v2ray_rs.Models.Routing.{RoutingRule, proxy, enabled_rules}
use v2ray_rs.Config.Json.{Value}
use v2ray_rs.Config.Common.Tags.{Unnamed}
use v2ray_rs.Config.V2ray
use v2ray_rs.Config.Xray
use v2ray_rs.Config.Xray.Patch
use v2ray_rs.Config.Singbox
use v2ray_rs.Config.Singbox.RuleSets.{Inside, declared_sets, route_rules, build_route-declared}
use v2ray_rs.Config.Generator.{generate_for}
use v2ray_rs.Config.Generator.Conditions.{rules_of, expected, generate_for-rules}
use v2ray_rs.Config.Generator.Rules.{Resolved, generate_for-Resolved_iff}
use v2ray_rs.Tests.Samples.{ascii, networks, named_node, two_rules}
use v2ray_rs.Base.{String, keep_if, ◌≡◌, refl, ◌≢◌, ◌↔◌, ◌⊎◌, some, [], ◌∷◌, map, All, ok}

build_route-declared_example :
    Inside
      (declared_sets (Singbox.build_route ascii networks two_rules))
      (route_rules (Singbox.build_route ascii networks two_rules))
build_route-declared_example = build_route-declared ascii networks two_rules

-- what the generator for v2ray returns for a node and the two rules
abbrev v2ray_config : Value
unfolding V2ray.assemble
v2ray_config = V2ray.assemble ascii networks (named_node ∷ []) two_rules default_settings

v2ray_generated :
    generate_for ascii networks v2ray (named_node ∷ []) two_rules default_settings
    ≡ some (ok v2ray_config)
unfolding generate_for V2ray.generate v2ray_config
v2ray_generated = refl

generate_for-rules_example :
    rules_of v2ray v2ray_config
    ≡ map
        (expected ascii networks v2ray)
        (keep_if (λ (r : RoutingRule String). r.enabled) two_rules)
generate_for-rules_example =
    generate_for-rules ascii networks v2ray (named_node ∷ []) two_rules default_settings
      v2ray_config v2ray_generated

generate_for-Resolved_iff_example :
    Resolved v2ray v2ray_config
    ↔ All (λ r. (r.action ≢ proxy) ⊎ Unnamed (remark named_node)) (enabled_rules two_rules)
generate_for-Resolved_iff_example =
    generate_for-Resolved_iff ascii networks v2ray named_node [] two_rules default_settings
      v2ray_config v2ray_generated
