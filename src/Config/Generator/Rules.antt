-- ===== src/Config/Generator/Rules.antt =====
-- The outbounds that the routing rules of the generated configurations name, for every backend, and
-- whether they are there.
use mathlib.Core.List.{Memᴰ}
use mathlib.Core.List.Memᴰ as MemD
use v2ray_rs.Models.Proxy.{ProxyNode, remark}
use v2ray_rs.Models.Settings.{BackendType, v2ray, xray, sing_box, AppSettings}
use v2ray_rs.Models.Validation.{geo_ip, geo_site, domain, ip_cidr, IpNetApi}
use v2ray_rs.Models.Routing.{RuleAction, proxy, direct, block, RoutingRule, enabled_rules}
use v2ray_rs.Config.Json.{Value, str, get, as_array, elements-items, put, array}
use v2ray_rs.Config.Common.Tags.{node_tags, all_tags, Unnamed, proxy_tag_listed_iff}
use v2ray_rs.Config.V2ray
use v2ray_rs.Config.V2ray.{rule_target}
use v2ray_rs.Config.Xray
use v2ray_rs.Config.Xray.Patch
use v2ray_rs.Config.Xray.Patch.{xray_outbounds, fixed_outbounds}
use v2ray_rs.Config.Singbox
use v2ray_rs.Config.Singbox.{rule_outbound}
use v2ray_rs.Config.Generator.{generate_for}
use v2ray_rs.Config.Generator.Tags.{config_tags, generate_for-tags}
use v2ray_rs.Base.{
  ℕ, String, ◌≡◌, refl, ap, ◌∙◌, ◌≢◌, ◌↔◌, ◌⊎◌, inl, inr, some, List, [], ◌∷◌, ◌++◌, map, Memᴰ,
  unwrap_or, All, Unicode, ok,
}

-- the outbounds that the rules of a configuration name, in the order of the rules
unfoldable pub rule_targets : BackendType → Value → List Value
rule_targets sing_box c =
    map (get "outbound") (unwrap_or (as_array (get "rules" (get "route" c))) [])
rule_targets _ c = map (get "outboundTag") (unwrap_or (as_array (get "rules" (get "routing" c))) [])

-- the outbound that each action of a rule names
abbrev pub targets_of : {N : Type 0} → List (RoutingRule N) → List Value
targets_of = map (λ r. str (rule_target r.action))

module _ {N : Type 0} (u : Unicode) (net : IpNetApi N) where
  v2ray_rule :
      (r : RoutingRule N)
      → get "outboundTag" (V2ray.build_routing_rule u net r) ≡ str (rule_target r.action)
  unfolding V2ray.build_routing_rule
  v2ray_rule r =
      elim r.match_condition
        as (λ m.
          get "outboundTag" (V2ray.match_rule u net m (rule_target r.action))
          ≡ str (rule_target r.action)) [
            | geo_ip s ↦ refl
            | geo_site s ↦ refl
            | domain s ↦ refl
            | ip_cidr n ↦ refl
          ]

  v2ray_rules :
      (rs : List (RoutingRule N))
      → map (get "outboundTag") (map (V2ray.build_routing_rule u net) rs) ≡ targets_of rs
  v2ray_rules [] = refl
  v2ray_rules (r ∷ rs) = rw (v2ray_rule r, v2ray_rules rs) refl

  v2ray_routing :
      (rs : List (RoutingRule N))
      → map (get "outboundTag") (unwrap_or (as_array (get "rules" (V2ray.routing_of u net rs))) [])
        ≡ targets_of rs
  v2ray_routing [] = refl
  v2ray_routing (r ∷ rs) = rw elements-items (v2ray_rules (r ∷ rs))

  target_same : (a : RuleAction) → rule_outbound a ≡ rule_target a
  target_same proxy = refl
  target_same direct = refl
  target_same block = refl

  singbox_rule :
      (r : RoutingRule N)
      → get "outbound" (Singbox.build_route_rule u net r) ≡ str (rule_target r.action)
  unfolding Singbox.build_route_rule
  singbox_rule r =
      elim r.match_condition
        as (λ m.
          get "outbound" (Singbox.match_rule u net m (rule_outbound r.action))
          ≡ str (rule_target r.action)) [
            | geo_ip s ↦ ap str (target_same r.action)
            | geo_site s ↦ ap str (target_same r.action)
            | domain s ↦ ap str (target_same r.action)
            | ip_cidr n ↦ ap str (target_same r.action)
          ]

  singbox_rules :
      (rs : List (RoutingRule N))
      → map (get "outbound") (map (Singbox.build_route_rule u net) rs) ≡ targets_of rs
  singbox_rules [] = refl
  singbox_rules (r ∷ rs) = rw (singbox_rule r, singbox_rules rs) refl

  pub route_with_rules :
      (sets vs : List Value)
      → unwrap_or (as_array (get "rules" (Singbox.route_with u net sets vs))) [] ≡ vs
  route_with_rules [] vs = elements-items vs
  route_with_rules (s ∷ ss) vs = elements-items vs

  singbox_route :
      (rs : List (RoutingRule N))
      → map (get "outbound") (unwrap_or (as_array (get "rules" (Singbox.route_of u net rs))) [])
        ≡ targets_of rs
  singbox_route [] = refl
  singbox_route (r ∷ rs) =
      ap (map (get "outbound")) (route_with_rules (Singbox.rule_sets u net (r ∷ rs)) _)
      ∙ singbox_rules (r ∷ rs)

  xray_routing :
      (nodes : List ProxyNode) (rules : List (RoutingRule N)) (settings : AppSettings) (c : Value)
      → Xray.generate u net nodes rules settings ≡ some (ok c)
      → rule_targets xray c ≡ targets_of (enabled_rules rules)
  unfolding rule_targets V2ray.assemble V2ray.build_routing
  xray_routing nodes rules settings c e = elim (Patch.generate_lem u net nodes rules settings) [
    | inl (z, x) ↦ cc
    | inr (v, x) ↦
        let same : put "outbounds" (array (xray_outbounds 0 nodes ++ fixed_outbounds))
              (V2ray.assemble u net nodes rules settings)
            ≡ c =
          cc in
        rw (← same) (v2ray_routing (enabled_rules rules))
  ]

  -- the outbounds that the rules name
  generate_for-targets :
      (b : BackendType) (nodes : List ProxyNode) (rules : List (RoutingRule N))
      (settings : AppSettings) (c : Value)
      → generate_for u net b nodes rules settings ≡ some (ok c)
      → rule_targets b c ≡ targets_of (enabled_rules rules)
  unfolding generate_for V2ray.generate V2ray.assemble V2ray.build_routing Singbox.generate
      Singbox.assemble Singbox.build_route rule_targets
  generate_for-targets v2ray [] rules settings c e = cc
  generate_for-targets v2ray (n ∷ ns) rules settings c e =
      let same : V2ray.assemble u net (n ∷ ns) rules settings ≡ c = cc in
      rw (← same) (v2ray_routing (enabled_rules rules))
  generate_for-targets sing_box [] rules settings c e = cc
  generate_for-targets sing_box (n ∷ ns) rules settings c e =
      let same : Singbox.assemble u net (n ∷ ns) rules settings ≡ c = cc in
      rw (← same) (singbox_route (enabled_rules rules))
  generate_for-targets xray nodes rules settings c e = xray_routing nodes rules settings c e

-- every outbound that a rule names is there
abbrev pub Resolved : BackendType → Value → Type 0
Resolved b c = All (λ t. Memᴰ t (config_tags c)) (rule_targets b c)

str_mem : (s : String) (ts : List String) → Memᴰ (str s) (map str ts) → Memᴰ s ts
str_mem s ts m =
    let (t, here, same) = MemD.of_map str ts m in let e : s ≡ t = cc in MemD.cast e here

fixed_listed :
    (i : ℕ) (ns : List ProxyNode)
    → let tags = node_tags i ns ++ "direct" ∷ "block" ∷ [] in Memᴰ "direct" tags × Memᴰ "block" tags
fixed_listed i ns = (
  MemD.append_right (node_tags i ns) (Memᴰ.head refl),
  MemD.append_right (node_tags i ns) (Memᴰ.tail (Memᴰ.head refl)),
)

module _ (n : ProxyNode) (ns : List ProxyNode) where
  target_listed_iff :
      (a : RuleAction)
      → Memᴰ (str (rule_target a)) (map str (all_tags (n ∷ ns)))
        ↔ ((a ≢ proxy) ⊎ Unnamed (remark n))
  target_listed_iff proxy = (
    λ m. inr ((proxy_tag_listed_iff n ns).0 (str_mem "proxy-0" (all_tags (n ∷ ns)) m)),
    λ h.
        MemD.map str
          ((proxy_tag_listed_iff n ns).1 (elim h [ inl other ↦ absurd (other refl) | inr u ↦ u ])),
  )
  target_listed_iff direct = (λ m. inl (λ e. cc), λ h. MemD.map str (fixed_listed 0 (n ∷ ns)).0)
  target_listed_iff block = (λ m. inl (λ e. cc), λ h. MemD.map str (fixed_listed 0 (n ∷ ns)).1)

  All-listed_iff :
      {N : Type 0} (rs : List (RoutingRule N))
      → All (λ t. Memᴰ t (map str (all_tags (n ∷ ns)))) (targets_of rs)
        ↔ All (λ r. (r.action ≢ proxy) ⊎ Unnamed (remark n)) rs
  All-listed_iff [] = (λ h. tt, λ h. tt)
  All-listed_iff (r ∷ rs) = (
    λ h. ((target_listed_iff r.action).0 h.0, (All-listed_iff rs).0 h.1),
    λ h. ((target_listed_iff r.action).1 h.0, (All-listed_iff rs).1 h.1),
  )

module _ {N : Type 0} (u : Unicode) (net : IpNetApi N) where
  same_config :
      (b : BackendType) (n : ProxyNode) (ns : List ProxyNode) (rules : List (RoutingRule N))
      (settings : AppSettings) (c : Value)
      → generate_for u net b (n ∷ ns) rules settings ≡ some (ok c)
      → config_tags c ≡ map str (all_tags (n ∷ ns))
  same_config b n ns rules settings c e = elim (generate_for-tags u net b (n ∷ ns) rules settings) [
    | inl (z, x) ↦ cc
    | inr (d, x, tags) ↦ let same : d ≡ c = cc in rw same at tags
  ]

  -- In a generated configuration every rule names an outbound that is there exactly when no enabled
  -- rule has the action `Proxy`, or the first node has no remark or an empty one.
  pub generate_for-Resolved_iff :
      (b : BackendType) (n : ProxyNode) (ns : List ProxyNode) (rules : List (RoutingRule N))
      (settings : AppSettings) (c : Value)
      → generate_for u net b (n ∷ ns) rules settings ≡ some (ok c)
      → Resolved b c ↔ All (λ r. (r.action ≢ proxy) ⊎ Unnamed (remark n)) (enabled_rules rules)
  generate_for-Resolved_iff b n ns rules settings c e =
      rw
        (
          same_config b n ns rules settings c e,
          generate_for-targets u net b (n ∷ ns) rules settings c e,
        )
        (All-listed_iff n ns (enabled_rules rules))
