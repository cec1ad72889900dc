-- ===== src/Config/Generator/Tags.antt =====
-- The outbounds of the generated configurations, for every backend.
use mathlib.Core.List.{map-append}
use v2ray_rs.Models.Proxy.{ProxyNode, vless, vmess, shadowsocks, trojan}
use v2ray_rs.Models.Settings.{BackendType, v2ray, xray, sing_box, AppSettings}
use v2ray_rs.Models.Validation.{IpNetApi}
use v2ray_rs.Models.Routing.{RoutingRule}
use v2ray_rs.Config.Json.{array, Value, str, get, as_array, elements-items, put}
use v2ray_rs.Config.Common.{no_nodes, outbound_tag}
use v2ray_rs.Config.Common.Tags.{node_tags, all_tags}
use v2ray_rs.Config.V2ray
use v2ray_rs.Config.V2ray.Outbounds as V2rayOutbounds
use v2ray_rs.Config.Xray.Patch
use v2ray_rs.Config.Xray.Patch.{is_xtls, xray_outbound, xray_outbounds, fixed_outbounds}
use v2ray_rs.Config.Singbox
use v2ray_rs.Config.Singbox.Outbounds as SingboxOutbounds
use v2ray_rs.Config.Generator.{generate_for}
use v2ray_rs.Base.{
  ℕ, suc, String, ◌≡◌, refl, ◌⊎◌, inl, inr, some, List, [], ◌∷◌, ◌++◌, map, Bool-cases, unwrap_or,
  Unicode, ok, err,
}

-- the tags of the outbounds that a configuration lists
unfoldable pub config_tags : Value → List Value
config_tags c = map (get "tag") (unwrap_or (as_array (get "outbounds" c)) [])

xray_outbound-tag : (n : ProxyNode) (tag : String) → get "tag" (xray_outbound n tag) ≡ str tag
unfolding V2ray.build_outbound
xray_outbound-tag (vless c) tag = elim (Bool-cases (is_xtls (vless c))) [
  | inl e ↦ rw e refl
  | inr e ↦ rw e refl
]
xray_outbound-tag (vmess c) tag = refl
xray_outbound-tag (shadowsocks c) tag = refl
xray_outbound-tag (trojan c) tag = refl

xray_outbounds-tags :
    (i : ℕ) (ns : List ProxyNode) → map (get "tag") (xray_outbounds i ns) ≡ map str (node_tags i ns)
unfolding xray_outbounds node_tags
xray_outbounds-tags i [] = refl
xray_outbounds-tags i (n ∷ ns) =
    rw (xray_outbound-tag n (outbound_tag n i), xray_outbounds-tags (suc i) ns) refl

module _ {N : Type 0} (u : Unicode) (net : IpNetApi N) where
  v2ray_tags :
      (nodes : List ProxyNode) (rules : List (RoutingRule N)) (settings : AppSettings)
      → config_tags (V2ray.assemble u net nodes rules settings) ≡ map str (all_tags nodes)
  unfolding config_tags V2ray.assemble
  v2ray_tags nodes rules settings = rw elements-items (V2rayOutbounds.build_outbounds-tags nodes)

  singbox_tags :
      (nodes : List ProxyNode) (rules : List (RoutingRule N)) (settings : AppSettings)
      → config_tags (Singbox.assemble u net nodes rules settings) ≡ map str (all_tags nodes)
  unfolding config_tags Singbox.assemble
  singbox_tags nodes rules settings =
      rw elements-items (SingboxOutbounds.build_outbounds-tags nodes)

  xray_tags :
      (nodes : List ProxyNode) (rules : List (RoutingRule N)) (settings : AppSettings)
      → config_tags (
          put "outbounds"
            (array (xray_outbounds 0 nodes ++ fixed_outbounds))
            (V2ray.assemble u net nodes rules settings))
        ≡ map str (all_tags nodes)
  unfolding config_tags V2ray.assemble
  xray_tags nodes rules settings = rw elements-items (simp (map-append, xray_outbounds-tags))

  pub generate_for-tags :
      (b : BackendType) (nodes : List ProxyNode) (rules : List (RoutingRule N))
      (settings : AppSettings)
      → ((nodes ≡ []) × (generate_for u net b nodes rules settings ≡ some (err no_nodes)))
        ⊎ ((c : Value) × (generate_for u net b nodes rules settings ≡ some (ok c))
            × (config_tags c ≡ map str (all_tags nodes)))
  unfolding generate_for V2ray.generate Singbox.generate
  generate_for-tags v2ray [] rules settings = inl (refl, refl)
  generate_for-tags v2ray (n ∷ ns) rules settings =
      inr (V2ray.assemble u net (n ∷ ns) rules settings, refl, v2ray_tags (n ∷ ns) rules settings)
  generate_for-tags sing_box [] rules settings = inl (refl, refl)
  generate_for-tags sing_box (n ∷ ns) rules settings =
      inr
        (Singbox.assemble u net (n ∷ ns) rules settings, refl, singbox_tags (n ∷ ns) rules settings)
  generate_for-tags xray nodes rules settings =
      elim (Patch.generate_lem u net nodes rules settings) [
        | inl (e, x) ↦ inl (e, x)
        | inr (v, x) ↦ inr (
          put "outbounds" (array (xray_outbounds 0 nodes ++ fixed_outbounds))
              (V2ray.assemble u net nodes rules settings),
          x,
          xray_tags nodes rules settings,
        )
      ]
