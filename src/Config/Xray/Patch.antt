-- ===== src/Config/Xray/Patch.antt =====
-- What the patch of config/xray.rs does to a configuration that config/v2ray.rs built: it never
-- panics, and it changes the stream security of XTLS nodes alone.
use v2ray_rs.Models.Proxy.{
  TransportSettings, tcp, ws, grpc, h2, TlsSettings, VlessConfig, ProxyNode, vless, vmess,
  shadowsocks, trojan,
}
use v2ray_rs.Models.Settings.{AppSettings}
use v2ray_rs.Models.Validation.{IpNetApi}
use v2ray_rs.Models.Routing.{RoutingRule}
use v2ray_rs.Config.Json.{array, object, Value, str, get, put, elements-items}
use v2ray_rs.Config.Common.{no_nodes, outbound_tag}
use v2ray_rs.Config.V2ray
use v2ray_rs.Config.V2ray.{stream_settings, build_outbound, node_outbounds, build_outbounds}
use v2ray_rs.Config.Xray.{
  is_xtls_flow, apply_xray_vless_extensions, patch_one, patch_from, patch_xray_outbounds, generate,
}
use v2ray_rs.Base.{
  ℕ, suc, String, ◌≡◌, refl, ◌⊎◌, inl, inr, Bool, false, Option, none, some, List, [], ◌∷◌, ◌++◌,
  if◌then◌else◌, Bool-cases, Unicode, ok, err,
}

-- a VLESS node with an XTLS flow over plain TCP with TLS
abbrev uses_xtls : Option String → TransportSettings → Option TlsSettings → Bool
uses_xtls (some flow) tcp (some t) = is_xtls_flow flow
uses_xtls _ _ _ = false

abbrev pub is_xtls : ProxyNode → Bool
is_xtls (vless c) = uses_xtls c.flow c.transport c.tls
is_xtls _ = false

abbrev with_xtls : Value → Value
with_xtls outbound =
    put "streamSettings" (put "security" (str "xtls") (get "streamSettings" outbound)) outbound

-- the outbound that the configuration for xray has for a node
abbrev pub xray_outbound : ProxyNode → String → Value
xray_outbound n tag = if is_xtls n then with_xtls (build_outbound n tag) else build_outbound n tag

extend_lem :
    (address : String) (port : ℕ) (uuid : String) (encryption flow : Option String)
    (transport : TransportSettings) (tls : Option TlsSettings) (remark : Option String)
    (tag : String)
    → let c : VlessConfig = record {
      address = address;
      port = port;
      uuid = uuid;
      encryption = encryption;
      flow = flow;
      transport = transport;
      tls = tls;
      remark = remark;
    } in
      patch_one (vless c) (build_outbound (vless c) tag) ≡ some (xray_outbound (vless c) tag)
unfolding patch_one apply_xray_vless_extensions build_outbound stream_settings
extend_lem a p u e none tr tls r tag = refl
extend_lem a p u e (some flow) tcp none r tag = elim (Bool-cases (is_xtls_flow flow)) [
  | inl x ↦ rw x refl
  | inr x ↦ rw x refl
]
extend_lem a p u e (some flow) tcp (some t) r tag = elim (Bool-cases (is_xtls_flow flow)) [
  | inl x ↦ rw x refl
  | inr x ↦ rw x refl
]
extend_lem a p u e (some flow) (ws w) tls r tag = elim (Bool-cases (is_xtls_flow flow)) [
  | inl x ↦ rw x refl
  | inr x ↦ rw x refl
]
extend_lem a p u e (some flow) (grpc w) tls r tag = elim (Bool-cases (is_xtls_flow flow)) [
  | inl x ↦ rw x refl
  | inr x ↦ rw x refl
]
extend_lem a p u e (some flow) (h2 w) tls r tag = elim (Bool-cases (is_xtls_flow flow)) [
  | inl x ↦ rw x refl
  | inr x ↦ rw x refl
]

patch_one_lem :
    (n : ProxyNode) (tag : String) → patch_one n (build_outbound n tag) ≡ some (xray_outbound n tag)
unfolding patch_one
patch_one_lem (vless c) tag =
    extend_lem c.address c.port c.uuid c.encryption c.flow c.transport c.tls c.remark tag
patch_one_lem (vmess c) tag = refl
patch_one_lem (shadowsocks c) tag = refl
patch_one_lem (trojan c) tag = refl

unfoldable pub xray_outbounds : ℕ → List ProxyNode → List Value
xray_outbounds i [] = []
xray_outbounds i (n ∷ ns) = xray_outbound n (outbound_tag n i) ∷ xray_outbounds (suc i) ns

patch_from_lem :
    (i : ℕ) (ns : List ProxyNode) (rest : List Value)
    → patch_from ns (node_outbounds i ns ++ rest) ≡ some (xray_outbounds i ns ++ rest)
unfolding patch_from node_outbounds xray_outbounds
patch_from_lem i [] rest = refl
patch_from_lem i (n ∷ ns) rest =
    rw (patch_one_lem n (outbound_tag n i), patch_from_lem (suc i) ns rest) refl

-- the two outbounds that every configuration ends with
abbrev pub fixed_outbounds : List Value
fixed_outbounds =
    object (("tag", str "direct") ∷ ("protocol", str "freedom") ∷ ("settings", object []) ∷ [])
    ∷ object (("tag", str "block") ∷ ("protocol", str "blackhole") ∷ ("settings", object []) ∷ [])
    ∷ []

module _ {N : Type 0} (u : Unicode) (net : IpNetApi N) where
  patch_assembled :
      (nodes : List ProxyNode) (rules : List (RoutingRule N)) (settings : AppSettings)
      → let c = V2ray.assemble u net nodes rules settings in
        patch_xray_outbounds c nodes
        ≡ some (put "outbounds" (array (xray_outbounds 0 nodes ++ fixed_outbounds)) c)
  unfolding patch_xray_outbounds V2ray.assemble build_outbounds
  patch_assembled nodes rules settings =
      rw (elements-items, patch_from_lem 0 nodes fixed_outbounds) refl

  pub generate_lem :
      (nodes : List ProxyNode) (rules : List (RoutingRule N)) (settings : AppSettings)
      → ((nodes ≡ []) × (generate u net nodes rules settings ≡ some (err no_nodes)))
        ⊎ ((V2ray.generate u net nodes rules settings
              ≡ ok (V2ray.assemble u net nodes rules settings))
            × (generate u net nodes rules settings
                ≡ some (
                    ok (
                      put "outbounds"
                        (array (xray_outbounds 0 nodes ++ fixed_outbounds))
                        (V2ray.assemble u net nodes rules settings)))))
  unfolding generate V2ray.generate
  generate_lem [] rules settings = inl (refl, refl)
  generate_lem (n ∷ ns) rules settings =
      inr (refl, rw (patch_assembled (n ∷ ns) rules settings) refl)
