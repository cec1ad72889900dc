-- ===== src/Config/V2ray.antt =====
-- crates/core/src/config/v2ray.rs: the configuration for v2ray, as a JSON value.
pub mod Outbounds
use v2ray_rs.Models.Proxy.{
  WsSettings, GrpcSettings, H2Settings, TransportSettings, tcp, ws, grpc, h2, TlsSettings,
  VlessConfig, VmessConfig, ShadowsocksConfig, TrojanConfig, ProxyNode, vless, vmess, shadowsocks,
  trojan,
}
use v2ray_rs.Models.Settings.{AppSettings}
use v2ray_rs.Models.Validation.{RuleMatch, geo_ip, geo_site, domain, ip_cidr, IpNetApi}
use v2ray_rs.Models.Routing.{RuleAction, proxy, direct, block, RoutingRule, enabled_rules}
use v2ray_rs.Config.Json.{Value, bool, num, str, array, object, strings, string_map, put}
use v2ray_rs.Config.Common.{ConfigError, no_nodes, outbound_tag}
use v2ray_rs.Base.{
  ℕ, suc, String, Bool, true, false, not, Option, none, some, List, [], ◌∷◌, ◌++◌, map,
  if◌then◌else◌, unwrap_or, ◌⧺◌, Unicode, Result, ok, err,
}

unfoldable pub build_inbounds : AppSettings → List Value
build_inbounds settings =
    object (
      ("tag", str "socks-in")
      ∷ ("protocol", str "socks")
      ∷ ("listen", str "127.0.0.1")
      ∷ ("port", num settings.socks_port)
      ∷ ("settings", object (("udp", bool true) ∷ []))
      ∷ [])
    ∷ object (
        ("tag", str "http-in")
        ∷ ("protocol", str "http")
        ∷ ("listen", str "127.0.0.1")
        ∷ ("port", num settings.http_port)
        ∷ [])
    ∷ []

-- `if let Some(x) = … { value[key] = json!(x) }`
abbrev pub put_some : String → Option String → Value → Value
put_some key none v = v
put_some key (some s) v = put key (str s) v

abbrev pub host_header : Option String → Value → Value
host_header none settings = settings
host_header (some host) settings = put "headers" (object (("Host", str host) ∷ [])) settings

abbrev pub has_elements {ℓ} : {A : Type ℓ} → List A → Bool
has_elements [] = false
has_elements (x ∷ xs) = true

pub build_ws_settings : WsSettings → Value
build_ws_settings w =
    let settings = object (("path", str w.path) ∷ []) in
    if has_elements w.headers
    then put "headers" (string_map w.headers) settings
    else host_header w.host settings

pub build_grpc_settings : GrpcSettings → Value
build_grpc_settings g =
    object (("serviceName", str g.service_name) ∷ ("multiMode", bool g.multi_mode) ∷ [])

pub build_h2_settings : H2Settings → Value
build_h2_settings h = object (("host", strings h.host) ∷ ("path", str h.path) ∷ [])

-- the `match` of `apply_stream_settings`, from the empty object
transport_stream : TransportSettings → Value
transport_stream tcp = put "network" (str "tcp") (object [])
transport_stream (ws w) =
    put "wsSettings" (build_ws_settings w) (put "network" (str "ws") (object []))
transport_stream (grpc g) =
    put "grpcSettings" (build_grpc_settings g) (put "network" (str "grpc") (object []))
transport_stream (h2 h) =
    put "httpSettings" (build_h2_settings h) (put "network" (str "h2") (object []))

tls_object : TlsSettings → Value
tls_object t =
    let with_name = put_some "serverName" t.server_name (object []) in
    let with_alpn =
      if has_elements t.alpn then put "alpn" (strings t.alpn) with_name else with_name in
    put_some "fingerprint" t.fingerprint (put "allowInsecure" (bool (not t.verify)) with_alpn)

tls_stream : Option TlsSettings → Value → Value
tls_stream none stream = stream
tls_stream (some t) stream = put "tlsSettings" (tls_object t) (put "security" (str "tls") stream)

-- the value that `apply_stream_settings` writes under "streamSettings"
unfoldable pub stream_settings : TransportSettings → Option TlsSettings → Value
unfolding transport_stream tls_object tls_stream build_ws_settings build_grpc_settings
    build_h2_settings
stream_settings transport tls = tls_stream tls (transport_stream transport)

pub apply_stream_settings : Value → TransportSettings → Option TlsSettings → Value
apply_stream_settings outbound transport tls =
    put "streamSettings" (stream_settings transport tls) outbound

pub vless_user : VlessConfig → Value
vless_user c =
    put_some "flow" c.flow
      (object (("id", str c.uuid) ∷ ("encryption", str (unwrap_or c.encryption "none")) ∷ []))

abbrev pub vnext : String → ℕ → Value → Value
vnext address port user = object (
    (
      "vnext",
      array (
          object (("address", str address) ∷ ("port", num port) ∷ ("users", array (user ∷ [])) ∷ [])
          ∷ []),
    )
    ∷ [])

pub build_vless_outbound : VlessConfig → String → Value
build_vless_outbound c tag =
    apply_stream_settings
      (object (
        ("tag", str tag)
        ∷ ("protocol", str "vless")
        ∷ ("settings", vnext c.address c.port (vless_user c))
        ∷ []))
      c.transport c.tls

pub build_vmess_outbound : VmessConfig → String → Value
build_vmess_outbound c tag =
    apply_stream_settings
      (object (
        ("tag", str tag)
        ∷ ("protocol", str "vmess")
        ∷ (
          "settings",
          vnext c.address c.port (
              object (
                ("id", str c.uuid)
                ∷ ("alterId", num c.alter_id)
                ∷ ("security", str c.security)
                ∷ [])),
        )
        ∷ []))
      c.transport c.tls

pub build_ss_outbound : ShadowsocksConfig → String → Value
build_ss_outbound c tag = object (
    ("tag", str tag)
    ∷ ("protocol", str "shadowsocks")
    ∷ (
      "settings",
      object (
          (
            "servers",
            array (
                object (
                  ("address", str c.address)
                  ∷ ("port", num c.port)
                  ∷ ("method", str c.method)
                  ∷ ("password", str c.password)
                  ∷ [])
                ∷ []),
          )
          ∷ []),
    )
    ∷ [])

pub build_trojan_outbound : TrojanConfig → String → Value
build_trojan_outbound c tag =
    apply_stream_settings
      (object (
        ("tag", str tag)
        ∷ ("protocol", str "trojan")
        ∷ (
          "settings",
          object (
              (
                "servers",
                array (
                    object (
                      ("address", str c.address)
                      ∷ ("port", num c.port)
                      ∷ ("password", str c.password)
                      ∷ [])
                    ∷ []),
              )
              ∷ []),
        )
        ∷ []))
      c.transport c.tls

unfoldable pub build_outbound : ProxyNode → String → Value
unfolding build_vless_outbound build_vmess_outbound build_ss_outbound build_trojan_outbound
    vless_user apply_stream_settings
build_outbound (vless c) tag = build_vless_outbound c tag
build_outbound (vmess c) tag = build_vmess_outbound c tag
build_outbound (shadowsocks c) tag = build_ss_outbound c tag
build_outbound (trojan c) tag = build_trojan_outbound c tag

-- the outbounds of the nodes, numbered from `i`
unfoldable pub node_outbounds : ℕ → List ProxyNode → List Value
node_outbounds i [] = []
node_outbounds i (node ∷ nodes) =
    build_outbound node (outbound_tag node i) ∷ node_outbounds (suc i) nodes

unfoldable pub build_outbounds : List ProxyNode → List Value
build_outbounds nodes =
    node_outbounds 0 nodes
    ++ object (("tag", str "direct") ∷ ("protocol", str "freedom") ∷ ("settings", object []) ∷ [])
      ∷ object (("tag", str "block") ∷ ("protocol", str "blackhole") ∷ ("settings", object []) ∷ [])
      ∷ []

abbrev pub first_proxy_tag : String
first_proxy_tag = "proxy-0"

abbrev pub rule_target : RuleAction → String
rule_target proxy = first_proxy_tag
rule_target direct = "direct"
rule_target block = "block"

module _ {N : Type 0} (u : Unicode) (net : IpNetApi N) where
  abbrev pub field_rule : String → String → String → Value
  field_rule key pattern tag =
      object (("type", str "field") ∷ (key, strings (pattern ∷ [])) ∷ ("outboundTag", str tag) ∷ [])

  abbrev pub match_rule : RuleMatch N → String → Value
  match_rule (geo_ip country_code) tag =
      field_rule "ip" ("geoip:" ⧺ u.to_lowercase country_code) tag
  match_rule (geo_site category) tag =
      field_rule "domain" ("geosite:" ⧺ u.to_lowercase category) tag
  match_rule (domain pattern) tag = field_rule "domain" pattern tag
  match_rule (ip_cidr cidr) tag = field_rule "ip" (net.display cidr) tag

  unfoldable pub build_routing_rule : RoutingRule N → Value
  build_routing_rule rule = match_rule rule.match_condition (rule_target rule.action)

  -- the "rules" and the "domainStrategy" for the enabled rules
  abbrev pub routing_of : List (RoutingRule N) → Value
  routing_of [] = object (("domainStrategy", str "AsIs") ∷ ("rules", array []) ∷ [])
  routing_of (r ∷ rs) = object (
      ("domainStrategy", str "IPIfNonMatch")
      ∷ ("rules", array (map build_routing_rule (r ∷ rs)))
      ∷ [])

  unfoldable pub build_routing : List (RoutingRule N) → Value
  build_routing rules = routing_of (enabled_rules rules)

  unfoldable pub assemble : List ProxyNode → List (RoutingRule N) → AppSettings → Value
  assemble nodes rules settings = object (
      ("log", object (("loglevel", str "warning") ∷ []))
      ∷ ("inbounds", array (build_inbounds settings))
      ∷ ("outbounds", array (build_outbounds nodes))
      ∷ ("routing", build_routing rules)
      ∷ [])

  unfoldable pub generate :
      List ProxyNode → List (RoutingRule N) → AppSettings → Result ConfigError Value
  generate [] rules settings = err no_nodes
  generate (n ∷ ns) rules settings = ok (assemble (n ∷ ns) rules settings)
