-- ===== src/Config/Singbox.antt =====
-- crates/core/src/config/singbox.rs: the configuration for sing-box, as a JSON value. A BTreeSet is
-- the sorted list of its elements.
pub mod Outbounds
pub mod RuleSets
use text.Mathlib.Text.{is_lt}
use Prim.Native.String.{compare}
use v2ray_rs.Models.Proxy.{
  WsSettings, GrpcSettings, H2Settings, TransportSettings, tcp, ws, grpc, h2, TlsSettings,
  VlessConfig, VmessConfig, ShadowsocksConfig, TrojanConfig, ProxyNode, vless, vmess, shadowsocks,
  trojan,
}
use v2ray_rs.Models.Settings.{AppSettings}
use v2ray_rs.Models.Validation.{RuleMatch, geo_ip, geo_site, domain, ip_cidr, IpNetApi}
use v2ray_rs.Models.Routing.{RuleAction, proxy, direct, block, RoutingRule, enabled_rules}
use v2ray_rs.Config.Json.{Value, bool, num, str, array, object, strings, string_map, put}
use v2ray_rs.Config.Common.{ConfigError, no_nodes, outbound_tag}
use v2ray_rs.Base.{
  ℕ, suc, String, Bool, true, false, not, Option, none, some, List, [], ◌∷◌, ◌++◌, map,
  if◌then◌else◌, ◌⧺◌, str_eq, Unicode, Result, ok, err,
}

abbrev pub geoip_ruleset_url : String
geoip_ruleset_url = "https://raw.githubusercontent.com/SagerNet/sing-geoip/rule-set"

abbrev pub geosite_ruleset_url : String
geosite_ruleset_url = "https://raw.githubusercontent.com/SagerNet/sing-geosite/rule-set"

unfoldable pub build_inbounds : AppSettings → List Value
build_inbounds settings =
    object (
      ("type", str "mixed")
      ∷ ("tag", str "mixed-in")
      ∷ ("listen", str "127.0.0.1")
      ∷ ("listen_port", num settings.socks_port)
      ∷ [])
    ∷ []

abbrev has_elements {ℓ} : {A : Type ℓ} → List A → Bool
has_elements [] = false
has_elements (x ∷ xs) = true

abbrev host_header : Option String → Value → Value
host_header none transport = transport
host_header (some host) transport = put "headers" (object (("Host", str host) ∷ [])) transport

pub build_ws_transport : WsSettings → Value
build_ws_transport w =
    let transport = host_header w.host (object (("type", str "ws") ∷ ("path", str w.path) ∷ [])) in
    if has_elements w.headers then put "headers" (string_map w.headers) transport else transport

pub build_grpc_transport : GrpcSettings → Value
build_grpc_transport g = object (("type", str "grpc") ∷ ("service_name", str g.service_name) ∷ [])

pub build_h2_transport : H2Settings → Value
build_h2_transport h =
    object (("type", str "http") ∷ ("host", strings h.host) ∷ ("path", str h.path) ∷ [])

pub apply_transport : Value → TransportSettings → Value
apply_transport out tcp = out
apply_transport out (ws w) = put "transport" (build_ws_transport w) out
apply_transport out (grpc g) = put "transport" (build_grpc_transport g) out
apply_transport out (h2 h) = put "transport" (build_h2_transport h) out

abbrev put_name : Option String → Value → Value
put_name none v = v
put_name (some sni) v = put "server_name" (str sni) v

tls_object : TlsSettings → Value
tls_object t =
    let with_name = put_name t.server_name (object (("enabled", bool true) ∷ [])) in
    let with_alpn =
      if has_elements t.alpn then put "alpn" (strings t.alpn) with_name else with_name in
    if not t.verify then put "insecure" (bool true) with_alpn else with_alpn

pub apply_tls : Value → Option TlsSettings → Value
apply_tls out none = out
apply_tls out (some t) = put "tls" (tls_object t) out

abbrev put_flow : Option String → Value → Value
put_flow none v = v
put_flow (some flow) v = put "flow" (str flow) v

pub build_vless : VlessConfig → String → Value
build_vless c tag =
    apply_tls
      (apply_transport
        (put_flow c.flow (
          object (
            ("type", str "vless")
            ∷ ("tag", str tag)
            ∷ ("server", str c.address)
            ∷ ("server_port", num c.port)
            ∷ ("uuid", str c.uuid)
            ∷ [])))
        c.transport)
      c.tls

pub build_vmess : VmessConfig → String → Value
build_vmess c tag =
    apply_tls
      (apply_transport
        (object (
          ("type", str "vmess")
          ∷ ("tag", str tag)
          ∷ ("server", str c.address)
          ∷ ("server_port", num c.port)
          ∷ ("uuid", str c.uuid)
          ∷ ("alter_id", num c.alter_id)
          ∷ ("security", str c.security)
          ∷ []))
        c.transport)
      c.tls

pub build_ss : ShadowsocksConfig → String → Value
build_ss c tag = object (
    ("type", str "shadowsocks")
    ∷ ("tag", str tag)
    ∷ ("server", str c.address)
    ∷ ("server_port", num c.port)
    ∷ ("method", str c.method)
    ∷ ("password", str c.password)
    ∷ [])

pub build_trojan : TrojanConfig → String → Value
build_trojan c tag =
    apply_tls
      (apply_transport
        (object (
          ("type", str "trojan")
          ∷ ("tag", str tag)
          ∷ ("server", str c.address)
          ∷ ("server_port", num c.port)
          ∷ ("password", str c.password)
          ∷ []))
        c.transport)
      c.tls

unfoldable pub build_outbound : ProxyNode → String → Value
unfolding build_vless build_vmess build_ss build_trojan apply_transport apply_tls tls_object
    build_ws_transport build_grpc_transport build_h2_transport
build_outbound (vless c) tag = build_vless c tag
build_outbound (vmess c) tag = build_vmess c tag
build_outbound (shadowsocks c) tag = build_ss c tag
build_outbound (trojan c) tag = build_trojan c tag

unfoldable pub node_outbounds : ℕ → List ProxyNode → List Value
node_outbounds i [] = []
node_outbounds i (node ∷ nodes) =
    build_outbound node (outbound_tag node i) ∷ node_outbounds (suc i) nodes

unfoldable pub build_outbounds : List ProxyNode → List Value
build_outbounds nodes =
    node_outbounds 0 nodes
    ++ object (("type", str "direct") ∷ ("tag", str "direct") ∷ [])
      ∷ object (("type", str "block") ∷ ("tag", str "block") ∷ [])
      ∷ []

-- `BTreeSet::insert` into the sorted list
unfoldable pub set_insert : String → List String → List String
set_insert s [] = s ∷ []
set_insert s (t ∷ ts) =
    let later = set_insert s ts in
    if str_eq s t then t ∷ ts else if is_lt (compare s t) then s ∷ t ∷ ts else t ∷ later

module _ {N : Type 0} (u : Unicode) where
  abbrev pub add_geoip : RuleMatch N → List String → List String
  add_geoip (geo_ip country_code) tags = set_insert (u.to_lowercase country_code) tags
  add_geoip _ tags = tags

  abbrev pub add_geosite : RuleMatch N → List String → List String
  add_geosite (geo_site category) tags = set_insert (u.to_lowercase category) tags
  add_geosite _ tags = tags

  -- the loop that collects the tags, for each of the two sets
  unfoldable pub geoip_tags : List (RoutingRule N) → List String → List String
  geoip_tags [] tags = tags
  geoip_tags (r ∷ rs) tags = geoip_tags rs (add_geoip r.match_condition tags)

  unfoldable pub geosite_tags : List (RoutingRule N) → List String → List String
  geosite_tags [] tags = tags
  geosite_tags (r ∷ rs) tags = geosite_tags rs (add_geosite r.match_condition tags)

abbrev pub rule_set : String → String → String → Value
rule_set base kind tag = object (
    ("type", str "remote")
    ∷ ("tag", str (kind ⧺ tag))
    ∷ ("format", str "binary")
    ∷ ("url", str (base ⧺ "/" ⧺ kind ⧺ tag ⧺ ".srs"))
    ∷ ("download_detour", str "direct")
    ∷ [])

abbrev pub rule_outbound : RuleAction → String
rule_outbound proxy = "proxy-0"
rule_outbound direct = "direct"
rule_outbound block = "block"

module _ {N : Type 0} (u : Unicode) (net : IpNetApi N) where
  abbrev pub one_rule : String → String → String → Value
  one_rule key pattern outbound =
      object ((key, strings (pattern ∷ [])) ∷ ("outbound", str outbound) ∷ [])

  abbrev pub match_rule : RuleMatch N → String → Value
  match_rule (geo_ip country_code) out =
      one_rule "rule_set" ("geoip-" ⧺ u.to_lowercase country_code) out
  match_rule (geo_site category) out =
      one_rule "rule_set" ("geosite-" ⧺ u.to_lowercase category) out
  match_rule (domain pattern) out = one_rule "domain_suffix" pattern out
  match_rule (ip_cidr cidr) out = one_rule "ip_cidr" (net.display cidr) out

  unfoldable pub build_route_rule : RoutingRule N → Value
  build_route_rule rule = match_rule rule.match_condition (rule_outbound rule.action)

  unfoldable pub rule_sets : List (RoutingRule N) → List Value
  rule_sets enabled =
      map (rule_set geoip_ruleset_url "geoip-") (geoip_tags u enabled [])
      ++ map (rule_set geosite_ruleset_url "geosite-") (geosite_tags u enabled [])

  abbrev pub route_with : List Value → List Value → Value
  route_with [] route_rules = object (("rules", array route_rules) ∷ [])
  route_with (s ∷ ss) route_rules =
      object (("rule_set", array (s ∷ ss)) ∷ ("rules", array route_rules) ∷ [])

  abbrev pub route_of : List (RoutingRule N) → Value
  route_of [] = object (("rules", array []) ∷ [])
  route_of (r ∷ rs) = route_with (rule_sets (r ∷ rs)) (map build_route_rule (r ∷ rs))

  unfoldable pub build_route : List (RoutingRule N) → Value
  build_route rules = route_of (enabled_rules rules)

  unfoldable pub assemble : List ProxyNode → List (RoutingRule N) → AppSettings → Value
  assemble nodes rules settings = object (
      ("log", object (("level", str "warn") ∷ []))
      ∷ ("inbounds", array (build_inbounds settings))
      ∷ ("outbounds", array (build_outbounds nodes))
      ∷ ("route", build_route rules)
      ∷ [])

  unfoldable pub generate :
      List ProxyNode → List (RoutingRule N) → AppSettings → Result ConfigError Value
  generate [] rules settings = err no_nodes
  generate (n ∷ ns) rules settings = ok (assemble (n ∷ ns) rules settings)
