-- ===== src/Subscription/Parser.antt =====
-- crates/subscription/src/parser.rs: the share links of the four protocols. What other crates decode
-- is the parameter `f`; a HashMap collected from pairs is the list of them, the last one of a key
-- being its value.
pub mod Outcomes
pub mod Import
pub mod ShareLink
use v2ray_rs.Models.Proxy.{
  ProxyNode, vless, vmess, shadowsocks, trojan, TransportSettings, tcp, ws, grpc, h2, TlsSettings,
}
use v2ray_rs.Models.Subscription.{SubscriptionNode}
use v2ray_rs.Config.Json.{Value, num, get, as_str}
use v2ray_rs.Subscription.Formats.{Formats, Url}
use v2ray_rs.Base.{
  ℕ, ◌%◌, ◌^◌, String, Bool, true, false, ◌||◌, Option, none, some, List, [], ◌∷◌, ◌++◌, ◌==◌,
  if◌then◌else◌, is_some, unwrap_or, ◌⧺◌, str_eq, is_empty_str, Unicode, trim, strip_prefix,
  split_once, rsplit_once, split, Result, ok, err, ◌>>=◌, ◌>>◌, ok_or, map_err, parse_unsigned,
}

pub data ParseError : Type 0 where
  unsupported_scheme : String → ParseError
  invalid_format : String → ParseError

abbrev pub or_here : Bool → String → Option String → Option String
or_here here v (some w) = some w
or_here true v none = some v
or_here false v none = none

-- `HashMap::get` after `collect`
abbrev pub param : String → List (String × String) → Option String
param k [] = none
param k ((j, v) ∷ ps) = or_here (str_eq j k) v (param k ps)

abbrev pub invalid {ℓ} : {A : Type ℓ} → String → Result String A → Result ParseError A
invalid message r = map_err (λ e. invalid_format (message ⧺ e)) r

abbrev pub h2_hosts : Option String → List String
h2_hosts none = []
h2_hosts (some h) = h ∷ []

abbrev pub named_transport : Option String → String → Option String → String → TransportSettings
named_transport kind path host service_name = elim kind [
  | none ↦ tcp
  | some k ↦
      if str_eq k "ws"
      then ws (record { path = path; host = host; headers = [] })
      else if str_eq k "grpc"
      then grpc (record { service_name = service_name; multi_mode = false })
      else if str_eq k "h2"
      then h2 (record { host = h2_hosts host; path = path })
      else tcp
]

abbrev pub parse_url_transport : List (String × String) → TransportSettings
parse_url_transport params =
    named_transport (param "type" params) (unwrap_or (param "path" params) "") (param "host" params)
      (unwrap_or (param "serviceName" params) "")

abbrev pub alpn_list : Option String → List String
alpn_list none = []
alpn_list (some a) = split b',' a

abbrev pub secured : Option String → TlsSettings → Option TlsSettings
secured none t = none
secured (some s) t = if str_eq s "tls" || str_eq s "reality" then some t else none

abbrev pub parse_url_tls : List (String × String) → Option TlsSettings
parse_url_tls params = secured (param "security" params) (record {
  server_name = param "sni" params;
  alpn = alpn_list (param "alpn" params);
  verify = true;
  fingerprint = param "fp" params;
})

abbrev pub default_tls : ℕ → String → Option TlsSettings → Option TlsSettings
default_tls port address (some t) = some t
default_tls port address none =
    if port == 443
    then some (record { server_name = some address; alpn = []; verify = true; fingerprint = none })
    else none

-- `json["port"]` as a number or as a text of one
abbrev pub port_number : Value → Option ℕ
port_number (num n) = some n
port_number v = elim (as_str v) [ none ↦ none | some s ↦ parse_unsigned (2 ^ 64) s ]

abbrev pub as_u64 : Value → Option ℕ
as_u64 (num n) = some n
as_u64 _ = none

abbrev pub or_else : Option String → Option String → Option String
or_else none b = b
or_else (some a) b = some a

abbrev pub vmess_transport : Value → TransportSettings
vmess_transport json =
    let path = unwrap_or (as_str (get "path" json)) "" in
    named_transport (as_str (get "net" json)) path (as_str (get "host" json)) path

abbrev pub is_tls : Option String → Bool
is_tls none = false
is_tls (some s) = str_eq s "tls"

abbrev pub vmess_tls : Value → Option TlsSettings
vmess_tls json =
    if is_tls (as_str (get "tls" json))
    then some (record {
      server_name = or_else (as_str (get "sni" json)) (as_str (get "host" json));
      alpn = [];
      verify = true;
      fingerprint = none;
    })
    else none

-- the text before the first "://", or all of it
abbrev pub scheme_of : String → String
scheme_of String.[] = String.[]
scheme_of (String.◌∷◌ c s) =
    let rest = scheme_of s in
    if is_some (strip_prefix "://" (String.◌∷◌ c s)) then String.[] else String.◌∷◌ c rest

-- the host and port, and the fragment, after the user info
abbrev pub cut_fragment : Option (String × String) → String → String × Option String
cut_fragment none host_part = (host_part, none)
cut_fragment (some (host_port, fragment)) host_part = (host_port, some fragment)

abbrev pub or_decode {ℓ} : {B : Type ℓ} → Result String B → Result String B → Result String B
or_decode (ok b) other = ok b
or_decode (err e) other = other

pub record ImportResult : Type 0 where
  pub nodes : List SubscriptionNode
  pub errors : List (String × ParseError)

-- the node that a link adds
abbrev pub imported : ProxyNode → SubscriptionNode
imported node = record { node = node; enabled = true; last_latency_ms = none }

abbrev pub import_one : String → Result ParseError ProxyNode → ImportResult → ImportResult
import_one uri (ok node) r = record r { nodes = r.nodes ++ imported node ∷ [] }
import_one uri (err e) r = record r { errors = r.errors ++ (uri, e) ∷ [] }

module _ {B : Type 0} (f : Formats B) where
  abbrev pub percent_decode_fragment : Option String → Option String
  percent_decode_fragment none = none
  percent_decode_fragment (some s) = some (unwrap_or (f.first_key s) s)

  -- the user name, the host and the port that vless and trojan links need
  abbrev pub checked : String → Url → Result ParseError (String × ℕ)
  checked missing url = if is_empty_str url.username then err (invalid_format missing) else do
    address ← ok_or url.host_str (invalid_format "missing host")
    port ← ok_or url.port (invalid_format "missing port")
    ok (address, port)

  unfoldable pub parse_vless : String → Result ParseError ProxyNode
  parse_vless uri = do
    url ← invalid "" (f.parse_url uri)
    (address, port) ← checked "missing UUID" url
    ok (
        vless (record {
          address = address;
          port = port;
          uuid = url.username;
          encryption = param "encryption" url.query_pairs;
          flow = param "flow" url.query_pairs;
          transport = parse_url_transport url.query_pairs;
          tls = parse_url_tls url.query_pairs;
          remark = percent_decode_fragment url.fragment;
        }))

  -- `as u16` and `as u32` keep the low bits
  abbrev pub vmess_of : Value → Result ParseError ProxyNode
  vmess_of json = do
    address ← ok_or (as_str (get "add" json)) (invalid_format "missing 'add' field")
    port ← ok_or (port_number (get "port" json)) (invalid_format "missing 'port' field")
    uuid ← ok_or (as_str (get "id" json)) (invalid_format "missing 'id' field")
    ok (
        vmess (record {
          address = address;
          port = port % 2 ^ 16;
          uuid = uuid;
          alter_id = unwrap_or (as_u64 (get "aid" json)) 0 % 2 ^ 32;
          security = unwrap_or (as_str (get "scy" json)) "auto";
          transport = vmess_transport json;
          tls = vmess_tls json;
          remark = as_str (get "ps" json);
        }))

  unfoldable pub parse_vmess : String → Result ParseError ProxyNode
  parse_vmess uri = do
    encoded ← ok_or (strip_prefix "vmess://" uri) (invalid_format "missing vmess:// prefix")
    decoded ← invalid "base64 decode failed: " (f.standard (trim encoded))
    json ← invalid "invalid JSON: " (f.from_slice decoded)
    vmess_of json

  abbrev pub ss_of : String → String → Option String → String → Result ParseError ProxyNode
  ss_of method password fragment host_port = do
    (address, port_str) ← ok_or (rsplit_once b':' host_port) (invalid_format "missing host:port")
    port ← ok_or (parse_unsigned (2 ^ 16) port_str) (invalid_format "invalid port")
    ok (
        shadowsocks (record {
          address = address;
          port = port;
          method = method;
          password = password;
          remark = percent_decode_fragment fragment;
        }))

  unfoldable pub parse_ss : String → Result ParseError ProxyNode
  parse_ss uri = do
    without_scheme ← ok_or (strip_prefix "ss://" uri) (invalid_format "missing ss:// prefix")
    (userinfo_part, host_part) ←
        ok_or (split_once b'@' without_scheme) (invalid_format "missing '@' separator")
    decoded ←
        invalid "base64 decode failed: "
          (or_decode (f.url_safe_no_pad (trim userinfo_part)) (f.standard (trim userinfo_part)))
    userinfo ← invalid "invalid UTF-8: " (f.from_utf8 decoded)
    (method, password) ← ok_or (split_once b':' userinfo) (invalid_format "missing method:password")
    let (host_port, fragment) = cut_fragment (split_once b'#' host_part) host_part
    ss_of method password fragment host_port

  unfoldable pub parse_trojan : String → Result ParseError ProxyNode
  parse_trojan uri = do
    url ← invalid "" (f.parse_url uri)
    (address, port) ← checked "missing password" url
    ok (
        trojan (record {
          address = address;
          port = port;
          password = url.username;
          transport = parse_url_transport url.query_pairs;
          tls = default_tls port address (parse_url_tls url.query_pairs);
          remark = percent_decode_fragment url.fragment;
        }))

  unfoldable pub parse_uri : Unicode → String → Result ParseError ProxyNode
  parse_uri u uri =
      let scheme = u.to_lowercase (scheme_of uri) in
      if str_eq scheme "vless"
      then parse_vless uri
      else if str_eq scheme "vmess"
      then parse_vmess uri
      else if str_eq scheme "ss"
      then parse_ss uri
      else if str_eq scheme "trojan"
      then parse_trojan uri
      else err (unsupported_scheme scheme)

  unfoldable pub import_loop : Unicode → List String → ImportResult → ImportResult
  import_loop u [] r = r
  import_loop u (uri ∷ uris) r = import_loop u uris (import_one uri (parse_uri u uri) r)

  unfoldable pub parse_subscription_uris : Unicode → List String → ImportResult
  parse_subscription_uris u uris = import_loop u uris (record { nodes = []; errors = [] })
