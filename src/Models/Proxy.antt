-- ===== src/Models/Proxy.antt =====
-- crates/core/src/models/proxy.rs: the proxy node kinds with their transport and TLS settings. A
-- HashMap is an association list; ports are below 2 ^ 16 by their type in the source (u16).
use v2ray_rs.Base.{ℕ, String, Bool, Option, List}

pub record WsSettings : Type 0 where
  pub path : String
  pub host : Option String
  pub headers : List (String × String)

pub record GrpcSettings : Type 0 where
  pub service_name : String
  pub multi_mode : Bool

pub record H2Settings : Type 0 where
  pub host : List String
  pub path : String

pub data TransportSettings : Type 0 where
  tcp : TransportSettings
  ws : WsSettings → TransportSettings
  grpc : GrpcSettings → TransportSettings
  h2 : H2Settings → TransportSettings

pub record TlsSettings : Type 0 where
  pub server_name : Option String
  pub alpn : List String
  pub verify : Bool
  pub fingerprint : Option String

pub record VlessConfig : Type 0 where
  pub address : String
  pub port : ℕ
  pub uuid : String
  pub encryption : Option String
  pub flow : Option String
  pub transport : TransportSettings
  pub tls : Option TlsSettings
  pub remark : Option String

pub record VmessConfig : Type 0 where
  pub address : String
  pub port : ℕ
  pub uuid : String
  pub alter_id : ℕ
  pub security : String
  pub transport : TransportSettings
  pub tls : Option TlsSettings
  pub remark : Option String

pub record ShadowsocksConfig : Type 0 where
  pub address : String
  pub port : ℕ
  pub method : String
  pub password : String
  pub remark : Option String

pub record TrojanConfig : Type 0 where
  pub address : String
  pub port : ℕ
  pub password : String
  pub transport : TransportSettings
  pub tls : Option TlsSettings
  pub remark : Option String

pub data ProxyNode : Type 0 where
  vless : VlessConfig → ProxyNode
  vmess : VmessConfig → ProxyNode
  shadowsocks : ShadowsocksConfig → ProxyNode
  trojan : TrojanConfig → ProxyNode

abbrev pub remark : ProxyNode → Option String
remark (vless c) = c.remark
remark (vmess c) = c.remark
remark (shadowsocks c) = c.remark
remark (trojan c) = c.remark

abbrev pub address : ProxyNode → String
address (vless c) = c.address
address (vmess c) = c.address
address (shadowsocks c) = c.address
address (trojan c) = c.address

abbrev pub port : ProxyNode → ℕ
port (vless c) = c.port
port (vmess c) = c.port
port (shadowsocks c) = c.port
port (trojan c) = c.port

-- `std::mem::discriminant`, as a number for each kind
abbrev pub discriminant : ProxyNode → ℕ
discriminant (vless c) = 0
discriminant (vmess c) = 1
discriminant (shadowsocks c) = 2
discriminant (trojan c) = 3
