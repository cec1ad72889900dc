-- ===== src/Config/Generator.antt =====
-- crates/core/src/config/mod.rs and writer.rs: the generator of a backend, and where its
-- configuration is written. A result `none` is a panic.
pub mod Tags
pub mod Rules
pub mod Conditions
use v2ray_rs.Models.Proxy.{ProxyNode}
use v2ray_rs.Models.Settings.{BackendType, v2ray, xray, sing_box, AppSettings}
use v2ray_rs.Models.Validation.{IpNetApi}
use v2ray_rs.Models.Routing.{RoutingRule}
use v2ray_rs.Config.Json.{Value}
use v2ray_rs.Config.Common.{ConfigError, serialize, io}
use v2ray_rs.Config.V2ray
use v2ray_rs.Config.Xray
use v2ray_rs.Config.Singbox
use v2ray_rs.Base.{String, Option, some, List, unwrap_or, Unicode, Result, join}

module _ {N : Type 0} (u : Unicode) (net : IpNetApi N) where
  unfoldable pub generate_for :
      BackendType
      → List ProxyNode
      → List (RoutingRule N)
      → AppSettings
      → Option (Result ConfigError Value)
  generate_for v2ray nodes rules settings = some (V2ray.generate u net nodes rules settings)
  generate_for xray nodes rules settings = Xray.generate u net nodes rules settings
  generate_for sing_box nodes rules settings = some (Singbox.generate u net nodes rules settings)

abbrev pub config_filename : BackendType → String
config_filename v2ray = "v2ray.json"
config_filename xray = "xray.json"
config_filename sing_box = "sing-box.json"

pub record ConfigWriter : Type 0 where
  pub output_dir : String
  pub geodata_dir : String

abbrev pub new_writer : AppSettings → String → ConfigWriter
new_writer settings data_dir = record {
  output_dir = unwrap_or settings.backend.config_output_dir (join data_dir "generated");
  geodata_dir = join data_dir "geodata";
}

abbrev pub output_path : ConfigWriter → BackendType → String
output_path w backend = join w.output_dir (config_filename backend)
