-- ===== src/Models/Settings.antt =====
-- crates/core/src/models/settings.rs: the application settings and their defaults. A path is its
-- text.
use v2ray_rs.Base.{ℕ, String, Bool, true, false, Option, none}

pub data BackendType : Type 0 where
  v2ray xray sing_box : BackendType

pub record BackendConfig : Type 0 where
  pub backend_type : BackendType
  pub binary_path : Option String
  pub config_output_dir : Option String

abbrev pub default_backend : BackendConfig
default_backend = record { backend_type = xray; binary_path = none; config_output_dir = none }

pub data Language : Type 0 where
  english russian : Language

pub record AppSettings : Type 0 where
  pub version : ℕ
  pub backend : BackendConfig
  pub socks_port : ℕ
  pub http_port : ℕ
  pub auto_update_subscriptions : Bool
  pub subscription_update_interval_secs : ℕ
  pub auto_update_geodata : Bool
  pub geodata_update_interval_secs : ℕ
  pub language : Language
  pub minimize_to_tray : Bool
  pub notifications_enabled : Bool
  pub onboarding_complete : Bool

abbrev pub default_settings : AppSettings
default_settings = record {
  version = 1;
  backend = default_backend;
  socks_port = 1080;
  http_port = 1081;
  auto_update_subscriptions = true;
  subscription_update_interval_secs = 86400;
  auto_update_geodata = true;
  geodata_update_interval_secs = 604800;
  language = english;
  minimize_to_tray = true;
  notifications_enabled = true;
  onboarding_complete = false;
}
