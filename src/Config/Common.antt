-- ===== src/Config/Common.antt =====
-- crates/core/src/config/common.rs and mod.rs: the tag of an outbound, and the error type.
pub mod Tags
use v2ray_rs.Models.Proxy.{ProxyNode, remark}
use v2ray_rs.Base.{ℕ, String, Option, none, some, if◌then◌else◌, ◌⧺◌, is_empty_str, to_string}

pub data ConfigError : Type 0 where
  no_nodes : ConfigError
  serialize : String → ConfigError
  io : String → ConfigError

abbrev pub tag_for : ℕ → Option String → String
tag_for index none = "proxy-" ⧺ to_string index
tag_for index (some name) =
    if is_empty_str name
    then "proxy-" ⧺ to_string index
    else "proxy-" ⧺ to_string index ⧺ "-" ⧺ name

unfoldable pub outbound_tag : ProxyNode → ℕ → String
outbound_tag node index = tag_for index (remark node)
