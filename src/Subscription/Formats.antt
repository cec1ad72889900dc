-- ===== src/Subscription/Formats.antt =====
-- What crates/subscription/ takes from the crates url, base64 and serde_json, and from the UTF-8
-- decoder of the standard library, with a type of byte strings. Errors are their `Display` texts.
use v2ray_rs.Config.Json.{Value}
use v2ray_rs.Base.{ℕ, String, Option, List, Result}

-- the parts of `url::Url` that are read; `query_pairs` decoded, in order
pub record Url : Type 0 where
  pub username : String
  pub host_str : Option String
  pub port : Option ℕ
  pub fragment : Option String
  pub query_pairs : List (String × String)

pub record Formats (B : Type 0) : Type 1 where
  -- `url::Url::parse`
  pub parse_url : String → Result String Url
  -- the engines STANDARD and URL_SAFE_NO_PAD of base64
  pub standard : String → Result String B
  pub url_safe_no_pad : String → Result String B
  -- `serde_json::from_slice` to a `Value`
  pub from_slice : B → Result String Value
  pub from_utf8 : B → Result String String
  pub from_utf8_lossy : B → String
  -- the first key of `form_urlencoded::parse`
  pub first_key : String → Option String
