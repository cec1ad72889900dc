-- ===== src/Tests/Samples.antt =====
-- The data of the concrete runs: a table of characters, a type of networks, nodes, rules, and the
-- parts of other packages, as small functions.
use v2ray_rs.Models.Proxy.{ProxyNode, shadowsocks}
use v2ray_rs.Models.Validation.{RuleMatch, geo_ip, geo_site, ip_cidr, IpNetApi}
use v2ray_rs.Models.Routing.{RuleAction, proxy, direct, RoutingRule}
use v2ray_rs.Models.Presets.{Preset}
use v2ray_rs.Subscription.Formats.{Formats}
use v2ray_rs.Base.{
  ℕ, String, true, ◌||◌, none, some, List, [], ◌∷◌, str_eq, is_ascii_lowercase, is_ascii_digit,
  Unicode, ok, err,
}

abbrev pub ascii : Unicode
ascii = record {
  to_lowercase = λ s. s;
  is_alphanumeric = λ c. is_ascii_lowercase c || is_ascii_digit c;
}

-- networks as their texts
abbrev pub networks : IpNetApi String
networks = record { display = λ n. n; parse = λ s. some s; eq = str_eq }

abbrev pub named_node : ProxyNode
named_node = shadowsocks (record {
  address = "a.example";
  port = 8388;
  method = "aes-256-gcm";
  password = "secret";
  remark = some "Tokyo";
})

abbrev pub plain_node : ProxyNode
plain_node = shadowsocks (record {
  address = "b.example";
  port = 8389;
  method = "aes-256-gcm";
  password = "secret";
  remark = none;
})

abbrev pub rule : ℕ → RuleMatch String → RuleAction → RoutingRule String
rule id condition action = record {
  id = id;
  match_condition = condition;
  action = action;
  enabled = true;
}

abbrev pub two_rules : List (RoutingRule String)
two_rules = rule 1 (geo_ip "US") proxy ∷ rule 2 (geo_site "google") direct ∷ []

abbrev pub lan_preset : Preset String
lan_preset = record {
  name = "LAN";
  description = "";
  rules = record { match_condition = ip_cidr "10.0.0.0/8"; action = direct } ∷ [];
}

-- byte strings as the texts that they stand for
abbrev pub formats : Formats String
formats = record {
  parse_url = λ s. ok (record {
    username = "id";
    host_str = some "c.example";
    port = some 443;
    fragment = none;
    query_pairs = [];
  });
  standard = λ s. err "invalid byte";
  url_safe_no_pad = λ s. ok s;
  from_slice = λ b. err "expected value";
  from_utf8 = λ b. ok b;
  from_utf8_lossy = λ b. b;
  first_key = λ s. some s;
}
