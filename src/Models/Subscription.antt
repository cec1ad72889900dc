-- ===== src/Models/Subscription.antt =====
-- crates/core/src/models/subscription.rs. A UUID is the 128-bit number that it stands for, and a
-- fresh one (`Uuid::new_v4`) is an argument. Times are seconds since the epoch.
use v2ray_rs.Models.Proxy.{ProxyNode}
use v2ray_rs.Base.{ℕ, String, Bool, true, ◌&&◌, Option, none, some, List, [], map, keep_if, any}

abbrev pub UuidValue : Type 0
UuidValue = ℕ

pub data SubscriptionSource : Type 0 where
  url : String → SubscriptionSource
  file : String → SubscriptionSource

pub record SubscriptionNode : Type 0 where
  pub node : ProxyNode
  pub enabled : Bool
  pub last_latency_ms : Option ℕ

pub record Subscription : Type 0 where
  pub id : UuidValue
  pub name : String
  pub source : SubscriptionSource
  pub nodes : List SubscriptionNode
  pub last_updated : Option ℕ
  pub auto_update_interval_secs : Option ℕ
  pub enabled : Bool

abbrev pub new_from_url : UuidValue → String → String → Subscription
new_from_url fresh name address = record {
  id = fresh;
  name = name;
  source = url address;
  nodes = [];
  last_updated = none;
  auto_update_interval_secs = some 86400;
  enabled = true;
}

abbrev pub new_from_file : UuidValue → String → String → Subscription
new_from_file fresh name path = record {
  id = fresh;
  name = name;
  source = file path;
  nodes = [];
  last_updated = none;
  auto_update_interval_secs = none;
  enabled = true;
}

abbrev pub enabled_nodes : Subscription → List ProxyNode
enabled_nodes s = map (λ n. n.node) (keep_if (λ n. n.enabled) s.nodes)

abbrev pub has_enabled_nodes : Subscription → Bool
has_enabled_nodes s = s.enabled && any (λ n. n.enabled) s.nodes

-- what serde keeps of a node: `last_latency_ms` is skipped, and read as its default
abbrev pub stored_node : SubscriptionNode → SubscriptionNode
stored_node n = record n { last_latency_ms = none }

abbrev pub stored_form : Subscription → Subscription
stored_form s = record s { nodes = map stored_node s.nodes }
