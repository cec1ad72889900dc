-- ===== src/Subscription/Update.antt =====
-- crates/subscription/src/update.rs: the nodes of a subscription against the ones just fetched. The
-- answers of the requests, the content of the file and the clock are arguments.
pub mod Counting
pub mod Reconciled
pub mod Refetched
pub mod Retries
use v2ray_rs.Models.Proxy.{ProxyNode, address, port, discriminant}
use v2ray_rs.Models.Subscription.{Subscription, SubscriptionNode, SubscriptionSource, url, file}
use v2ray_rs.Subscription.Formats.{Formats}
use v2ray_rs.Subscription.Parser.{ParseError, parse_uri}
use v2ray_rs.Subscription.Fetch.{
  FetchError, Answer, fetch_with_client, fetch_from_file, decode_subscription_content,
}
use v2ray_rs.Base.{
  ℕ, zero, suc, ◌+◌, ◌-◌, ◌%◌, ◌^◌, String, Bool, true, ◌&&◌, Option, none, some, List, [], ◌∷◌,
  ◌++◌, map, ltb, ◌==◌, if◌then◌else◌, is_some, length, find, str_eq, Unicode, Result, ok, err,
}

pub record UpdateResult : Type 0 where
  pub added : ℕ
  pub removed : ℕ
  pub unchanged : ℕ

-- the test by which an old node matches a new one
abbrev pub same_server : ProxyNode → ProxyNode → Bool
same_server old_node new_node =
    str_eq (address old_node) (address new_node)
    && (port old_node == port new_node)
    && (discriminant old_node == discriminant new_node)

abbrev pub matched : List SubscriptionNode → ProxyNode → Option SubscriptionNode
matched old_nodes new_node = find (λ old. same_server old.node new_node) old_nodes

abbrev pub was_enabled : Option SubscriptionNode → Bool
was_enabled none = true
was_enabled (some m) = m.enabled

abbrev pub reconciled : List SubscriptionNode → ProxyNode → SubscriptionNode
reconciled old_nodes new_node = record {
  node = new_node;
  enabled = was_enabled (matched old_nodes new_node);
  last_latency_ms = none;
}

-- the variables of the loop
pub record Tally : Type 0 where
  pub result : List SubscriptionNode
  pub added : ℕ
  pub unchanged : ℕ

abbrev pub reconcile_one : List SubscriptionNode → ProxyNode → Tally → Tally
reconcile_one old_nodes new_node t =
    let found = is_some (matched old_nodes new_node) in
    record {
      result = t.result ++ reconciled old_nodes new_node ∷ [];
      added = if found then t.added else t.added + 1;
      unchanged = if found then t.unchanged + 1 else t.unchanged;
    }

abbrev pub reconcile_loop : List SubscriptionNode → List ProxyNode → Tally → Tally
reconcile_loop old_nodes [] t = t
reconcile_loop old_nodes (n ∷ ns) t = reconcile_loop old_nodes ns (reconcile_one old_nodes n t)

-- subtraction on ℕ stops at 0, as `saturating_sub` does
unfoldable pub reconcile_with_counts :
    List SubscriptionNode → List ProxyNode → List SubscriptionNode × UpdateResult
reconcile_with_counts old_nodes new_parsed =
    let t =
      reconcile_loop old_nodes new_parsed (record { result = []; added = 0; unchanged = 0 }) in
    (
      t.result,
      record { added = t.added; removed = length old_nodes - t.unchanged; unchanged = t.unchanged },
    )

abbrev pub reconcile_nodes : List SubscriptionNode → List ProxyNode → List SubscriptionNode
reconcile_nodes old_nodes new_parsed = (reconcile_with_counts old_nodes new_parsed).0

abbrev pub default_max_retries : ℕ
default_max_retries = 3

-- What a failed attempt sleeps, in seconds, if one more follows: `1 << attempt` as a release build
-- computes it. From attempt 64 on a debug build would panic, after more than 2 ^ 64 seconds of sleep.
abbrev pub delay : Bool → ℕ → List ℕ
delay again attempt = if again then 2 ^ (attempt % 64) ∷ [] else []

-- one round of the loop: the answer, what it sleeps if it failed, and the rounds after it
abbrev pub after_attempt :
    Result FetchError String
    → List ℕ
    → (FetchError → Option (Result FetchError String) × List ℕ)
    → Option (Result FetchError String) × List ℕ
after_attempt (ok content) sleep rest = (some (ok content), [])
after_attempt (err e) sleep rest = ((rest e).0, sleep ++ (rest e).1)

abbrev pub unwrap_last : Option FetchError → Option (Result FetchError String)
unwrap_last none = none
unwrap_last (some e) = some (err e)

-- the rounds that are left, the attempt, the answer of each attempt, and `last_error`; the result,
-- `none` for the panic of `unwrap`, with the delays
unfoldable pub retry_from :
    ℕ
    → ℕ
    → ℕ
    → (ℕ → Result FetchError String)
    → Option FetchError
    → Option (Result FetchError String) × List ℕ
retry_from zero attempt max_retries fetch last_error = (unwrap_last last_error, [])
retry_from (suc rounds) attempt max_retries fetch last_error =
    after_attempt (fetch attempt) (delay (ltb attempt max_retries) attempt)
      (λ e. retry_from rounds (attempt + 1) max_retries fetch (some e))

unfoldable pub fetch_with_retry :
    (ℕ → Result FetchError String) → ℕ → Option (Result FetchError String) × List ℕ
fetch_with_retry fetch max_retries = retry_from (max_retries + 1) 0 max_retries fetch none

-- what an update meets: the answer of the request of each attempt at a URL, the content of each
-- file, and the clock after it
pub record Outside : Type 0 where
  pub request : String → ℕ → Answer
  pub read_file : String → Result String String
  pub now : ℕ

abbrev pub raw_content : Outside → SubscriptionSource → Option (Result FetchError String)
raw_content o (url address) =
    (fetch_with_retry (λ attempt. fetch_with_client (o.request address attempt))
      default_max_retries).0
raw_content o (file path) = some (fetch_from_file (o.read_file path))

abbrev pub parsed : List (Result ParseError ProxyNode) → List ProxyNode
parsed [] = []
parsed (ok node ∷ rs) = node ∷ parsed rs
parsed (err e ∷ rs) = parsed rs

module _ {B : Type 0} (f : Formats B) (u : Unicode) where
  abbrev pub parsed_nodes : String → List ProxyNode
  parsed_nodes content = parsed (map (parse_uri f u) (decode_subscription_content f content))

  abbrev pub updated :
      ℕ
      → Subscription
      → List SubscriptionNode × UpdateResult
      → Result FetchError UpdateResult × Subscription
  updated now s (nodes, r) = (ok r, record s { nodes = nodes; last_updated = some now })

  abbrev pub update_with :
      ℕ → Subscription → Result FetchError String → Result FetchError UpdateResult × Subscription
  update_with now s (err e) = (err e, s)
  update_with now s (ok content) =
      updated now s (reconcile_with_counts s.nodes (parsed_nodes content))

  abbrev pub on_content :
      ℕ
      → Subscription
      → Option (Result FetchError String)
      → Option (Result FetchError UpdateResult × Subscription)
  on_content now s none = none
  on_content now s (some r) = some (update_with now s r)

  -- the result and the subscription that is left; `none` is a panic
  unfoldable pub update_subscription :
      Outside → Subscription → Option (Result FetchError UpdateResult × Subscription)
  update_subscription o s = on_content o.now s (raw_content o s.source)
