-- ===== src/Tests/Subscription.antt =====
-- Runs of the subscription updates and of the parser.
use v2ray_rs.Models.Proxy.{shadowsocks}
use v2ray_rs.Models.Subscription.{SubscriptionNode}
use v2ray_rs.Subscription.Formats.{Url}
use v2ray_rs.Subscription.Fetch.{FetchError, timeout}
use v2ray_rs.Subscription.Parser.{scheme_of, parse_uri, parse_ss, percent_decode_fragment}
use v2ray_rs.Subscription.Parser.Outcomes.{Reads, HasPorts, parse_uri-Reads}
use v2ray_rs.Subscription.Parser.ShareLink.{Encodes, share_link, parse_ss-share_link}
use v2ray_rs.Subscription.Update.{reconcile_with_counts, fetch_with_retry}
use v2ray_rs.Subscription.Update.Counting.{count}
use v2ray_rs.Subscription.Update.Reconciled.{
  ReconcileOutcome, has_new, nodes_of, Distinct, reconcile_with_counts_lem, removed-Distinct,
}
use v2ray_rs.Subscription.Update.Retries.{RetryOutcome, fetch_with_retry_lem}
use v2ray_rs.Tests.Samples.{ascii, formats, named_node, plain_node}
use v2ray_rs.Base.{
  ℕ, String, ◌≡◌, refl, ap, ◌∙◌, true, false, not, Option, none, some, List, [], ◌∷◌, arith, ◌==◌,
  if◌then◌else◌, unwrap_or, Result, ok, err,
}

-- the second request succeeds
abbrev answers : ℕ → Result FetchError String
answers k = if k == 1 then ok "content" else err timeout

fetch_with_retry_lem_example : RetryOutcome 3 answers 0 (fetch_with_retry answers 3)
fetch_with_retry_lem_example = fetch_with_retry_lem answers 3

abbrev olds : List SubscriptionNode
olds =
    record { node = named_node; enabled = false; last_latency_ms = some 30 }
    ∷ record { node = plain_node; enabled = true; last_latency_ms = none }
    ∷ []

reconcile_with_counts_lem_example :
    ReconcileOutcome olds (named_node ∷ []) (reconcile_with_counts olds (named_node ∷ []))
reconcile_with_counts_lem_example = reconcile_with_counts_lem olds (named_node ∷ [])

olds-Distinct : Distinct (nodes_of olds)
olds-Distinct = (refl, (refl, tt))

removed-Distinct_example :
    (reconcile_with_counts olds (named_node ∷ [])).1.removed
    ≡ count (λ old. not (has_new (named_node ∷ []) old)) olds
removed-Distinct_example = removed-Distinct olds (named_node ∷ []) olds-Distinct (refl, tt)

abbrev port_of : Result String Url → Option ℕ
port_of (ok url) = url.port
port_of (err e) = none

formats-HasPorts : HasPorts formats
formats-HasPorts s url p parsed has =
    let same : 443 ≡ p = ap (λ o. unwrap_or o 0) (ap port_of parsed ∙ has) in
    rw (← same) (omega arith)

parse_uri-Reads_example :
    Reads
      (ascii.to_lowercase (scheme_of "trojan://id@c.example:443"))
      (parse_uri formats ascii "trojan://id@c.example:443")
parse_uri-Reads_example = parse_uri-Reads formats formats-HasPorts ascii "trojan://id@c.example:443"

abbrev two_links : List String
two_links = "trojan://id@c.example:443" ∷ "http://c.example" ∷ []

secret-Encodes : Encodes formats "rc4:secret" "rc4" "secret"
secret-Encodes = record { bytes = "rc4:secret"; decoded = refl; text = refl }

parse_ss-share_link_example :
    parse_ss formats (share_link "rc4:secret" "d.example" 8388 (some "Oslo"))
    ≡ ok (
        shadowsocks (record {
          address = "d.example";
          port = 8388;
          method = "rc4";
          password = "secret";
          remark = percent_decode_fragment formats (some "Oslo");
        }))
parse_ss-share_link_example =
    parse_ss-share_link formats "rc4:secret" "rc4" "secret" "d.example" 8388 (some "Oslo")
      secret-Encodes refl refl refl (omega arith)
