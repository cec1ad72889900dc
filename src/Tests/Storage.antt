-- ===== src/Tests/Storage.antt =====
-- Runs of the stored subscriptions and of the routing manager, with formats that can write the
-- empty list and one list of one element.
use v2ray_rs.Models.Subscription.{
  stored_form, Subscription, SubscriptionSource, SubscriptionNode, url, file,
}
use v2ray_rs.Models.Validation.{RuleMatch, geo_ip}
use v2ray_rs.Models.Routing.{RuleAction, proxy, RoutingRule, RoutingRuleSet}
use v2ray_rs.Storage.Persistence.{Codec, Disk}
use v2ray_rs.Storage.Persistence.Subscriptions
use v2ray_rs.Storage.Persistence.Subscriptions.{
  ReadsBack, no_faults, add_one, Holds, ChangeOutcome, perform-ChangeOutcome,
}
use v2ray_rs.Storage.RoutingManager.{RoutingManager}
use v2ray_rs.Storage.RoutingManager.Synced
use v2ray_rs.Storage.RoutingManager.Synced.{IsSynced}
use v2ray_rs.Subscription.Fetch.{not_sent}
use v2ray_rs.Subscription.Update.{Outside}
use v2ray_rs.Subscription.Service.{SubscriptionError, add_and_fetch}
use v2ray_rs.Subscription.Service.Adding.{AddOutcome, add_and_fetch_lem}
use v2ray_rs.Models.Subscription.{new_from_url}
use v2ray_rs.Tests.Samples.{formats, ascii, rule}
use v2ray_rs.Base.{
  ℕ, String, ◌≡◌, refl, ap, inl, inr, Bool, true, false, ◌&&◌, Option, none, some, List, [], ◌∷◌,
  eq_iff, ◌==◌, if◌then◌else◌, ==_iff, Bool-cases, str_eq, Result, ok, err,
}

-- a format for the empty list and one other list
abbrev read_one : {A : Type 0} → List A → String → Result String (List A)
read_one one text =
    if str_eq text "[]" then ok [] else if str_eq text "[1]" then ok one else err "syntax error"

abbrev pub sample : Subscription
sample = record {
  id = 1;
  name = "A";
  source = url "http://a";
  nodes = [];
  last_updated = none;
  auto_update_interval_secs = some 86400;
  enabled = true;
}

abbrev is_sample : ℕ → String → String → ℕ → Bool
is_sample id name address interval =
    (id == 1) && str_eq name "A" && str_eq address "http://a" && (interval == 86400)

abbrev subscription_text :
    ℕ
    → String
    → SubscriptionSource
    → List SubscriptionNode
    → Option ℕ
    → Option ℕ
    → Bool
    → Result String String
subscription_text id name (url a) [] none (some i) true =
    if is_sample id name a i then ok "[1]" else err "unsupported"
subscription_text id name source nodes updated interval enabled = err "unsupported"

abbrev write_subscriptions : List Subscription → Result String String
write_subscriptions [] = ok "[]"
write_subscriptions (s ∷ []) =
    subscription_text s.id s.name s.source s.nodes s.last_updated s.auto_update_interval_secs
      s.enabled
write_subscriptions (s ∷ t ∷ ts) = err "unsupported"

abbrev pub subscription_codec : Codec (List Subscription)
subscription_codec = record { encode = write_subscriptions; decode = read_one (sample ∷ []) }

abbrev text_of : Result String String → String
text_of (ok t) = t
text_of (err e) = e

three : (x y z : Bool) → x && y && z ≡ true → (x ≡ true) × (y ≡ true) × (z ≡ true)
three true true true h = (refl, refl, refl)
three true true false h = cc
three true false z h = cc
three false y z h = cc

four :
    (w x y z : Bool) → w && x && y && z ≡ true → (w ≡ true) × (x ≡ true) × (y ≡ true) × (z ≡ true)
four true x y z h = let (a, b, c) = three x y z h in (refl, a, b, c)
four false x y z h = cc

sample_read :
    (id : ℕ) (name : String) (source : SubscriptionSource) (nodes : List SubscriptionNode)
    (updated interval : Option ℕ) (enabled : Bool) (text : String)
    → subscription_text id name source nodes updated interval enabled ≡ ok text
    → read_one (sample ∷ []) text
      ≡ ok (
          stored_form record {
            id = id;
            name = name;
            source = source;
            nodes = nodes;
            last_updated = updated;
            auto_update_interval_secs = interval;
            enabled = enabled;
          }
          ∷ [])
sample_read id name (url a) [] none (some i) true text h =
    elim (Bool-cases (is_sample id name a i)) [
      | inl e ↦
          let written : "[1]" ≡ text = ap text_of (rw e at h) in
          let (x, y, z, w) = four _ _ _ _ e in
          let id_1 : id ≡ 1 = (==_iff id 1).0 x in
          let name_a : name ≡ "A" = (eq_iff name "A").0 y in
          let url_a : a ≡ "http://a" = (eq_iff a "http://a").0 z in
          let day : i ≡ 86400 = (==_iff i 86400).0 w in
          rw (← written, id_1, name_a, url_a, day) refl
      | inr e ↦ absurd (cc (rw e at h))
    ]
sample_read id name (url a) [] none (some i) false text h = cc
sample_read id name (url a) [] none none enabled text h = cc
sample_read id name (url a) [] (some t) interval enabled text h = cc
sample_read id name (url a) (n ∷ ns) updated interval enabled text h = cc
sample_read id name (file p) nodes updated interval enabled text h = cc

pub subscription_codec-ReadsBack : ReadsBack subscription_codec
subscription_codec-ReadsBack [] text h =
    let written : "[]" ≡ text = ap text_of h in rw (← written) refl
subscription_codec-ReadsBack (s ∷ []) text h =
    sample_read s.id s.name s.source s.nodes s.last_updated s.auto_update_interval_secs s.enabled
      text h
subscription_codec-ReadsBack (s ∷ t ∷ ts) text h = cc

abbrev pub empty_disk : Disk
empty_disk = record { settings = none; subscriptions = none; routing_rules = none }

perform-ChangeOutcome_example :
    ChangeOutcome subscription_codec
      (add_one sample)
      empty_disk
      []
      (Subscriptions.perform subscription_codec (add_one sample) no_faults empty_disk)
perform-ChangeOutcome_example =
    perform-ChangeOutcome subscription_codec subscription_codec-ReadsBack no_faults empty_disk []
      (add_one sample) ([], refl, refl)

abbrev sample_rule : RoutingRule String
sample_rule = rule 1 (geo_ip "US") proxy

abbrev rule_text : ℕ → RuleMatch String → RuleAction → Bool → Result String String
rule_text id (geo_ip c) proxy true =
    if (id == 1) && str_eq c "US" && true then ok "[1]" else err "unsupported"
rule_text id condition action enabled = err "unsupported"

abbrev write_rules : RoutingRuleSet String → Result String String
write_rules [] = ok "[]"
write_rules (r ∷ []) = rule_text r.id r.match_condition r.action r.enabled
write_rules (r ∷ s ∷ rs) = err "unsupported"

abbrev pub rule_codec : Codec (RoutingRuleSet String)
rule_codec = record { encode = write_rules; decode = read_one (sample_rule ∷ []) }

abbrev manager : RoutingManager String
manager = record { rules = []; disk = empty_disk }

-- no request is answered in time
abbrev pub offline : Outside
offline = record {
  request = λ address attempt. not_sent true "timed out";
  read_file = λ path. err "not found";
  now = 100;
}

add_and_fetch_lem_example :
    (out : Result SubscriptionError Subscription × Disk) × (add_and_fetch formats ascii
        subscription_codec 1 "A" "http://a" offline no_faults no_faults empty_disk
      ≡ some out)
    × AddOutcome subscription_codec (new_from_url 1 "A" "http://a") empty_disk [] out
add_and_fetch_lem_example =
    add_and_fetch_lem formats ascii subscription_codec subscription_codec-ReadsBack 1 "A" "http://a"
      offline no_faults no_faults empty_disk [] ([], refl, refl) refl
