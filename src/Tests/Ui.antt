-- ===== src/Tests/Ui.antt =====
-- Runs of the window and of the page of the subscriptions.
use mathlib.Core.List.{Perm}
use v2ray_rs.Models.Proxy.{ProxyNode}
use v2ray_rs.Models.Settings.{AppSettings, default_settings}
use v2ray_rs.Models.Subscription.{Subscription, SubscriptionNode}
use v2ray_rs.Process.State.{running, stopped}
use v2ray_rs.Storage.Persistence.{Codec, Disk, load_subscriptions}
use v2ray_rs.Storage.Persistence.Subscriptions.{Holds, no_faults}
use v2ray_rs.Subscription.Update.{UpdateResult}
use v2ray_rs.Subscription.Service.{SubscriptionError, refresh}
use v2ray_rs.Ui.App.{
  App, Setting, Surroundings, settings_changed, connect, disconnect, process_state_changed,
  tray_quit, update, handle_all, init, stored_nodes,
}
use v2ray_rs.Ui.App.Consistency.{Shown, handle_all-IsConsistent}
use v2ray_rs.Ui.App.Connecting.{ConnectOutcome, connect_lem}
use v2ray_rs.Ui.App.Reconnecting.{Reconnected, reconnects}
use v2ray_rs.Ui.Subscriptions
use v2ray_rs.Ui.Subscriptions.{
  SubscriptionsPage, delete_subscription, sort_by_latency, refresh_done, update_cmd, by_latency,
}
use v2ray_rs.Ui.Subscriptions.Synced.{UpdateOutcome, update_lem}
use v2ray_rs.Ui.Subscriptions.Commands.{refresh-update_cmd}
use v2ray_rs.Ui.Subscriptions.Sorting.{Rising, sort_by_latency_lem}
use v2ray_rs.Ui.Tray.{error_label}
use v2ray_rs.Ui.Tray.Labels.{error_label_lem}
use v2ray_rs.Tests.Samples.{ascii, networks, formats, named_node, plain_node}
use v2ray_rs.Tests.Storage.{
  subscription_codec, subscription_codec-ReadsBack, rule_codec, offline, sample,
}
use v2ray_rs.Base.{
  ◌≤◌, ◌<◌, String, ◌≡◌, refl, ◌≢◌, ◌⊎◌, true, false, none, some, List, [], ◌∷◌, ◌==◌, find, ◌⧺◌,
  ok, err, byte_length,
}

abbrev with_binary : AppSettings
with_binary = record default_settings {
  backend = record default_settings.backend { binary_path = some "/usr/bin/xray" };
}

abbrev settings_codec : Codec AppSettings
settings_codec = record { encode = λ s. ok "{}"; decode = λ t. ok with_binary }

abbrev fast : SubscriptionNode
fast = record { node = named_node; enabled = true; last_latency_ms = some 20 }

abbrev slow : SubscriptionNode
slow = record { node = plain_node; enabled = true; last_latency_ms = none }

abbrev filled : Subscription
filled = record sample { nodes = slow ∷ fast ∷ [] }

-- a format that reads one list
abbrev filled_codec : Codec (List Subscription)
filled_codec = record { encode = λ subs. err "read-only"; decode = λ t. ok (filled ∷ []) }

abbrev setting : Setting String
setting = record {
  u = ascii;
  net = networks;
  settings_codec = settings_codec;
  subscriptions_codec = filled_codec;
  rules_codec = rule_codec;
  to_json = λ v. ok "{}";
  data_dir = "/data";
  has_tray = true;
}

abbrev fine : Surroundings
fine = record {
  settings = no_faults;
  subscriptions = no_faults;
  rules = no_faults;
  writer = record { create_dir = none; write = none };
}

abbrev disk : Disk
disk = record { settings = some "{}"; subscriptions = some "[]"; routing_rules = none }

handle_all-IsConsistent_example : Shown setting (
    handle_all setting
      ((fine, connect)
        ∷ (fine, process_state_changed running)
        ∷ (fine, disconnect)
        ∷ (fine, process_state_changed stopped)
        ∷ (fine, tray_quit)
        ∷ [])
      (some (init setting fine disk λ path. none)))
handle_all-IsConsistent_example =
    handle_all-IsConsistent setting fine disk (λ path. none)
      ((fine, connect)
        ∷ (fine, process_state_changed running)
        ∷ (fine, disconnect)
        ∷ (fine, process_state_changed stopped)
        ∷ (fine, tray_quit)
        ∷ [])

abbrev started : App
started = init setting fine disk λ path. none

connect_lem_example :
    (a : App) × (update setting fine connect started ≡ some a)
    × ConnectOutcome setting fine started a
connect_lem_example = connect_lem setting fine started

abbrev connected : App
connected = record started {
  process_handle = some 0;
  spawned = 1;
  process_state = running;
  connected = true;
}

some_nodes : (n : ProxyNode) (ns : List ProxyNode) → n ∷ ns ≢ []
some_nodes n ns h = cc

connected-nodes : stored_nodes setting fine connected ≢ []
unfolding load_subscriptions init
connected-nodes = some_nodes plain_node (named_node ∷ [])

reconnects_example :
    (a : App) × (handle_all setting
        ((fine, settings_changed with_binary)
          ∷ (fine, disconnect)
          ∷ (fine, process_state_changed stopped)
          ∷ (fine, connect)
          ∷ [])
        (some connected)
      ≡ some a)
    × Reconnected setting 0 with_binary "/usr/bin/xray" fine connected a
reconnects_example =
    reconnects setting 0 with_binary "/usr/bin/xray" connected fine fine fine fine refl refl
      connected-nodes (λ v. ("{}", refl)) refl

abbrev page : SubscriptionsPage
page = record {
  subscriptions = sample ∷ [];
  auto_update_interval_secs = 3600;
  testing_latency = [];
  locked = false;
  disk = record { settings = none; subscriptions = some "[1]"; routing_rules = none };
  sent = [];
}

refresh-update_cmd_example :
    (d : Disk) × (((s : Subscription) × (result : UpdateResult) × (refresh formats ascii
            subscription_codec 1 offline no_faults no_faults page.disk
          ≡ some (ok (s, result), d))
        × Holds subscription_codec d
            (update_cmd subscription_codec no_faults
              (refresh_done 1 s result)
              (record page { disk = d })).subscriptions)
      ⊎ ((e : SubscriptionError) × (refresh formats ascii subscription_codec 1 offline no_faults
              no_faults page.disk
            ≡ some (err e, d))
          × Holds subscription_codec d page.subscriptions))
refresh-update_cmd_example =
    refresh-update_cmd formats ascii subscription_codec subscription_codec-ReadsBack 1 offline
      no_faults no_faults no_faults page (sample ∷ [], refl, refl)

update_lem_example :
    UpdateOutcome subscription_codec subscription_codec-ReadsBack
      (delete_subscription 1)
      page
      (Subscriptions.update subscription_codec no_faults 2 (delete_subscription 1) page)
update_lem_example =
    update_lem subscription_codec subscription_codec-ReadsBack page (sample ∷ [], refl, refl) 2
      (delete_subscription 1)

abbrev filled_page : SubscriptionsPage
filled_page = record page { subscriptions = filled ∷ [] }

sort_by_latency_lem_example :
    (p : SubscriptionsPage) × (s : Subscription) × (Subscriptions.update subscription_codec
        no_faults 2
        (sort_by_latency 1)
        filled_page
      ≡ some p)
    × (find (λ t. t.id == 1) p.subscriptions ≡ some s)
    × Rising s.nodes
    × Perm s.nodes filled.nodes
sort_by_latency_lem_example =
    sort_by_latency_lem subscription_codec no_faults 2 1 filled_page filled refl

abbrev long_message : String
long_message = "sing-box exited with status 1: the address is already in use"

error_label_lem_example :
    (label : String) × (error_label long_message ≡ some label)
    × (byte_length label ≤ 57)
    × (((byte_length long_message ≤ 50) × (label ≡ "Error: " ⧺ long_message))
        ⊎ ((50 < byte_length long_message)
            × (t : String) × (rest : String) × (long_message ≡ t ⧺ rest)
            × (label ≡ "Error: " ⧺ t ⧺ "...")))
error_label_lem_example = error_label_lem long_message
