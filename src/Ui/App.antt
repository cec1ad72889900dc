-- ===== src/Ui/App.antt =====
-- crates/ui/src/app.rs: the window's handlers. What a handler sends to others is appended to `sent`.
-- A process that was spawned is known by the number of those before it; its task answers by
-- `process_state_changed` messages. What fails in the surroundings is an argument. A result `none` is
-- a panic.
pub mod Effects
pub mod Consistency
pub mod Connecting
pub mod Reconnecting
use v2ray_rs.Models.Proxy.{ProxyNode}
use v2ray_rs.Models.Settings.{AppSettings, Language, default_settings}
use v2ray_rs.Models.Subscription.{Subscription, enabled_nodes, has_enabled_nodes}
use v2ray_rs.Models.Validation.{IpNetApi}
use v2ray_rs.Models.Routing.{RoutingRule, RoutingRuleSet, enabled_rules}
use v2ray_rs.Models.Routing
use v2ray_rs.Config.Json.{Value}
use v2ray_rs.Config.Common.{ConfigError, no_nodes, serialize, io}
use v2ray_rs.Config.Generator.{new_writer}
use v2ray_rs.Config.Writer
use v2ray_rs.Config.Writer.{write_config}
use v2ray_rs.Process.State.{ProcessState, stopped, starting, running, stopping, error}
use v2ray_rs.Storage.Persistence.{
  PersistenceError, Codec, Disk, Faults, save_settings, load_settings, load_subscriptions,
  load_routing_rules,
}
use v2ray_rs.Base.{
  ℕ, zero, suc, ◌+◌, ◌-◌, ◌*◌, ◌/◌, ◌%◌, ◌^◌, ◌≤◌, ◌<◌, Char, code, String, ◌≡◌, refl, sym, ap, ◌∙◌,
  ◌≢◌, ◌↔◌, ◌⊎◌, inl, inr, Bool, true, false, not, ◌&&◌, ◌||◌, Option, none, some, List, [], ◌∷◌,
  ◌++◌, map, Memᴰ, arith, eq_iff, eq_refl, ltb, leb, ◌==◌, if◌then◌else◌, ==_iff, Bool-cases,
  Option-cases, is_some, unwrap_or, length, get_elem?, insert_at, erase_at, drop, keep_if, any, all,
  find, All, length-append, length-map, All-append, ◌⧺◌, str_eq, chars, is_empty_str,
  is_ascii_uppercase, is_ascii_lowercase, is_ascii_digit, char_is, Unicode, trim, strip_prefix,
  split_once, rsplit_once, split, to_string, leading, leading-to_string, Result, ok, err, ◌>>=◌,
  ◌>>◌, is_ok, ok_or, to_option, map_err, contains_str, parse_unsigned, parse_unsigned-bound, lacks,
  strip_prefix-append, split_once-append, rsplit_once-append, lacks-append, all_digits-lacks,
  parse_unsigned-to_string, split_once-lacks, all_digits, to_string-digits, trim-digits, ℤ, pos,
  negsuc, as_i32, as_i64, leb_ℤ, as_i32-pos, as_i64-pos, join, Files, put, put_self, put_other,
  join-str_eq, leb_str, leb_str_total, leb_str_trans, insert_sorted, sort_by, IsSorted,
  sort_by-perm, sort_by-IsSorted, map_chars, join_words, all_chars, all_chars-map_chars,
  all_chars-append, IsWord, All-split, All-keep_if, split-join_words, all_chars-join_words,
  strip_cr, drop_last_empty, lines, utf8_len, byte_length, char_starts, take_while_le, last_or,
  slice_to, byte_length-append, slice_to-last_start,
}

pub data AppMsg : Type 0 where
  onboarding_complete : AppSettings → Option (String × String) → AppMsg
  settings_changed : AppSettings → AppMsg
  toggle_connection connect disconnect close_requested tray_show_window tray_quit : AppMsg
  active_nodes_changed : Bool → AppMsg
  process_state_changed : ProcessState → AppMsg
  process_log_line : String → AppMsg
  open_preferences : AppMsg

-- what a handler asks of the window, its pages, the tray and the tasks of the processes
pub data Effect : Type 0 where
  toast : String → Effect
  input : AppMsg → Effect
  add_subscription : String → String → Effect
  set_locked : Bool → Effect
  set_running : Bool → Effect
  clear_logs : Effect
  append_line : String → Effect
  tray_event : (from to : ProcessState) → Effect
  spawn_process : ℕ → (binary config pid : String) → Effect
  send_stop : ℕ → Effect
  switch_language : Language → Effect
  show_preferences : AppSettings → Effect
  set_visible : Bool → Effect
  present destroy : Effect

pub record App : Type 0 where
  pub settings : AppSettings
  pub show_wizard : Bool
  pub process_handle : Option ℕ
  pub process_state : ProcessState
  pub reconnect_pending : Bool
  pub connected : Bool
  pub button_sensitive : Bool
  pub has_active_nodes : Bool
  pub disk : Disk
  pub files : Files
  pub spawned : ℕ
  pub sent : List Effect

-- what the view shows of the button
abbrev pub set_label : App → String
set_label a = if a.connected then "Disconnect" else "Connect"

abbrev pub set_sensitive : App → Bool
set_sensitive a = a.button_sensitive && (a.connected || a.has_active_nodes)

-- what is fixed while the program runs: the formats, the data directory, and whether there is a tray
pub record Setting (N : Type 0) : Type 0 where
  pub u : Unicode
  pub net : IpNetApi N
  pub settings_codec : Codec AppSettings
  pub subscriptions_codec : Codec (List Subscription)
  pub rules_codec : Codec (RoutingRuleSet N)
  pub to_json : Value → Result String String
  pub data_dir : String
  pub has_tray : Bool

-- the system calls that fail while a message is handled
pub record Surroundings : Type 0 where
  pub settings : Faults
  pub subscriptions : Faults
  pub rules : Faults
  pub writer : Writer.Faults

unfoldable pub send : Effect → App → App
send e a = record a { sent = a.sent ++ e ∷ [] }

abbrev pub unless_error {ℓ κ} : {E : Type ℓ} {A : Type κ} → A → Result E A → A
unless_error d (ok a) = a
unless_error d (err e) = d

abbrev pub show_config_error : ConfigError → String
show_config_error no_nodes = "no enabled proxy nodes"
show_config_error (serialize e) = "serialize config: " ⧺ e
show_config_error (io e) = "write config: " ⧺ e

abbrev pub is_connected : ProcessState → Bool
is_connected running = true
is_connected stopping = true
is_connected _ = false

abbrev pub is_sensitive : ProcessState → Bool
is_sensitive starting = false
is_sensitive stopping = false
is_sensitive _ = true

-- the toast of an error
abbrev pub announced : ProcessState → List Effect
announced (error msg) = toast ("Error: " ⧺ msg) ∷ []
announced _ = []

abbrev pub is_locked : ProcessState → Bool
is_locked running = true
is_locked starting = true
is_locked _ = false

abbrev pub told : Bool → ProcessState → ProcessState → List Effect
told false from to = []
told true from to = tray_event from to ∷ []

abbrev pub state_effects : Bool → ProcessState → ProcessState → List Effect
state_effects tray from state =
    announced state ++ set_locked (is_locked state) ∷ told tray from state

abbrev pub is_stopped : ProcessState → Bool
is_stopped stopped = true
is_stopped _ = false

abbrev pub is_ended : ProcessState → Bool
is_ended stopped = true
is_ended (error _) = true
is_ended _ = false

module _ {N : Type 0} (x : Setting N) where
  unfoldable pub apply_state : ProcessState → App → App
  apply_state state a = record a {
    connected = is_connected state;
    button_sensitive = is_sensitive state;
    process_state = state;
    sent = a.sent ++ state_effects x.has_tray a.process_state state;
  }

  -- the Stop command, and the handle is dropped
  abbrev pub stop_taken : ℕ → App → App
  stop_taken h a = send (send_stop h) (record a { process_handle = none })

  abbrev pub take_and_stop : Option ℕ → App → App
  take_and_stop none a = a
  take_and_stop (some h) a = stop_taken h a

  abbrev pub disconnect_held : Option ℕ → App → App
  disconnect_held none a = send (toast "Not connected") a
  disconnect_held (some h) a =
      send (send_stop h) (apply_state stopping (record a { process_handle = none }))

  abbrev pub reconnect_if : Bool → App → App
  reconnect_if false a = a
  reconnect_if true a = send (input connect) (record a { reconnect_pending = false })

  abbrev pub dropped_if : Bool → App → App
  dropped_if false a = a
  dropped_if true a = send (set_running false) (record a { process_handle = none })

  abbrev pub state_changed : ProcessState → App → App
  state_changed state a =
      let a' = apply_state state (dropped_if (is_ended state) a) in
      reconnect_if (is_stopped state && a'.reconnect_pending) a'

  -- a failed save is only logged
  abbrev pub saved_settings : Surroundings → AppSettings → App → App
  saved_settings w settings a = record a {
    disk = (save_settings x.settings_codec w.settings settings a.disk).1;
  }

  abbrev pub reconnecting_if : Bool → App → App
  reconnecting_if false a = a
  reconnecting_if true a = send (input disconnect) (record a { reconnect_pending = true })

  abbrev pub with_subscription : Option (String × String) → App → App
  with_subscription none a = a
  with_subscription (some (name, address)) a = send (add_subscription name address) a

  -- the nodes that a connection may use
  abbrev pub active_nodes : List Subscription → List ProxyNode
  active_nodes [] = []
  active_nodes (s ∷ subs) =
      let rest = active_nodes subs in if s.enabled then enabled_nodes s ++ rest else rest

  abbrev pub pid_path : String
  pid_path = join x.data_dir "backend.pid"

  -- the task of the process is started
  abbrev pub launch : String → String → App → App
  launch binary_path config_path a =
      let a' = send clear_logs (send (set_running true) (apply_state starting a)) in
      send (spawn_process a'.spawned binary_path config_path pid_path)
        (record a' { process_handle = some a'.spawned; spawned = a'.spawned + 1 })

  abbrev pub with_config : String → Option (Result ConfigError String × Files) → App → Option App
  with_config binary_path none a = none
  with_config binary_path (some (err e, files)) a = some (
      send (toast ("Config generation failed: " ⧺ show_config_error e))
        (record a { files = files }))
  with_config binary_path (some (ok path, files)) a =
      some (launch binary_path path (record a { files = files }))

  abbrev pub stored_rules : Surroundings → App → List (RoutingRule N)
  stored_rules w a =
      enabled_rules (unless_error Routing.new (load_routing_rules x.rules_codec w.rules a.disk))

  abbrev pub with_nodes : Surroundings → String → List ProxyNode → App → Option App
  with_nodes w binary_path [] a =
      some (send (toast "No enabled proxy nodes — add a subscription first") a)
  with_nodes w binary_path (n ∷ ns) a =
      with_config binary_path
        (write_config x.u x.net x.to_json w.writer (new_writer a.settings x.data_dir) (n ∷ ns)
          (stored_rules w a) a.settings a.files)
        a

  abbrev pub stored_nodes : Surroundings → App → List ProxyNode
  stored_nodes w a =
      active_nodes
        (unless_error [] (load_subscriptions x.subscriptions_codec w.subscriptions a.disk))

  abbrev pub with_binary : Surroundings → Option String → App → Option App
  with_binary w none a = some (send (toast "No backend binary configured — check Preferences") a)
  with_binary w (some binary_path) a = with_nodes w binary_path (stored_nodes w a) a

  abbrev pub connect_unless_held : Surroundings → Option ℕ → App → Option App
  connect_unless_held w (some h) a = some a
  connect_unless_held w none a = with_binary w a.settings.backend.binary_path a

  abbrev pub close : Bool → App → App
  close true a = send (set_visible false) a
  close false a = send destroy (take_and_stop a.process_handle a)

  unfoldable pub update : Surroundings → AppMsg → App → Option App
  unfolding apply_state send
  update w (onboarding_complete settings subscription) a = some (
      with_subscription subscription
        (record (saved_settings w settings a) { settings = settings; show_wizard = false }))
  update w (settings_changed settings) a =
      let a' = record (saved_settings w settings (send (switch_language settings.language) a)) {
        settings = settings;
      } in
      some (reconnecting_if (is_some a.process_handle) a')
  update w (active_nodes_changed has) a = some (record a { has_active_nodes = has })
  update w toggle_connection a = some (send (input (if a.connected then disconnect else connect)) a)
  update w connect a = connect_unless_held w a.process_handle a
  update w disconnect a = some (disconnect_held a.process_handle a)
  update w (process_state_changed state) a = some (state_changed state a)
  update w (process_log_line line) a = some (send (append_line line) a)
  update w close_requested a = some (close a.settings.minimize_to_tray a)
  update w tray_show_window a = some (send present (send (set_visible true) a))
  update w tray_quit a = some (send destroy (take_and_stop a.process_handle a))
  update w open_preferences a = some (send (show_preferences a.settings) a)

  -- the messages in the order in which they are handled, each with what it meets
  unfoldable pub handle_all : List (Surroundings × AppMsg) → Option App → Option App
  handle_all [] o = o
  handle_all (m ∷ ms) none = none
  handle_all ((w, m) ∷ ms) (some a) = handle_all ms (update w m a)

-- what `init` makes of the files
unfoldable pub init : {N : Type 0} → Setting N → Surroundings → Disk → Files → App
init x w disk files = record {
  settings = unless_error default_settings (load_settings x.settings_codec w.settings disk);
  show_wizard = not (is_some disk.settings);
  process_handle = none;
  process_state = stopped;
  reconnect_pending = false;
  connected = false;
  button_sensitive = true;
  has_active_nodes =
      any has_enabled_nodes
        (unless_error [] (load_subscriptions x.subscriptions_codec w.subscriptions disk));
  disk = disk;
  files = files;
  spawned = 0;
  sent = [];
}
