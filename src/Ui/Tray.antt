-- ===== src/Ui/Tray.antt =====
-- crates/tray/src/tray.rs and notification.rs: the menu of the tray, the notifications, and the loop
-- that follows the changes of the state; and `truncate` of crates/ui/src/subscriptions.rs, which
-- shortens a text in the same way. A result `none` is a panic.
pub mod Labels
use v2ray_rs.Process.State.{
  ProcessState, stopped, starting, running, stopping, error, ProcessEvent, state_changed,
}
use v2ray_rs.Base.{
  ℕ, String, Bool, true, false, not, Option, none, some, List, [], ◌∷◌, ◌++◌, ltb, leb,
  if◌then◌else◌, ◌⧺◌, byte_length, char_starts, take_while_le, last_or, slice_to,
}

pub data TrayAction : Type 0 where
  connect disconnect show_window quit : TrayAction

-- an entry without an action sends nothing
pub data MenuItem : Type 0 where
  separator : MenuItem
  standard : (label : String) → (enabled : Bool) → Option TrayAction → MenuItem

-- the position of the last character that starts within the bound
abbrev pub boundary : ℕ → String → ℕ
boundary max s = last_or 0 (take_while_le max (char_starts 0 s))

abbrev pub with_dots : String → Option String → Option String
with_dots start none = none
with_dots start (some s) = some (start ⧺ s ⧺ "...")

unfoldable pub truncate : String → ℕ → Option String
truncate s max =
    if leb (byte_length s) max then some s else with_dots "" (slice_to (boundary max s) s)

unfoldable pub error_label : String → Option String
error_label msg =
    if ltb 50 (byte_length msg)
    then with_dots "Error: " (slice_to (boundary 47 msg) msg)
    else some ("Error: " ⧺ msg)

abbrev pub toggle_item : ProcessState → MenuItem
toggle_item running = standard "Disconnect" true (some disconnect)
toggle_item starting = standard "Connect" false (some connect)
toggle_item stopping = standard "Connect" false (some connect)
toggle_item _ = standard "Connect" true (some connect)

abbrev pub status_label : ProcessState → Option String
status_label stopped = some "Status: Disconnected"
status_label starting = some "Status: Connecting..."
status_label running = some "Status: Connected"
status_label stopping = some "Status: Disconnecting..."
status_label (error msg) = error_label msg

abbrev pub menu_of : MenuItem → Option String → Option (List MenuItem)
menu_of toggle none = none
menu_of toggle (some label) = some (
    toggle
    ∷ separator
    ∷ standard label false none
    ∷ separator
    ∷ standard "Open Main Window" true (some show_window)
    ∷ standard "Quit" true (some quit)
    ∷ [])

unfoldable pub menu : ProcessState → Option (List MenuItem)
unfolding error_label
menu state = menu_of (toggle_item state) (status_label state)

-- summary and body
abbrev pub notification : ProcessState → ProcessState → Option (String × String)
notification from running = some ("Proxy Connected", "Backend process started successfully")
notification from (error msg) = some ("Proxy Error", msg)
notification running stopped = some ("Proxy Disconnected", "Backend process stopped unexpectedly")
notification _ _ = none

unfoldable pub on_state_change : Bool → ProcessState → ProcessState → Option (String × String)
on_state_change enabled from to = if not enabled then none else notification from to

pub record AppTray : Type 0 where
  pub process_state : ProcessState
  pub notified : List (String × String)

abbrev pub noted : Option (String × String) → List (String × String) → List (String × String)
noted none ns = ns
noted (some n) ns = ns ++ n ∷ []

-- what the loop does with an event
unfoldable pub follow : Bool → ProcessEvent → AppTray → AppTray
unfolding on_state_change
follow enabled (state_changed from to) t = record {
  process_state = to;
  notified = noted (on_state_change enabled from to) t.notified;
}
follow enabled _ t = t
