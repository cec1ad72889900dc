-- ===== src/Ui/Logs.antt =====
-- crates/ui/src/logs.rs: the page of the backend's output. The text buffer is its text.
use v2ray_rs.Base.{String, Bool, false, if◌then◌else◌, ◌⧺◌, is_empty_str}

pub record LogsPage : Type 0 where
  pub running : Bool
  pub log_buffer : String

pub data LogsMsg : Type 0 where
  append_line : String → LogsMsg
  clear : LogsMsg
  set_running : Bool → LogsMsg

abbrev pub new : LogsPage
new = record { running = false; log_buffer = "" }

unfoldable pub update : LogsMsg → LogsPage → LogsPage
update (append_line line) p = record p {
  log_buffer = if is_empty_str p.log_buffer then line else p.log_buffer ⧺ "\n" ⧺ line;
}
update clear p = record p { log_buffer = "" }
update (set_running running) p = record p { running = running }
