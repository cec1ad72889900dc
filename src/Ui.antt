-- ===== src/Ui.antt =====
-- crates/ui/src/ and crates/tray/src/: the state of the windows and what their messages do. Widgets
-- are not modelled; what a handler asks of them is an effect in a list.
pub mod App
pub mod Subscriptions
pub mod Tray
pub mod Logs
pub mod Wizard
