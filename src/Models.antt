-- ===== src/Models.antt =====
-- The data models of crates/core/src/models/, one child for each file.
pub mod Proxy
pub mod Settings
pub mod Subscription
pub mod Validation
pub mod Routing
pub mod Presets
