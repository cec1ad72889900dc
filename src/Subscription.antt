-- ===== src/Subscription.antt =====
-- crates/subscription/: fetching, parsing and updating of subscriptions.
pub mod Formats
pub mod Parser
pub mod Fetch
pub mod Update
pub mod Service
