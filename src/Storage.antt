-- ===== src/Storage.antt =====
-- crates/core/src/persistence.rs, routing_manager.rs and geodata.rs: what is kept on the disk.
pub mod Persistence
pub mod RoutingManager
pub mod Geodata
pub mod CustomPresets
