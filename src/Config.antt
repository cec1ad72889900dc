-- ===== src/Config.antt =====
-- The configuration generators of crates/core/src/config/.
pub mod Json
pub mod Common
pub mod V2ray
pub mod Xray
pub mod Singbox
pub mod Generator
pub mod Writer
