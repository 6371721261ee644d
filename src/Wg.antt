-- ===== src/Wg.antt =====
-- The package internal/wg.
pub mod Types
pub mod Diff
pub mod Settings
pub mod Changes
pub mod Iface
pub mod Keys
pub mod Identity
pub mod Link
pub mod Status
pub mod Provision
pub mod Applied
