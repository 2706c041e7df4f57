-- ===== src/Config.antt =====
-- src/config.rs: the settings, and the tests that say whether a host bypasses the proxy.
pub mod Cidr
pub mod Suffix
pub mod Request
pub mod Address
pub mod Bypass
mod Addressed
mod Runs
