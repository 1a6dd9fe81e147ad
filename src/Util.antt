-- ===== src/Util.antt =====
-- src/util.rs
pub mod HostPort
pub mod Glob
pub mod Percent
pub mod Redact
pub mod Hash
