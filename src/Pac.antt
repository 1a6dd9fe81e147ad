-- ===== src/Pac.antt =====
-- src/pac: proxy auto-configuration.
pub mod Chain
pub mod Outcome
pub mod Policy
pub mod Wildcard
pub mod Hostfn
pub mod Slots
pub mod Time
