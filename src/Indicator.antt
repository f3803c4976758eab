-- ===== src/Indicator.antt =====
-- crates/core/src/indicator/mod.rs: indicators, their parsers and the investigation policy.
pub mod Defs
pub mod Hash
pub mod Refang
pub mod Domain
pub mod Url
pub mod Policy
pub mod Investigable
pub mod Equality
