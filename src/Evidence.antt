-- ===== src/Evidence.antt =====
-- crates/core/src/: entities, relationships, findings, confidence scores and observations.
pub mod Entities
pub mod Confidence
pub mod Findings
pub mod Relationships
pub mod Observations
pub mod Dns
