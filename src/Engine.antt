-- ===== src/Engine.antt =====
-- crates/collectors/src/engine/ and collector.rs: the engine that runs collectors within limits.
pub mod Collectors
pub mod State
pub mod Schedule
pub mod Execute
pub mod Keeps
pub mod Reachable
pub mod Pivots
pub mod Tasks
pub mod Accounted
pub mod Runs
pub mod Intact
pub mod Outcome
pub mod Finished
pub mod Returned
pub mod Enough
pub mod Registry
