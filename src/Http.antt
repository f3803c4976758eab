-- ===== src/Http.antt =====
-- crates/collectors/src/http/: the network policy, redirects, name resolution and response bodies.
pub mod Policy
pub mod Allowed
pub mod Redirects
pub mod Body
