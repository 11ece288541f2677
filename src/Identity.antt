-- ===== src/Identity.antt =====
-- src/lib/identity-resolution.ts: whether a candidate is a node that is there already.
pub mod Rows
pub mod Profile
pub mod Signals
pub mod Resolve
