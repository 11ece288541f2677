-- ===== src/Claims/Lifecycle.antt =====
-- src/lib/claims/lifecycle.ts: how the claims of one subject and predicate supersede one another.
pub mod Order
pub mod Settle
pub mod Removal
pub mod Apply
