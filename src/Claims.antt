-- ===== src/Claims.antt =====
-- src/lib/claims: what a predicate allows, and how a newer claim supersedes an older one.
pub mod Policies
pub mod Shapes
pub mod Repair
pub mod Rows
pub mod Lifecycle
