-- ===== src/Erasure.antt =====
-- src/lib/source-lifecycle.ts: erasing a source, with all that was derived from it.
pub mod Rows
pub mod Walk
pub mod Derivatives
pub mod Reviews
pub mod ReadModels
