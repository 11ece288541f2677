-- ===== src/Processing.antt =====
-- src/lib/ingestion/source-processing.ts: the receipts of accepted content and their life; Elsewhere has the
-- writes of other files.
pub mod Receipts
pub mod Accept
pub mod Work
pub mod Invariant
pub mod Keeps
pub mod Elsewhere
pub mod Handled
pub mod Others
pub mod Lifecycle
pub mod Reuse
pub mod Progress
pub mod Queue
