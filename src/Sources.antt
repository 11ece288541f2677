-- ===== src/Sources.antt =====
-- src/lib/source-lifecycle.ts: the commands that tombstone, restore and purge a source.
pub mod Rows
pub mod Tree
pub mod Actions
pub mod Commands
pub mod Uploads
pub mod Cleanup
pub mod Unsettled
