-- ===== src/Partition.antt =====
-- src/lib/partition-access.ts: which rows a request may read and write.
pub mod Tables
pub mod Access
pub mod Fence
pub mod Retirement
