-- ===== src/Tests.antt =====
-- The theorems at concrete inputs.
mod Claims
mod Lifecycle
mod Partition
mod Retirement
mod Processing
mod Redirects
mod Erasure
mod Sources
mod Uploads
mod Identity
mod Chunking
