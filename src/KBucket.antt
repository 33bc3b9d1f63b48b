-- ===== src/KBucket.antt =====
-- The routing table: the package kbucket.
pub mod Bucket
pub mod Buckets
pub mod Table
pub mod Change
pub mod Nearest
pub mod Listing
pub mod Refresh
pub mod Invariant
pub mod Tests
