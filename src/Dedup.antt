-- ===== src/Dedup.antt =====
-- src/dedup.c, one child for each routine or pass.
pub mod Sort
pub mod Read
pub mod Remove
pub mod Plan
pub mod Alloc
pub mod Flush
pub mod Rollback
pub mod Commit
pub mod Write
pub mod RoundTrip
