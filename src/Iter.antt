-- ===== src/Iter.antt =====
-- ffi/src/iter.rs: iteration over a snapshot or a transaction.
pub mod Bounds
pub mod Prefix
pub mod Machine
pub mod Calls
pub mod Walk
pub mod Merged
pub mod Batches
pub mod Listed
