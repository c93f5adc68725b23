-- ===== src/Go.antt =====
-- The Go binding: errors.go and regolith.go. Its options.go is Options/Go, its batch.go Batch/Pack.
pub mod Errors
pub mod Store
pub mod Model
pub mod Finish
pub mod Tidy
pub mod Bodies
pub mod Perform
pub mod Steps
pub mod Refine
pub mod Iter
pub mod Txn
pub mod Opening
pub mod Ranges
pub mod Buffers
pub mod Handles
mod Runs
