-- ===== src/Checkpoint.antt =====
-- src/common/checkpoint: exactly-once processing of redelivered messages across crashes.
pub mod Deduplicator
pub mod Snapshotable
pub mod Checkpointer
pub mod Spill
pub mod Dispatch
