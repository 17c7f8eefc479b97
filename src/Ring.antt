-- ===== src/Ring.antt =====
-- The affinity ring: src/common/comms/eof_handler and the ring topology of
-- src/common/comms/middleware.
pub mod Completion
pub mod Cluster
pub mod SentCounts
pub mod Node
pub mod Merge
pub mod Topology
pub mod Filter
pub mod Snapshots
