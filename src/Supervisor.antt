-- ===== src/Supervisor.antt =====
-- src/supervisor/: liveness of the nodes, their revival, and the election of the leader.
pub mod Registry
pub mod Reviver
pub mod Election
