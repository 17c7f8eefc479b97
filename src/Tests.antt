-- ===== src/Tests.antt =====
-- Concrete runs at which the theorems of the library apply.
pub mod RingRuns
pub mod CheckpointRuns
pub mod SupervisorRuns
pub mod MessageRuns
pub mod UseCaseRuns
pub mod GraphRuns
pub mod MergeRuns
pub mod ClientRuns
pub mod Codec
pub mod PayloadRuns
