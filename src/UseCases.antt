-- ===== src/UseCases.antt =====
-- What the controllers of the use cases compute.
pub mod MaxAmount
pub mod BankNames
pub mod Averages
pub mod Filters
pub mod Conversion
pub mod Graphs
pub mod HighDegree
pub mod Paths
pub mod Prune
pub mod AverageMerge
pub mod Responses
