-- ===== src/Tests.antt =====
-- Concrete services and events, and the theorems of the library applied to them.
pub mod Samples
pub mod SharedRuns
pub mod WorkerRuns
pub mod ClaimRuns
pub mod IngestionRuns
pub mod Database
pub mod TableRuns
pub mod StoreRuns
pub mod LimitRuns
pub mod LoopRuns
pub mod LifecycleRuns
pub mod SimulatorRuns
pub mod TaskRuns
