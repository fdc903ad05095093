-- ===== src/Tests.antt =====
-- The theorems at concrete inputs.
pub mod Data
pub mod RouterRuns
pub mod TaskRuns
pub mod ServerRuns
pub mod StorageRuns
pub mod AgentRuns
pub mod AccountRuns
pub mod AlertRuns
pub mod StartRuns
pub mod LoopRuns
pub mod HistoryRuns
pub mod WorldRuns
pub mod HoldRuns
