-- ===== src/Coordinator/Checks.antt =====
-- A round of `checkHeartbeats` (coordinator/src/SNSCoordinator.cpp) and the invariant.
pub mod Servers
pub mod Clusters
pub mod Rounds
unfoldable pub use distributed_sns.Coordinator.Checks.Servers.*
unfoldable pub use distributed_sns.Coordinator.Checks.Clusters.*
unfoldable pub use distributed_sns.Coordinator.Checks.Rounds.*
