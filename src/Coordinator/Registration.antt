-- ===== src/Coordinator/Registration.antt =====
-- `Heartbeat` (coordinator/src/SNSCoordinator.cpp) and the invariant.
pub mod Stores
pub mod Accepted
pub mod Calls
unfoldable pub use distributed_sns.Coordinator.Registration.Stores.*
unfoldable pub use distributed_sns.Coordinator.Registration.Accepted.*
unfoldable pub use distributed_sns.Coordinator.Registration.Calls.*
