-- ===== src/Coordinator/Locks/Changes.antt =====
-- What the coordinator does to its lock files.
pub mod Created
pub mod Kept
unfoldable pub use distributed_sns.Coordinator.Locks.Changes.Created.*
unfoldable pub use distributed_sns.Coordinator.Locks.Changes.Kept.*
