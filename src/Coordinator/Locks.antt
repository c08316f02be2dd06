-- ===== src/Coordinator/Locks.antt =====
-- The file locks of the coordinator, in the view of its file system: the master file of a cluster
-- stands at `cluster<id>/master`, a slave's at `cluster<id>/slave<id>`.
pub mod Names
pub mod Table
pub mod Changes
unfoldable pub use distributed_sns.Coordinator.Locks.Names.*
unfoldable pub use distributed_sns.Coordinator.Locks.Table.*
unfoldable pub use distributed_sns.Coordinator.Locks.Changes.*
