-- ===== src/Coordinator/Races.antt =====
-- `checkHeartbeats` runs in a thread of its own and takes no lock: here it is stopped between the
-- two writes for a server at its second missed heartbeat, and a `Heartbeat` of that server comes in.
pub mod Halves
pub mod Race
unfoldable pub use distributed_sns.Coordinator.Races.Halves.*
unfoldable pub use distributed_sns.Coordinator.Races.Race.*
