-- ===== src/Coordinator.antt =====
-- coordinator/src/SNSCoordinator.{h,cpp}: the coordinator. A `shared_ptr<zNode>` is a server of a
-- cluster, since the servers are never dropped nor replaced. Times and counts do not overflow, and
-- what is logged is left out. A call returns the coordinator, what it fills in, and its status.
pub mod State
pub mod Servers
pub mod Heartbeat
pub mod Clients
pub mod Locks
pub mod Invariant
pub mod Elections
pub mod Registration
pub mod Checks
pub mod Assign
pub mod Failover
pub mod Races
pub mod Masters
pub mod Serving
pub mod Ids
pub mod Reach
mod Tests
