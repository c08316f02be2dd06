-- ===== src/Network.antt =====
-- server/src/SNSServer.cpp where servers meet the coordinator and one another: registration and
-- heartbeats, and `propogateHelper`. A call runs to its end, the calls inside of it included, before
-- the next one starts.
pub mod State
pub mod Propagation
pub mod Startup
pub mod Logins
pub mod Delivery
pub mod Sending
pub mod Replication
pub mod Placement
pub mod Termination
pub mod Split
pub mod Posting
pub mod Posts
mod Tests
