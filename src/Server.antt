-- ===== src/Server.antt =====
-- server/src/SNSServer.{h,cpp}: the server of the social network.
pub mod State
pub mod Text
pub mod Clients
pub mod Posts
pub mod Replay
pub mod Api
pub mod Answered
pub mod Lines
pub mod Replays
pub mod Sessions
pub mod Presence
pub mod Sync
pub mod Timeline
pub mod Links
pub mod Written
pub mod Restored
mod Tests
