-- ===== src/Server/Sessions.antt =====
-- The calls that change who follows whom, with what they write into the log.
pub mod Answers
pub mod Logins
pub mod Follows
pub mod Unfollows
unfoldable pub use distributed_sns.Server.Sessions.Answers.*
unfoldable pub use distributed_sns.Server.Sessions.Logins.*
unfoldable pub use distributed_sns.Server.Sessions.Follows.*
unfoldable pub use distributed_sns.Server.Sessions.Unfollows.*
