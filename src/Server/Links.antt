-- ===== src/Server/Links.antt =====
-- Who follows whom: the follower and following lists of all clients of a server.
pub mod Counts
pub mod Fields
pub mod Invariant
pub mod Unlinks
pub mod Logins
pub mod Follows
pub mod Agreement
