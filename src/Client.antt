-- ===== src/Client.antt =====
-- client/src/client.{h,cpp}: the client program. Standard input is a string of bytes, and what is
-- printed is a list of strings. The calls of the coordinator and of a server are operations of an
-- interface (Client.State).
pub mod State
pub mod Text
pub mod Rpc
pub mod Commands
pub mod Chat
pub mod Connection
mod Tests
