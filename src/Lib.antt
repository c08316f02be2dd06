-- ===== src/Lib.antt =====
-- The distributed social network service: a coordinator, servers and clients. This library models
-- the coordinator (coordinator/src), the in-memory file system in which it keeps its locks
-- (FSWrapper/FSWrapper), the server (server/src), and the client (client/src).
--
-- The parts and their files:
-- * FsUtils models FSWrapper/FSWrapper/filesystem_utils.cpp. A position in a string is the
--   suffix that starts there. The fuel of the split loop is one more than the length of the
--   string, and each round shortens the suffix.
-- * FsTree models FSTreeNode.{h,cpp}, with a node as a tree of nodes: a shared pointer to a
--   node is a place in the tree, and a write through it replaces the node there.
-- * FsMemory models FSMemory.{h,cpp}. create, write and remove share their frame (lock, refuse
--   the empty path, walk to the parent, act, unlock), which is `operate`; what they do at the
--   parent is a body. A method returns the object after the call with its result, or the fault
--   that stops it: a null pointer, the last element of an empty vector, an index out of range, or
--   a lock that is never free. FsMemory.View is the abstract file system, a function from paths
--   to what stands there.
-- * FsLocal models FSLocal.{h,cpp}, with which a server keeps its two files. FsLocal.Storage is
--   what it uses of std::filesystem and of the file streams: a disk as a list of paths with their
--   entries, a working directory, and the errors that throw. Links, access rights and the names .
--   and .. are left out.
-- * Coordinator models SNSCoordinator.{h,cpp}: State holds the records and messages, Servers
--   the searches for masters, Heartbeat the RPC Heartbeat with the election and the round of
--   checkHeartbeats, and Clients the calls of the clients. Coordinator.Invariant says how the
--   marks of the servers and the file locks agree, and Coordinator.Reach has the calls as steps,
--   each of them whole. The program runs them in threads without a common lock; Coordinator.Races
--   takes the heartbeat check apart where a heartbeat can come in.
-- * Server models SNSServer.{h,cpp}: State holds the clients as a heap with addresses, the
--   database, the posts and the two local files as their contents; Text the lines and times,
--   Clients the searches and helpers, Posts the posts and the timeline, Replay what is read from
--   the files, and Api the calls of the clients. What is written to a stream or sent to other
--   servers is appended to a list. The time zone (localtime, get_time and mktime) is a parameter.
--   Server.Sync and Server.Restored are about the two files, as they are written and read by
--   another server, Server.Links about who follows whom, and Server.Timeline about what is shown.
-- * Client models client/src/client.{h,cpp}: State the class and the interface to the other
--   programs, Rpc the calls of the server, Commands the reading, sending and printing of commands
--   and the loop runClientBash, Chat the two threads of the timeline, and Connection how the
--   client finds a server and keeps to it. The end of the standard input stops a loop in the
--   model. The calls go to the server that the stub is connected to; the thread refreshServer is
--   a function of its own.
-- * Network models SNSServer.cpp where servers meet the coordinator and one another: State the
--   servers that are up, by address; Startup connectToCoordinator and sendHeartbeat; Propagation
--   propogateHelper, with the handlers of the models above. A call runs to its end before the
--   next one starts; how deep servers may call servers is the fuel, and three is enough for a
--   login (Network.Termination). A server that faults is gone. A fault of the coordinator ends
--   the run.
-- * Base holds strings as lists of bytes, integers, maps as lists of pairs in key order,
--   decimal numbers and results.
--
-- The coordinator calls the file system with the paths of its lock files: /cluster<id>/master,
-- and /cluster<id>/slave<id>. A call of the coordinator is one step; the clock is an argument,
-- one time for each server that checkHeartbeats looks at. Integers are unbounded where the
-- program has int, and times are seconds as natural numbers.
--
-- FsMemory.Print models toString and saveToDisk; what is written to the disk is a list, and the
-- answers of stat and mkdir are parameters.
--
-- Not modelled: the text of the log lines, failures of the local disk, the channels between the
-- programs, the test shell and the start-up code.
mod Base
pub mod FsUtils
pub mod FsTree
pub mod FsMemory
pub mod FsLocal
pub mod Coordinator
pub mod Server
pub mod Client
pub mod Network
