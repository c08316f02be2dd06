-- ===== src/Network/State.antt =====
-- A coordinator and the servers that are up, each at its address.
use distributed_sns.Base.{[], ◌∷◌, ◌++◌, Str, ◌==◌, str_eq, if◌then◌else◌}
use distributed_sns.Base.Map.{Map}
use distributed_sns.Coordinator.State.{ServerInfo, PathReply, Coordinator}
use distributed_sns.Server.State.{Server}

-- `serverInfo`, `path` and the rest of the server; `master` is a field of the latter.
pub record Node : Type 0 where
  pub info : ServerInfo
  pub path : PathReply
  pub server : Server

pub record Network : Type 0 where
  pub coordinator : Coordinator
  pub nodes : Map Str Node

-- The address that a stub is made for.
abbrev pub address : ServerInfo → Str
address s = s.hostname ++ (b':' ∷ s.port)

-- A server that has stopped does not answer.
unfoldable pub erase : Str → Map Str Node → Map Str Node
erase a [] = []
erase a ((b, n) ∷ m) = let rest = erase a m in if a == b then rest else (b, n) ∷ rest
