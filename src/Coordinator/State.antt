-- ===== src/Coordinator/State.antt =====
-- The state of the coordinator, and the messages of its protocol (proto/snsproto/coordinator.proto).
use distributed_sns.Base.{
  ℕ, Bool, true, false, Option, List, [], ◌∷◌, ◌++◌, Str, codes, leb, replicate,
}
use distributed_sns.Base.Int.{ℤ, negsuc, int_eq, int_order, pred_ℤ}
use distributed_sns.Base.Decimal.{to_string}
use distributed_sns.Base.Map.{Map}
use distributed_sns.FsMemory
use distributed_sns.FsMemory.{FsMemory}

pub record ServerInfo : Type 0 where
  pub serverid : ℤ
  pub clusterid : ℤ
  pub hostname : Str
  pub port : Str
  pub type : Str
  pub registered : Bool
  pub changed : Bool

-- The message `Path`.
pub record PathReply : Type 0 where
  pub path : Str
  pub master : Bool
  pub sync_address : Str

-- A `Path` in which nothing is set.
abbrev pub empty_path : PathReply
empty_path = record { path = []; master = false; sync_address = [] }

pub data Status : Type 0 where
  ok_status : Status
  invalid_argument already_exists unavailable : Str → Status

-- `zNode`, with its defaults.
pub record ZNode : Type 0 where
  pub server_id : ℤ
  pub cluster_id : ℤ
  pub hostname : Str
  pub port : Str
  pub type : Str
  pub path : Str
  pub master : Bool
  pub last_heartbeat : ℕ
  pub missed_heartbeats : ℕ

abbrev pub new_znode : ZNode
new_znode = record {
  server_id = negsuc 0;
  cluster_id = negsuc 0;
  hostname = [];
  port = [];
  type = [];
  path = [];
  master = false;
  last_heartbeat = 0;
  missed_heartbeats = 0;
}

abbrev pub is_active : ZNode → Bool
is_active z = leb z.missed_heartbeats 2

abbrev pub update_heartbeat : ℕ → ZNode → ZNode
update_heartbeat now z = record z { last_heartbeat = now; missed_heartbeats = 0 }

-- Path and master stay.
abbrev pub set_from_server_info : ℕ → ServerInfo → ZNode → ZNode
set_from_server_info now s z = update_heartbeat now (record z {
  server_id = s.serverid;
  cluster_id = s.clusterid;
  hostname = s.hostname;
  port = s.port;
  type = s.type;
})

-- `setServerInfo`, into a fresh message.
abbrev pub to_server_info : ZNode → ServerInfo
to_server_info z = record {
  serverid = z.server_id;
  clusterid = z.cluster_id;
  hostname = z.hostname;
  port = z.port;
  type = z.type;
  registered = false;
  changed = false;
}

abbrev pub get_address : ZNode → Str
get_address z = z.hostname ++ (b':' ∷ z.port)

abbrev pub Cluster : Type 0
Cluster = Map ℤ ZNode

-- A server that a client is assigned to: the index of its cluster, and its id there.
abbrev pub ServerRef : Type 0
ServerRef = ℕ × ℤ

pub record Coordinator : Type 0 where
  pub filesys : FsMemory
  pub clusters : List Cluster
  pub client_assignments : Map ℤ (Option ServerRef)

abbrev pub max_heartbeat_delay : ℕ
max_heartbeat_delay = 10

-- The constructor: that many empty clusters, and a file system with a mutex.
unfoldable pub new_coordinator : ℕ → Coordinator
new_coordinator num_clusters = record {
  filesys = FsMemory.init true;
  clusters = replicate num_clusters [];
  client_assignments = [];
}

abbrev pub id_to_index : ℤ → ℤ
id_to_index id = pred_ℤ id

unfoldable pub get_master_filepath : ℤ → Str
get_master_filepath cluster_id = codes "/cluster" ++ (to_string cluster_id ++ codes "/master")

unfoldable pub get_slave_filepath : ℤ → ℤ → Str
get_slave_filepath cluster_id server_id =
    codes "/cluster" ++ (to_string cluster_id ++ (codes "/slave" ++ to_string server_id))
