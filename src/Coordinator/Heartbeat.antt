-- ===== src/Coordinator/Heartbeat.antt =====
-- `Heartbeat`, which registers servers and elects the masters, and a round of `checkHeartbeats`.
use distributed_sns.Base.{
  ℕ, suc, ◌+◌, Bool, true, false, not, ◌&&◌, ◌||◌, Option, none, some, List, [], ◌∷◌, ◌++◌, Str,
  codes, ◌==◌, nat_eq, ltb, if◌then◌else◌, length, get_elem?, set_elem,
}
use distributed_sns.Base.Int.{ℤ, pos, negsuc, int_eq, int_order}
use distributed_sns.Base.Decimal.{to_string}
use distributed_sns.Base.Result.{Result, ok, ◌>>=◌}
use distributed_sns.Base.Map.{find, set}
use distributed_sns.FsMemory
use distributed_sns.FsMemory.{FsMemory}
use distributed_sns.Coordinator.State.{
  ServerInfo, PathReply, empty_path, Status, ok_status, invalid_argument, already_exists, ZNode,
  new_znode, is_active, set_from_server_info, get_address, Cluster, Coordinator,
  max_heartbeat_delay, id_to_index, get_master_filepath, get_slave_filepath,
}
use distributed_sns.Coordinator.Servers.{get_first_available_cluster_master}

-- The cluster with this index, if there is one.
unfoldable pub cluster_in_range : List Cluster → ℤ → Option (ℕ × Cluster)
cluster_in_range cs (negsuc _) = none
cluster_in_range cs (pos i) = elim (get_elem? cs i) [ none ↦ none | some m ↦ some (i, m) ]

abbrev pub put_server : List Cluster → ℕ → Cluster → ℤ → ZNode → List Cluster
put_server cs i m id z = set_elem cs i (set id z m)

-- What `read` leaves in a string that was empty.
abbrev pub or_empty : Option Str → Str
or_empty none = []
or_empty (some s) = s

-- The outcome of the leader election for one server.
pub record Election : Type 0 where
  pub filesys : FsMemory
  pub raw_path : Str
  pub master : Bool
  pub sync_address : Str

-- The master file is there: take the slave file, and the address from the master file.
unfoldable pub join_as_slave : FsMemory → ℤ → ℤ → Str → Result Election
join_as_slave fs cluster_id server_id address = do
  let raw_path = get_slave_filepath cluster_id server_id
  (fs, _) ← FsMemory.write fs raw_path address false true
  sync ← FsMemory.read fs (get_master_filepath cluster_id) 0
  ok (record { filesys = fs; raw_path = raw_path; master = false; sync_address = or_empty sync })

-- `create` failed: someone else became the leader in the meantime.
unfoldable pub lost_race : FsMemory → ℤ → Result Election
lost_race fs cluster_id = do
  sync ← FsMemory.read fs (get_master_filepath cluster_id) 0
  ok (record { filesys = fs; raw_path = []; master = false; sync_address = or_empty sync })

unfoldable pub address_of : Option ZNode → Str
address_of none = []
address_of (some z) = get_address z

-- The master file was created: write the address. A server that is not registered synchronises
-- with a master of another cluster.
unfoldable pub become_master : FsMemory → ℤ → Str → Bool → Option ZNode → Result Election
unfolding address_of
become_master fs cluster_id address registered other = do
  (fs, _) ← FsMemory.write fs (get_master_filepath cluster_id) address false true
  ok (record {
    filesys = fs;
    raw_path = get_master_filepath cluster_id;
    master = true;
    sync_address = if registered then [] else address_of other;
  })

unfoldable pub elect : FsMemory → ServerInfo → ZNode → Option ZNode → Result Election
unfolding join_as_slave lost_race become_master
elect fs s server other = do
  taken ← FsMemory.exists fs (get_master_filepath s.clusterid)
  if taken then join_as_slave fs s.clusterid s.serverid (get_address server) else do
    (fs, created) ← FsMemory.create fs (get_master_filepath s.clusterid) false true
    if created
        then become_master fs s.clusterid (get_address server) s.registered other
        else lost_race fs s.clusterid

-- `server->path` and, for a master, `server->master`.
unfoldable pub elected : Election → ZNode → ZNode
elected e z = record z { path = e.raw_path; master = z.master || e.master }

abbrev pub Reply : Type 0
Reply = Coordinator × PathReply × Status

-- The heartbeat of a server that is admitted, from its updated node on.
unfoldable pub accept : Coordinator → ServerInfo → ℕ → Cluster → ZNode → Result Reply
unfolding elected
accept c s i m server =
    let cs = put_server c.clusters i m s.serverid server in
    if server.master
    then ok (
      record c { clusters = cs },
      record { path = server.path; master = true; sync_address = [] },
      ok_status,
    )
    else do
      e ← elect c.filesys s server (get_first_available_cluster_master cs i)
      ok (
        record c {
          filesys = e.filesys;
          clusters = put_server cs i m s.serverid (elected e server);
        },
        record { path = e.raw_path; master = e.master; sync_address = e.sync_address },
        ok_status,
      )

abbrev pub invalid_cluster : ℕ → Status
invalid_cluster n =
    invalid_argument
      (codes "Invalid cluster ID specificied. Specify an ID between 1 and " ++ to_string (pos n))

abbrev pub already_active : Status
already_active = already_exists (
    codes
      "Server registration failed. There is alreadyan active server with the specified cluster and server id.")

-- An unregistered server may not take the place of an active one.
unfoldable pub heartbeat_in : Coordinator → ℕ → ServerInfo → ℕ → Cluster → Result Reply
unfolding accept
heartbeat_in c now s i m = elim (find s.serverid m) [
  | none ↦ accept c s i m (set_from_server_info now s new_znode)
  | some server ↦
      if not s.registered && is_active server
      then ok (c, empty_path, already_active)
      else accept c s i m (set_from_server_info now s server)
]

unfoldable pub heartbeat : Coordinator → ℕ → ServerInfo → Result Reply
unfolding cluster_in_range heartbeat_in
heartbeat c now s = elim (cluster_in_range c.clusters (id_to_index s.clusterid)) [
  | none ↦ ok (c, empty_path, invalid_cluster (length c.clusters))
  | some (i, m) ↦ heartbeat_in c now s i m
]

-- At the second missed heartbeat the file lock is released.
unfoldable pub count_missed : FsMemory → ZNode → Result (FsMemory × ZNode)
count_missed fs late =
    if late.missed_heartbeats == 2
    then (FsMemory.remove fs late.path >>= λ (fs, _). ok (fs, record late { master = false }))
    else ok (fs, late)

-- One server in a round of `checkHeartbeats`, which reads the clock for it.
unfoldable pub check_server : FsMemory → ℕ → ZNode → Result (FsMemory × ZNode)
unfolding count_missed
check_server fs now z =
    if ltb (z.last_heartbeat + max_heartbeat_delay) now
    then count_missed fs (record z { missed_heartbeats = suc z.missed_heartbeats })
    else ok (fs, z)

unfoldable pub check_cluster : FsMemory → (ℤ → ℕ) → Cluster → Result (FsMemory × Cluster)
unfolding check_server
check_cluster fs clock [] = ok (fs, [])
check_cluster fs clock ((id, z) ∷ m) = do
  (fs, z) ← check_server fs (clock id) z
  (fs, m) ← check_cluster fs clock m
  ok (fs, (id, z) ∷ m)

unfoldable pub check_clusters :
    FsMemory → ℕ → (ℕ → ℤ → ℕ) → List Cluster → Result (FsMemory × List Cluster)
unfolding check_cluster
check_clusters fs i clock [] = ok (fs, [])
check_clusters fs i clock (m ∷ cs) = do
  (fs, m) ← check_cluster fs (clock i) m
  (fs, cs) ← check_clusters fs (suc i) clock cs
  ok (fs, m ∷ cs)

-- One round of the loop. `clock i id` is the time that is read for that server.
unfoldable pub check_heartbeats : Coordinator → (ℕ → ℤ → ℕ) → Result Coordinator
unfolding check_clusters
check_heartbeats c clock = do
  (fs, cs) ← check_clusters c.filesys 0 clock c.clusters
  ok (record c { filesys = fs; clusters = cs })
