-- ===== src/Coordinator/Tests/States.antt =====
-- States of a coordinator with two clusters, the first of which has two servers.
use distributed_sns.Base.Map.{set, insert}
use distributed_sns.Base.Decimal.{to_string}
use distributed_sns.Base.{ℕ, ◌≡◌, refl, Bool, true, false, [], ◌∷◌, codes, Str, nat_eq, str_eq}
use distributed_sns.Base.Int.{ℤ, pos, int_eq, int_order}
use distributed_sns.Base.Map.{find, set, insert}
use distributed_sns.Base.Result.{ok}
use distributed_sns.FsUtils.{split_filepath}
use distributed_sns.FsTree.{Node, node, Children, cons, nil, get_child}
use distributed_sns.FsMemory
use distributed_sns.FsMemory.{FsMemory}
use distributed_sns.Coordinator.State.{
  ServerInfo, ok_status, ZNode, Cluster, Coordinator, new_coordinator, get_master_filepath,
  get_slave_filepath,
}
use distributed_sns.Coordinator.Heartbeat.{heartbeat, elect}
use distributed_sns.Coordinator.Servers.{get_first_available_cluster_master}
use distributed_sns.Coordinator.Reach.{Reach, start, after, heartbeat_step}

abbrev pub server : ℤ → Bool → ServerInfo
server id registered = record {
  serverid = id;
  clusterid = pos 1;
  hostname = codes "h";
  port = codes "1";
  type = codes "server";
  registered = registered;
  changed = false;
}

abbrev pub stored : ℤ → Bool → Str → ℕ → ZNode
stored id master path missed = record {
  server_id = id;
  cluster_id = pos 1;
  hostname = codes "h";
  port = codes "1";
  type = codes "server";
  path = path;
  master = master;
  last_heartbeat = 100;
  missed_heartbeats = missed;
}

abbrev file_of : Str → Node
file_of n = node false n (codes "h:1") nil

abbrev pub locks : Children → FsMemory
locks files = record {
  coarse_mutex = true;
  locked = false;
  filetree =
      node true (codes "root") []
        (cons (codes "cluster1") (node true (codes "cluster1") [] files) nil);
}

abbrev pub master_file : Children
master_file = cons (codes "master") (file_of (codes "master")) nil

abbrev both_files : Children
both_files =
    cons (codes "master") (file_of (codes "master"))
      (cons (codes "slave2") (file_of (codes "slave2")) nil)

abbrev pub at_start : Coordinator
at_start = new_coordinator 2

-- The first server is the master.
abbrev pub with_one : Coordinator
with_one = record {
  filesys = locks master_file;
  clusters = ((pos 1, stored (pos 1) true (codes "/cluster1/master") 0) ∷ []) ∷ [] ∷ [];
  client_assignments = [];
}

abbrev pub with_two : Coordinator
with_two = record {
  filesys = locks both_files;
  clusters =
      ((pos 1, stored (pos 1) true (codes "/cluster1/master") 0)
        ∷ (pos 2, stored (pos 2) false (codes "/cluster1/slave2") 0)
        ∷ [])
      ∷ []
      ∷ [];
  client_assignments = [];
}

pub first_heartbeat :
    heartbeat at_start 100 (server (pos 1) false)
    ≡ ok (
      with_one,
      record { path = codes "/cluster1/master"; master = true; sync_address = [] },
      ok_status,
    )
unfolding heartbeat new_coordinator find elect FsMemory.exists split_filepath get_master_filepath
    nat_eq str_eq to_string get_child FsMemory.create FsMemory.write set
    get_first_available_cluster_master insert
first_heartbeat = refl

second_heartbeat :
    heartbeat with_one 100 (server (pos 2) false)
    ≡ ok (
      with_two,
      record { path = codes "/cluster1/slave2"; master = false; sync_address = codes "h:1" },
      ok_status,
    )
unfolding heartbeat find int_eq elect FsMemory.exists split_filepath get_master_filepath nat_eq
    str_eq to_string get_child FsMemory.write get_slave_filepath FsMemory.read set insert
second_heartbeat = refl

pub with_two_reached : Reach 2 with_two
with_two_reached =
    after with_one with_two
      (after at_start with_one start
        (heartbeat_step 100 (server (pos 1) false) with_one _ ok_status first_heartbeat))
      (heartbeat_step 100 (server (pos 2) false) with_two _ ok_status second_heartbeat)

abbrev pub first_cluster : Cluster
first_cluster =
    (pos 1, stored (pos 1) true (codes "/cluster1/master") 0)
    ∷ (pos 2, stored (pos 2) false (codes "/cluster1/slave2") 0)
    ∷ []
