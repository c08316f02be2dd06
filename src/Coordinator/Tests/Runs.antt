-- ===== src/Coordinator/Tests/Runs.antt =====
-- Runs of the heartbeats and of the search for a server.
use distributed_sns.Coordinator.Failover.{Settled, heartbeat-Settled}
use distributed_sns.Coordinator.Masters.{IsActiveMaster, get_active_master-IsActiveMaster}
use distributed_sns.Coordinator.Serving.{IsServed, get_server-IsServed}
use distributed_sns.Coordinator.Clients.{Served, get_server}
use distributed_sns.Coordinator.Servers.{get_active_master}
use distributed_sns.Coordinator.State.{ServerRef, set_from_server_info}
use distributed_sns.Base.{◌≢◌, Option, some, length, arith}
use distributed_sns.FsMemory.View.{view}
use distributed_sns.Base.Decimal.{to_string}
use distributed_sns.Base.{◌≤◌, ◌≡◌, refl, true, false, none, [], codes, ◌==◌, nat_eq, str_eq}
use distributed_sns.Base.Int.{pos, int_eq, int_order}
use distributed_sns.Base.Map.{find}
use distributed_sns.Base.Result.{ok}
use distributed_sns.FsTree.{get_child}
use distributed_sns.FsMemory
use distributed_sns.FsMemory.{FsMemory}
use distributed_sns.Coordinator.State.{
  ok_status, ZNode, Coordinator, new_coordinator, get_master_filepath,
}
use distributed_sns.Coordinator.Heartbeat.{heartbeat, check_heartbeats, Reply, Election, elect}
use distributed_sns.Coordinator.Invariant.{Inv, masters, new_coordinator-Inv}
use distributed_sns.Coordinator.Reach.{Reach, start, after, heartbeat_step, one_master, Reach-Inv}
use distributed_sns.Coordinator.Registration.{heartbeat-Inv}
use distributed_sns.Coordinator.Checks.{check_heartbeats-Inv}
use distributed_sns.Coordinator.Elections.{Joins, Wins, elect_taken, elect_free}
use distributed_sns.Coordinator.Locks.{held}
use distributed_sns.Coordinator.Tests.States.{
  server, stored, at_start, with_one, with_two, first_heartbeat, with_two_reached, first_cluster,
}

one_master_example :
    (masters first_cluster ≤ 1)
    × (FsMemory.exists with_two.filesys (get_master_filepath (pos 1))
        ≡ ok (masters first_cluster == 1))
one_master_example = one_master 2 with_two 0 first_cluster with_two_reached refl

heartbeat-Inv_example :
    (r : Reply) × (heartbeat with_two 120 (server (pos 2) true) ≡ ok r) × Inv r.0
heartbeat-Inv_example =
    heartbeat-Inv with_two 120 (server (pos 2) true) (Reach-Inv 2 with_two with_two_reached)

check_heartbeats-Inv_example :
    (c : Coordinator) × (check_heartbeats with_two (λ _ _. 200) ≡ ok c) × Inv c
check_heartbeats-Inv_example =
    check_heartbeats-Inv with_two (λ _ _. 200) (Reach-Inv 2 with_two with_two_reached)

with_one_reached : Reach 2 with_one
with_one_reached =
    after at_start with_one start
      (heartbeat_step 100 (server (pos 1) false) with_one _ ok_status first_heartbeat)

one_is_held : held with_one.filesys (pos 1) ≡ true
unfolding view get_child str_eq to_string
one_is_held = refl

elect_taken_example :
    (e : Election) × (elect with_one.filesys (server (pos 2) false) (stored (pos 2) false [] 0) none
      ≡ ok e)
    × Joins with_one.filesys (server (pos 2) false) e
elect_taken_example =
    elect_taken with_one.filesys (server (pos 2) false) (stored (pos 2) false [] 0) none
      (Reach-Inv 2 with_one with_one_reached).table one_is_held

none_is_held : held at_start.filesys (pos 1) ≡ false
unfolding view get_child new_coordinator
none_is_held = refl

elect_free_example :
    (e : Election) × (elect at_start.filesys (server (pos 1) false) (stored (pos 1) false [] 0) none
      ≡ ok e)
    × Wins at_start.filesys (server (pos 1) false) none e
elect_free_example =
    elect_free at_start.filesys (server (pos 1) false) (stored (pos 1) false [] 0) none
      (new_coordinator-Inv 2).table none_is_held

second_found : find (pos 2) first_cluster ≡ some (stored (pos 2) false (codes "/cluster1/slave2") 0)
unfolding find int_eq
second_found = refl

heartbeat-Settled_example :
    (r : Reply) × (heartbeat with_two 120 (server (pos 2) true) ≡ ok r)
    × Settled with_two
        (server (pos 2) true)
        0
        (set_from_server_info 120
          (server (pos 2) true)
          (stored (pos 2) false (codes "/cluster1/slave2") 0))
        r
heartbeat-Settled_example =
    heartbeat-Settled with_two 120 (server (pos 2) true) 0 first_cluster
      (stored (pos 2) false (codes "/cluster1/slave2") 0) (Reach-Inv 2 with_two with_two_reached)
      refl refl second_found refl refl

some_cluster : length with_two.clusters ≢ 0
some_cluster e = absurd (omega arith)

get_active_master-IsActiveMaster_example :
    (found : Option (ServerRef × ZNode)) × (get_active_master with_two.clusters (pos 5) ≡ ok found)
    × IsActiveMaster with_two.clusters 5 found
get_active_master-IsActiveMaster_example =
    get_active_master-IsActiveMaster with_two.clusters 5 some_cluster

get_server-IsServed_example :
    (r : Served) × (get_server with_two (pos 5) ≡ ok r) × IsServed with_two r.1 r.2
get_server-IsServed_example = get_server-IsServed with_two 5 some_cluster
