-- ===== src/Coordinator/Tests/Races.antt =====
-- A run of a heartbeat that comes in while the heartbeats are checked.
use distributed_sns.Coordinator.Races.{mark_lost, release, Stuck, race-Stuck}
use distributed_sns.Base.{some}
use distributed_sns.Base.{◌≡◌, refl, true, codes, nat_eq, str_eq}
use distributed_sns.Base.Int.{pos, int_eq, int_order}
use distributed_sns.Base.Map.{find}
use distributed_sns.Base.Result.{ok}
use distributed_sns.Coordinator.State.{Coordinator}
use distributed_sns.Coordinator.Heartbeat.{heartbeat, Reply}
use distributed_sns.Coordinator.Reach.{Reach-Inv}
use distributed_sns.Coordinator.Tests.States.{
  server, stored, with_two, with_two_reached, first_cluster,
}

first_found : find (pos 1) first_cluster ≡ some (stored (pos 1) true (codes "/cluster1/master") 0)
unfolding find int_eq
first_found = refl

race-Stuck_example :
    (r : Reply) × (c' : Coordinator) × (heartbeat
        (mark_lost with_two 0 (pos 1))
        120
        (server (pos 1) true)
      ≡ ok r)
    × (release r.0 0 (pos 1) ≡ ok c')
    × Stuck c' 0
race-Stuck_example =
    race-Stuck with_two 120 (server (pos 1) true) 0 first_cluster
      (stored (pos 1) true (codes "/cluster1/master") 0) (Reach-Inv 2 with_two with_two_reached)
      refl refl first_found refl refl
