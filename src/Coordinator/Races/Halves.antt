-- ===== src/Coordinator/Races/Halves.antt =====
-- `checkHeartbeats` (coordinator/src/SNSCoordinator.cpp) at a second missed heartbeat, in two halves.
use distributed_sns.Base.{
  ℕ, nat_eq, suc, ◌≡◌, refl, ◌∙◌, Bool, false, none, some, List, ==_refl, get_elem?,
}
use distributed_sns.Base.Int.{ℤ, int_eq, int_order}
use distributed_sns.Base.Map.{find, set, find-set}
use distributed_sns.Base.Result.{Result, ok, err, null_deref, ◌>>=◌}
use distributed_sns.FsMemory
use distributed_sns.FsMemory.{FsMemory}
use distributed_sns.Coordinator.State.{ZNode, Cluster, Coordinator}
use distributed_sns.Coordinator.Clients.{deref}
use distributed_sns.Coordinator.Heartbeat.{put_server}

-- `missed_heartbeats += 1; master = false`
abbrev pub lose : ZNode → ZNode
lose z = record z { missed_heartbeats = suc z.missed_heartbeats; master = false }

-- The first half of the second miss.
unfoldable pub mark_lost : Coordinator → ℕ → ℤ → Coordinator
mark_lost c i id = elim (get_elem? c.clusters i) [
  | none ↦ c
  | some m ↦ elim (find id m) [
    | none ↦ c
    | some z ↦ record c { clusters = put_server c.clusters i m id (lose z) }
  ]
]

-- `filesys.remove(server->path)`, with the path that the server has by then.
unfoldable pub release : Coordinator → ℕ → ℤ → Result Coordinator
unfolding deref
release c i id = elim (deref c.clusters (i, id)) [
  | none ↦ err null_deref
  | some z ↦ (FsMemory.remove c.filesys z.path >>= λ (fs, _). ok (record c { filesys = fs }))
]

pub mark_lost_run :
    (c : Coordinator) (i : ℕ) (id : ℤ) (m : Cluster) (z : ZNode)
    → get_elem? c.clusters i ≡ some m
    → find id m ≡ some z
    → mark_lost c i id ≡ record c { clusters = put_server c.clusters i m id (lose z) }
unfolding mark_lost
mark_lost_run c i id m z h e = rw (h, mark_lost) (rw (e, mark_lost) refl)

pub deref_run :
    (cs : List Cluster) (i : ℕ) (id : ℤ) (m : Cluster) (z : ZNode)
    → get_elem? cs i ≡ some m
    → find id m ≡ some z
    → deref cs (i, id) ≡ some z
unfolding deref
deref_run cs i id m z h e = rw (h, deref) e

pub release_run :
    (c : Coordinator) (i : ℕ) (id : ℤ) (z : ZNode) (fs : FsMemory) (b : Bool)
    → deref c.clusters (i, id) ≡ some z
    → FsMemory.remove c.filesys z.path ≡ ok (fs, b)
    → release c i id ≡ ok (record c { filesys = fs })
unfolding release
release_run c i id z fs b h e = rw (h, release) (rw e refl)

pub found_set : (id : ℤ) (z : ZNode) (m : Cluster) → find id (set id z m) ≡ some z
found_set id z m = find-set id id z m ∙ rw (==_refl id) refl
