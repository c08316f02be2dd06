-- ===== src/Coordinator/Failover.antt =====
-- Which server gets the lock of its cluster in a heartbeat.
use distributed_sns.Base.{
  ℕ, ◌≡◌, refl, ◌∙◌, Bool, true, false, not, ◌&&◌, some, List, get_elem?, Bool-cases, inl, inr,
  ◌==◌, ==_refl, eq_of_==, get_elem?-set_elem_self, if◌then◌else◌,
}
use distributed_sns.Base.Int.{ℤ, int_eq, int_order}
use distributed_sns.Base.Map.{find, set, find-set}
use distributed_sns.Base.Result.{Result, ok}
use distributed_sns.FsMemory.{FsMemory}
use distributed_sns.Coordinator.State.{
  ServerInfo, ZNode, is_active, Cluster, Coordinator, set_from_server_info, id_to_index, ok_status,
  get_master_filepath, get_slave_filepath,
}
use distributed_sns.Coordinator.Servers.{get_first_available_cluster_master}
use distributed_sns.Coordinator.Heartbeat.{
  heartbeat, accept, cluster_in_range, put_server, Reply, Election, elected,
}
use distributed_sns.Coordinator.Locks.{held, IsLockTable, Keeps, Keeps-of_KeepsFiles}
use distributed_sns.Coordinator.Invariant.{Inv, id_of}
use distributed_sns.Coordinator.Elections.{elect_taken, elect_free}
use distributed_sns.Coordinator.Registration.{accept-elect, heartbeat_found, heartbeat_in_old}

-- The election as the reply tells it and as the coordinator stores it, where `z` is the node of
-- the server with what the heartbeat says: the server is the master, or a slave where the lock is
-- taken, and afterwards the lock of the cluster is taken and the others are as before.
pub record Settled (c : Coordinator) (s : ServerInfo) (i : ℕ) (z : ZNode) (r : Reply) : Type 0 where
  pub master : r.1.master ≡ not (held c.filesys s.clusterid)
  pub path : r.1.path ≡ (
      if held c.filesys s.clusterid
      then get_slave_filepath s.clusterid s.serverid
      else get_master_filepath s.clusterid)
  pub status : r.2 ≡ ok_status
  pub stored :
      (m : Cluster) × (get_elem? r.0.clusters i ≡ some m)
      × (find s.serverid m ≡ some (record z { path = r.1.path; master = r.1.master }))
  pub locks : (j : ℤ) → held r.0.filesys j ≡ (if j == s.clusterid then true else held c.filesys j)

-- What the election decides is put into the cluster.
elected_stored :
    (cs : List Cluster) (id : ℤ) (i : ℕ) (m : Cluster) (z : ZNode) (e : Election)
    → get_elem? cs i ≡ some m
    → z.master ≡ false
    → (m' : Cluster) × (get_elem? (put_server cs i m id (elected e z)) i ≡ some m')
      × (find id m' ≡ some (record z { path = e.raw_path; master = e.master }))
unfolding elected
elected_stored cs id i m z e there slave = (
  set id (elected e z) m,
  get_elem?-set_elem_self cs i (set id (elected e z) m) there,
  find-set id id (elected e z) m ∙ rw (==_refl id) (rw slave refl),
)

still_taken :
    (fs fs' : FsMemory) (id : ℤ)
    → held fs id ≡ true
    → Keeps fs fs'
    → (j : ℤ) → held fs' j ≡ (if j == id then true else held fs j)
still_taken fs fs' id taken keeps j = keeps.1 j ∙ elim (Bool-cases (j == id)) [
  | inl hit ↦ rw (hit, eq_of_== j id hit) taken
  | inr miss ↦ rw miss refl
]

accept-Settled :
    (c : Coordinator) (s : ServerInfo) (i : ℕ) (m : Cluster) (z : ZNode)
    → IsLockTable c.filesys
    → get_elem? c.clusters i ≡ some m
    → z.master ≡ false
    → (r : Reply) × (accept c s i m z ≡ ok r) × Settled c s i z r
accept-Settled c s i m z l there slave = elim (Bool-cases (held c.filesys s.clusterid)) [
  | inl taken ↦
      let (e, run, joins) =
        elect_taken c.filesys s z
          (get_first_available_cluster_master (put_server c.clusters i m s.serverid z) i) l taken in
      (
        _,
        accept-elect c s i m z e slave run,
        record {
          master = joins.slave ∙ rw taken refl;
          path = joins.path ∙ rw taken refl;
          status = refl;
          stored = elected_stored c.clusters s.serverid i m z e there slave;
          locks =
              still_taken c.filesys e.filesys s.clusterid taken
                (Keeps-of_KeepsFiles c.filesys e.filesys joins.locks);
        },
      )
  | inr free ↦
      let (e, run, wins) =
        elect_free c.filesys s z
          (get_first_available_cluster_master (put_server c.clusters i m s.serverid z) i) l free in
      (
        _,
        accept-elect c s i m z e slave run,
        record {
          master = wins.master ∙ rw free refl;
          path = wins.path ∙ rw free refl;
          status = refl;
          stored = elected_stored c.clusters s.serverid i m z e there slave;
          locks = wins.locks.1;
        },
      )
]

pub in_range :
    (cs : List Cluster) (id : ℤ) (i : ℕ) (m : Cluster)
    → id ≡ id_of i
    → get_elem? cs i ≡ some m
    → cluster_in_range cs (id_to_index id) ≡ some (i, m)
unfolding cluster_in_range
in_range cs id i m named e = rw named (rw (e, cluster_in_range) refl)

pub taken_over :
    (x y : Result Reply) (registered b : Bool)
    → registered ≡ true
    → (if not registered && b then x else y) ≡ y
taken_over x y registered b h = rw h refl

-- In a state that satisfies the invariant, the heartbeat of a registered server that is known in
-- its cluster and is not the master returns with status OK; the server becomes the master, with
-- the path of the master file, exactly where the master lock of its cluster is free, and is a
-- slave with the path of its slave file otherwise; the coordinator has its node, updated from the
-- heartbeat, with that path and that mark afterwards, the master lock of the cluster is taken,
-- and those of the other clusters are taken or free as before.
pub heartbeat-Settled :
    (c : Coordinator) (now : ℕ) (s : ServerInfo) (i : ℕ) (m : Cluster) (w : ZNode)
    → Inv c
    → s.clusterid ≡ id_of i
    → get_elem? c.clusters i ≡ some m
    → find s.serverid m ≡ some w
    → w.master ≡ false
    → s.registered ≡ true
    → (r : Reply) × (heartbeat c now s ≡ ok r) × Settled c s i (set_from_server_info now s w) r
heartbeat-Settled c now s i m w v named there old slave known =
    let (r, run, settled) =
      accept-Settled c s i m (set_from_server_info now s w) v.table there slave in
    (
      r,
      heartbeat_found c now s i m (in_range c.clusters s.clusterid i m named there)
          ∙ heartbeat_in_old c now s i m w old
          ∙ taken_over _ (accept c s i m (set_from_server_info now s w)) s.registered (is_active w)
              known
          ∙ run,
      settled,
    )
