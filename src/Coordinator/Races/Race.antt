-- ===== src/Coordinator/Races/Race.antt =====
-- A `Heartbeat` that comes in between the two halves.
use distributed_sns.Base.{
  ℕ, nat_eq, ◌≡◌, refl, ◌∙◌, sym, ap, true, false, some, List, arith, get_elem?, set_elem,
  get_elem?-set_elem_self, Bool-cases, inl, inr,
}
use distributed_sns.Base.Int.{ℤ, int_eq, int_order}
use distributed_sns.Base.Map.{find, set}
use distributed_sns.Base.Result.{ok}
use distributed_sns.FsMemory
use distributed_sns.FsMemory.{FsMemory}
use distributed_sns.Coordinator.State.{
  ServerInfo, ZNode, is_active, Cluster, Coordinator, set_from_server_info, ok_status,
}
use distributed_sns.Coordinator.Servers.{get_first_available_cluster_master}
use distributed_sns.Coordinator.Heartbeat.{
  heartbeat, accept, put_server, Reply, Election, elect, elected,
}
use distributed_sns.Coordinator.Locks.{held, Keeps-of_KeepsFiles, remove_slave}
use distributed_sns.Coordinator.Invariant.{Inv, IsClusterOk, id_of, bit, masters, masters-set_found}
use distributed_sns.Coordinator.Elections.{elect_taken}
use distributed_sns.Coordinator.Registration.{accept-elect, heartbeat_found, heartbeat_in_old}
use distributed_sns.Coordinator.Failover.{in_range, taken_over}
use distributed_sns.Coordinator.Races.Halves.{
  lose, mark_lost, release, mark_lost_run, deref_run, release_run, found_set,
}

-- The cluster has lost its master, but not the lock.
pub record Stuck (c : Coordinator) (i : ℕ) : Type 0 where
  pub lock_stands : held c.filesys (id_of i) ≡ true
  pub no_master : (m : Cluster) → get_elem? c.clusters i ≡ some m → masters m ≡ 0

only_master :
    (fs : FsMemory) (id sid : ℤ) (m : Cluster) (w z : ZNode)
    → IsClusterOk fs id m
    → find sid m ≡ some w
    → w.master ≡ true
    → z.master ≡ false
    → (held fs id ≡ true) × (masters (set sid z m) ≡ 0)
only_master fs id sid m w z h e on off =
    let count = masters-set_found sid z w m e in
    let counted = h.counted in
    let one : bit w.master ≡ 1 = ap bit on in
    let zero_ : bit z.master ≡ 0 = ap bit off in
    elim (Bool-cases (held fs id)) [
      | inl taken ↦ let b : bit (held fs id) ≡ 1 = ap bit taken in (taken, omega arith)
      | inr free ↦ let b : bit (held fs id) ≡ 0 = ap bit free in absurd (omega arith)
    ]

elected_path : (e : Election) (z : ZNode) → (elected e z).path ≡ e.raw_path
unfolding elected
elected_path e z = refl

elected_slave_bit :
    (e : Election) (z : ZNode)
    → z.master ≡ false
    → e.master ≡ false
    → bit ((elected e z).master) ≡ 0
unfolding elected
elected_slave_bit e z f g = rw (f, g) refl

still_none :
    (sid : ℤ) (z w : ZNode) (m : Cluster)
    → masters m ≡ 0
    → find sid m ≡ some w
    → bit z.master ≡ 0
    → masters (set sid z m) ≡ 0
still_none sid z w m none_before e off = let count = masters-set_found sid z w m e in omega arith

stuck_cluster :
    (cs : List Cluster) (i : ℕ) (n m m' : Cluster)
    → get_elem? cs i ≡ some n
    → masters m ≡ 0
    → get_elem? (set_elem cs i m) i ≡ some m'
    → masters m' ≡ 0
stuck_cluster cs i n m m' there h at =
    let same : some m ≡ some m' = sym (get_elem?-set_elem_self cs i m there) ∙ at in
    let same' : m ≡ m' = cc in ap masters (sym same') ∙ h

module _ (c : Coordinator) (now : ℕ) (s : ServerInfo) (i : ℕ) (m : Cluster) (w : ZNode) (v : Inv c)
    (named : s.clusterid ≡ id_of i) (there : get_elem? c.clusters i ≡ some m)
    (known : find s.serverid m ≡ some w) (on : w.master ≡ true)
    (registered : s.registered ≡ true) where
  abbrev marked_cluster : Cluster
  marked_cluster = set s.serverid (lose w) m

  abbrev marked : Coordinator
  marked = record c { clusters = put_server c.clusters i m s.serverid (lose w) }

  abbrev refreshed : ZNode
  refreshed = set_from_server_info now s (lose w)

  marked_there : get_elem? marked.clusters i ≡ some marked_cluster
  marked_there = get_elem?-set_elem_self c.clusters i marked_cluster there

  heartbeat_run :
      (e : Election)
      → elect c.filesys s refreshed (
          get_first_available_cluster_master
            (put_server marked.clusters i marked_cluster s.serverid refreshed)
            i)
        ≡ ok e
      → heartbeat (mark_lost c i s.serverid) now s
        ≡ ok (
          record marked {
            filesys = e.filesys;
            clusters = put_server marked.clusters i marked_cluster s.serverid (elected e refreshed);
          },
          record { path = e.raw_path; master = e.master; sync_address = e.sync_address },
          ok_status,
        )
  heartbeat_run e run =
      ap (λ x. heartbeat x now s) (mark_lost_run c i s.serverid m w there known)
      ∙ heartbeat_found marked now s i marked_cluster
          (in_range marked.clusters s.clusterid i marked_cluster named marked_there)
      ∙ heartbeat_in_old marked now s i marked_cluster (lose w) (found_set s.serverid (lose w) m)
      ∙ taken_over _ (accept marked s i marked_cluster refreshed) s.registered (is_active (lose w))
          registered
      ∙ accept-elect marked s i marked_cluster refreshed e refl run

  -- Where, in a state that satisfies the invariant, the heartbeat check has taken the mark from the
  -- master of a cluster and a heartbeat of that server, registered, comes in before the check
  -- removes its lock file: the heartbeat and the removal return, and they leave the master file of
  -- the cluster standing while none of its servers is marked as master.
  pub race-Stuck :
      (r : Reply) × (c' : Coordinator) × (heartbeat (mark_lost c i s.serverid) now s ≡ ok r)
      × (release r.0 i s.serverid ≡ ok c')
      × Stuck c' i
  race-Stuck =
      let (taken, none_left) =
        only_master c.filesys (id_of i) s.serverid m w (lose w) (v.clusters i m there) known on
          refl in
      let (e, run, joins) =
        elect_taken c.filesys s refreshed
          (get_first_available_cluster_master
            (put_server marked.clusters i marked_cluster s.serverid refreshed) i)
          v.table (ap (held c.filesys) named ∙ taken) in
      let (fs', b, removed, keeps) = remove_slave e.filesys s.clusterid s.serverid joins.locks.0 in
      let first = Keeps-of_KeepsFiles c.filesys e.filesys joins.locks in
      let second = Keeps-of_KeepsFiles e.filesys fs' keeps in
      (
        _,
        _,
        heartbeat_run e run,
        release_run _ i s.serverid (elected e refreshed) fs' b
            (deref_run _ i s.serverid (set s.serverid (elected e refreshed) marked_cluster)
              (elected e refreshed) (get_elem?-set_elem_self marked.clusters i _ marked_there)
              (found_set s.serverid (elected e refreshed) marked_cluster))
            (ap (FsMemory.remove e.filesys) (elected_path e refreshed ∙ joins.path) ∙ removed),
        record {
          lock_stands = second.1 (id_of i) ∙ first.1 (id_of i) ∙ taken;
          no_master = λ n at.
              stuck_cluster marked.clusters i marked_cluster
                (set s.serverid (elected e refreshed) marked_cluster) n marked_there
                (still_none s.serverid (elected e refreshed) (lose w) marked_cluster none_left
                  (found_set s.serverid (lose w) m)
                  (elected_slave_bit e refreshed refl joins.slave))
                at;
        },
      )
