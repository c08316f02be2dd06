-- ===== src/Coordinator/Checks/Rounds.antt =====
-- A round of `checkHeartbeats` through all clusters.
use mathlib.Core.Path.{subst}
use distributed_sns.Base.{
  ℕ, zero, suc, ◌+◌, ◌<◌, ◌≡◌, refl, ◌∙◌, sym, some, List, [], ◌∷◌, arith, get_elem?,
}
use distributed_sns.Base.Int.{ℤ, int_eq, int_order}
use distributed_sns.Base.Result.{ok}
use distributed_sns.FsMemory.{FsMemory}
use distributed_sns.Coordinator.State.{Cluster, Coordinator}
use distributed_sns.Coordinator.Locks.{IsLockTable, held}
use distributed_sns.Coordinator.Invariant.{IsClusterOk, id_of, Inv, cluster_same}
use distributed_sns.Base.{nat_eq}
use distributed_sns.Coordinator.Heartbeat.{check_cluster, check_clusters, check_heartbeats}
use distributed_sns.Coordinator.Checks.Clusters.{CheckedCluster, check_cluster-Checked}

counted_after :
    (fs fs' : FsMemory) (id : ℤ) (m m' : Cluster)
    → IsClusterOk fs id m
    → CheckedCluster fs id m fs' m'
    → IsClusterOk fs' id m'
counted_after fs fs' id m m' h a =
    let before = h.counted in
    let count = a.count in record { servers = a.servers; counted = omega arith }

-- The clusters from index `i` on.
abbrev AreClustersOk : FsMemory → ℕ → List Cluster → Type 0
AreClustersOk fs i cs =
    (k j : ℕ) (m : Cluster) → i + k ≡ j → get_elem? cs k ≡ some m → IsClusterOk fs (id_of j) m

record CheckedClusters (fs : FsMemory) (i : ℕ) (fs' : FsMemory) (cs' : List Cluster) : Type 0 where
  table : IsLockTable fs'
  clusters : AreClustersOk fs' i cs'
  earlier : (j : ℕ) → j < i → held fs' (id_of j) ≡ held fs (id_of j)

check_clusters_step :
    (fs fs' fs'' : FsMemory) (i : ℕ) (clock : ℕ → ℤ → ℕ) (m m' : Cluster) (cs cs' : List Cluster)
    → check_cluster fs (clock i) m ≡ ok (fs', m')
    → check_clusters fs' (suc i) clock cs ≡ ok (fs'', cs')
    → check_clusters fs i clock (m ∷ cs) ≡ ok (fs'', m' ∷ cs')
unfolding check_clusters
check_clusters_step fs fs' fs'' i clock m m' cs cs' e f = rw e (rw f refl)

check_clusters_nil :
    (fs : FsMemory) (i : ℕ) (clock : ℕ → ℤ → ℕ) → check_clusters fs i clock [] ≡ ok (fs, [])
unfolding check_clusters
check_clusters_nil fs i clock = refl

joined_clusters :
    (fs : FsMemory) (i : ℕ) (m : Cluster) (cs : List Cluster)
    → IsClusterOk fs (id_of i) m
    → AreClustersOk fs (suc i) cs
    → AreClustersOk fs i (m ∷ cs)
joined_clusters fs i m cs h rest zero j n at e =
    let same : i ≡ j = omega arith in
    let same' : m ≡ n = ground arith in rw (sym same) (subst (IsClusterOk fs (id_of i)) same' h)
joined_clusters fs i m cs h rest (suc k) j n at e = rest k j n (omega arith) e

check_clusters-Checked :
    (fs : FsMemory) (i : ℕ) (clock : ℕ → ℤ → ℕ) (cs : List Cluster)
    → IsLockTable fs
    → AreClustersOk fs i cs
    → (fs' : FsMemory) × (cs' : List Cluster) × (check_clusters fs i clock cs ≡ ok (fs', cs'))
      × CheckedClusters fs i fs' cs'
check_clusters-Checked fs i clock [] l good = (
  fs,
  [],
  check_clusters_nil fs i clock,
  record { table = l; clusters = λ k j n at e. absurd cc; earlier = λ j _. refl },
)
check_clusters-Checked fs i clock (m ∷ cs) l good =
    let here : IsClusterOk fs (id_of i) m = good 0 i m (omega arith) refl in
    let counted = here.counted in
    let (fs', m', e, a) =
      check_cluster-Checked fs (clock i) (id_of i) m l here.servers (omega arith) in
    let (fs'', cs', f, b) = check_clusters-Checked fs' (suc i) clock cs a.table (λ k j n at e.
      cluster_same {fs = fs} (a.others (id_of j) (λ h. absurd (ground arith)))
        (good (suc k) j n (omega arith) e)) in
    (
      fs'',
      m' ∷ cs',
      check_clusters_step fs fs' fs'' i clock m m' cs cs' e f,
      record {
        table = b.table;
        clusters =
            joined_clusters fs'' i m' cs'
              (cluster_same {fs = fs'} (b.earlier i (omega arith))
                (counted_after fs fs' (id_of i) m m' here a))
              b.clusters;
        earlier =
            λ j h. b.earlier j (omega arith) ∙ a.others (id_of j) (λ e. absurd (ground arith));
      },
    )

check_heartbeats_run :
    (c : Coordinator) (clock : ℕ → ℤ → ℕ) (fs' : FsMemory) (cs' : List Cluster)
    → check_clusters c.filesys 0 clock c.clusters ≡ ok (fs', cs')
    → check_heartbeats c clock ≡ ok (record c { filesys = fs'; clusters = cs' })
unfolding check_heartbeats
check_heartbeats_run c clock fs' cs' e = rw e refl

-- In a state that satisfies the invariant, a round of the heartbeat check returns, whatever times
-- the clock gives for the servers, and the state that it leaves satisfies the invariant again: a
-- server that loses its mark as master loses its lock with it.
pub check_heartbeats-Inv :
    (c : Coordinator) (clock : ℕ → ℤ → ℕ)
    → Inv c
    → (c' : Coordinator) × (check_heartbeats c clock ≡ ok c') × Inv c'
check_heartbeats-Inv c clock v =
    let (fs', cs', e, a) =
      check_clusters-Checked c.filesys 0 clock c.clusters v.table (λ k j m at e.
        v.clusters j m (subst (λ n. get_elem? c.clusters n ≡ some m) (omega arith) e)) in
    (
      _,
      check_heartbeats_run c clock fs' cs' e,
      record { table = a.table; clusters = λ j m. a.clusters j j m (omega arith) },
    )
