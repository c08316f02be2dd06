-- ===== src/Coordinator/Checks/Clusters.antt =====
-- A round of `checkHeartbeats` for the servers of one cluster.
use distributed_sns.Base.{ℕ, ◌+◌, ◌≤◌, ◌≡◌, refl, ◌∙◌, ◌≢◌, [], ◌∷◌, arith}
use distributed_sns.Base.Int.{ℤ, int_eq, int_order}
use distributed_sns.Base.Result.{ok}
use distributed_sns.FsMemory.{FsMemory}
use distributed_sns.Coordinator.State.{ZNode, Cluster}
use distributed_sns.Coordinator.Locks.{IsLockTable, held}
use distributed_sns.Coordinator.Invariant.{bit, masters, IsServersOk}
use distributed_sns.Base.{nat_eq}
use distributed_sns.Coordinator.Heartbeat.{check_server, check_cluster}
use distributed_sns.Coordinator.Checks.Servers.{check_server-Checked}

-- The same for the servers of a cluster.
pub record CheckedCluster (fs : FsMemory) (id : ℤ) (m : Cluster) (fs' : FsMemory) (m' : Cluster)
    : Type 0 where
  pub table : IsLockTable fs'
  pub servers : IsServersOk id m'
  pub count : masters m' + bit (held fs id) ≡ masters m + bit (held fs' id)
  pub others : (j : ℤ) → j ≢ id → held fs' j ≡ held fs j

check_cluster_step :
    (fs fs' fs'' : FsMemory) (clock : ℤ → ℕ) (server : ℤ) (z z' : ZNode) (m m' : Cluster)
    → check_server fs (clock server) z ≡ ok (fs', z')
    → check_cluster fs' clock m ≡ ok (fs'', m')
    → check_cluster fs clock ((server, z) ∷ m) ≡ ok (fs'', (server, z') ∷ m')
unfolding check_cluster
check_cluster_step fs fs' fs'' clock server z z' m m' e f = rw e (rw f refl)

check_cluster_nil : (fs : FsMemory) (clock : ℤ → ℕ) → check_cluster fs clock [] ≡ ok (fs, [])
unfolding check_cluster
check_cluster_nil fs clock = refl

pub check_cluster-Checked :
    (fs : FsMemory) (clock : ℤ → ℕ) (id : ℤ) (m : Cluster)
    → IsLockTable fs
    → IsServersOk id m
    → masters m ≤ bit (held fs id)
    → (fs' : FsMemory) × (m' : Cluster) × (check_cluster fs clock m ≡ ok (fs', m'))
      × CheckedCluster fs id m fs' m'
check_cluster-Checked fs clock id [] l good owns = (
  fs,
  [],
  check_cluster_nil fs clock,
  record { table = l; servers = tt; count = refl; others = λ j _. refl },
)
check_cluster-Checked fs clock id ((server, z) ∷ m) l good owns =
    let (fs', z', e, a) = check_server-Checked fs id z l good.0 (omega arith) (clock server) in
    let count = a.count in
    let (fs'', m', f, b) = check_cluster-Checked fs' clock id m a.table good.1 (omega arith) in
    let count' = b.count in
    (
      fs'',
      (server, z') ∷ m',
      check_cluster_step fs fs' fs'' clock server z z' m m' e f,
      record {
        table = b.table;
        servers = (a.server, b.servers);
        count = omega arith;
        others = λ j h. b.others j h ∙ a.others j h;
      },
    )
