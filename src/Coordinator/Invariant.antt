-- ===== src/Coordinator/Invariant.antt =====
-- What holds of the coordinator between two calls: the master flags of the servers and the locks in
-- the file system say the same.
use mathlib.Core.Path.{subst}
use distributed_sns.Base.{
  ℕ, suc, ◌+◌, ◌≤◌, ◌≡◌, refl, ◌∙◌, ◌≢◌, sym, ap, Bool, true, false, none, some, [], ◌∷◌, arith,
  ◌==◌, ==_ne, eq_of_==, ne_of_==, Str, Bool-cases, inl, inr, All, get_elem?, set_elem,
  get_elem?-set_elem_self, get_elem?-set_elem_ne, get_elem?-replicate, nat_eq,
}
use distributed_sns.Base.Int.{ℤ, pos, int_eq, int_order}
use distributed_sns.Base.Map.{find, set, total, total-set_new, total-set_found}
use distributed_sns.FsTree.{get_child}
use distributed_sns.FsMemory.{FsMemory, init}
use distributed_sns.FsMemory.View.{view}
use distributed_sns.FsMemory.Operate.{seen}
use distributed_sns.Coordinator.State.{
  ZNode, Cluster, Coordinator, new_coordinator, get_master_filepath, get_slave_filepath,
}
use distributed_sns.Coordinator.Locks.{IsLockTable, held, Sets}

abbrev pub bit : Bool → ℕ
bit true = 1
bit false = 0

abbrev pub master_bit : ℤ × ZNode → ℕ
master_bit (_, z) = bit z.master

-- How many servers of the cluster are marked as masters.
abbrev pub masters : Cluster → ℕ
masters = total master_bit

-- The lock file that a server of this cluster owns. A server that has lost its lock keeps the path
-- and has missed heartbeats.
pub record IsServerOk (id : ℤ) (z : ZNode) : Type 0 where
  pub as_master : z.master ≡ true → (z.path ≡ get_master_filepath id) × (z.missed_heartbeats ≤ 1)
  pub as_slave :
      z.master ≡ false
      → z.missed_heartbeats ≤ 1
      → (server : ℤ) × (z.path ≡ get_slave_filepath id server)

abbrev pub IsServersOk : ℤ → Cluster → Type 0
IsServersOk id = All (λ (_, z). IsServerOk id z)

-- One master where the master file stands, and none where it does not.
pub record IsClusterOk (fs : FsMemory) (id : ℤ) (m : Cluster) : Type 0 where
  pub servers : IsServersOk id m
  pub counted : masters m ≡ bit (held fs id)

-- The id of the cluster at an index.
abbrev pub id_of : ℕ → ℤ
id_of i = pos (suc i)

pub record Inv (c : Coordinator) : Type 0 where
  pub table : IsLockTable c.filesys
  pub clusters :
      (i : ℕ) (m : Cluster) → get_elem? c.clusters i ≡ some m → IsClusterOk c.filesys (id_of i) m

root_is_folder : (d : Str) → seen (init true) [] ≢ some (false, d)
unfolding view
root_is_folder d h = ground arith

empty_root : (t d : Str) → seen (init true) (t ∷ []) ≢ some (false, d)
unfolding view get_child
empty_root t d h = cc

no_locks : (id : ℤ) → 0 ≡ bit (held (init true) id)
unfolding view get_child
no_locks id = refl

pub new_coordinator-Inv : (n : ℕ) → Inv (new_coordinator n)
unfolding new_coordinator
new_coordinator-Inv n = record {
  table = record {
    free = refl;
    root = λ d h. root_is_folder d h;
    tops = λ t d h. empty_root t d h;
  };
  clusters = λ i m e.
      rw (get_elem?-replicate n [] i e) (record { servers = tt; counted = no_locks (id_of i) });
}

-- A cluster whose lock stays is as good as before.
pub cluster_same :
    {fs fs' : FsMemory} {id : ℤ} {m : Cluster}
    → held fs' id ≡ held fs id
    → IsClusterOk fs id m
    → IsClusterOk fs' id m
cluster_same e h = record { servers = h.servers; counted = h.counted ∙ ap bit (sym e) }

other_cluster :
    (c : Coordinator) (fs' : FsMemory) (i j : ℕ) (m m' n : Cluster) (b : Bool)
    → Inv c
    → Sets c.filesys (id_of i) b fs'
    → j ≢ i
    → get_elem? (set_elem c.clusters i m') j ≡ some n
    → IsClusterOk fs' (id_of j) n
other_cluster c fs' i j m m' n b v sets other e =
    cluster_same {fs = c.filesys}
      (sets.1 (id_of j) ∙ rw (==_ne (id_of j) (id_of i) (λ h. other (ground arith))))
      (v.clusters j n (sym (get_elem?-set_elem_ne c.clusters i j m' (λ h. other (sym h))) ∙ e))

changed_cluster :
    (c : Coordinator) (fs' : FsMemory) (i j : ℕ) (m m' n : Cluster)
    → get_elem? c.clusters i ≡ some m
    → IsClusterOk fs' (id_of i) m'
    → j ≡ i
    → get_elem? (set_elem c.clusters i m') j ≡ some n
    → IsClusterOk fs' (id_of j) n
changed_cluster c fs' i j m m' n e ok' same e' =
    let there : get_elem? (set_elem c.clusters i m') j ≡ some m' =
      rw same (get_elem?-set_elem_self c.clusters i m' e) in
    let e'' : m' ≡ n = ground arith in rw same (subst (IsClusterOk fs' (id_of i)) e'' ok')

-- A change of one cluster and of its lock.
pub Inv-update :
    (c : Coordinator) (fs' : FsMemory) (i : ℕ) (m m' : Cluster) (b : Bool)
    → Inv c
    → get_elem? c.clusters i ≡ some m
    → Sets c.filesys (id_of i) b fs'
    → IsClusterOk fs' (id_of i) m'
    → Inv (record c { filesys = fs'; clusters = set_elem c.clusters i m' })
Inv-update c fs' i m m' b v e sets ok' = record {
  table = sets.0;
  clusters = λ j n e'. elim (Bool-cases (j == i)) [
    | inl same ↦ changed_cluster c fs' i j m m' n e ok' (eq_of_== j i same) e'
    | inr other ↦ other_cluster c fs' i j m m' n b v sets (ne_of_== j i other) e'
  ];
}

-- A server is put into its cluster: the count follows its flag.
pub masters-set_new :
    (id : ℤ) (z : ZNode) (m : Cluster)
    → find id m ≡ none
    → masters (set id z m) ≡ bit z.master + masters m
masters-set_new id z m e = total-set_new master_bit id z m e

pub masters-set_found :
    (id : ℤ) (z w : ZNode) (m : Cluster)
    → find id m ≡ some w
    → masters (set id z m) + bit w.master ≡ masters m + bit z.master
masters-set_found id z w m e = total-set_found master_bit id z m e
