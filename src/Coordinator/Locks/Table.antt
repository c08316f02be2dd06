-- ===== src/Coordinator/Locks/Table.antt =====
-- The file system of the coordinator as a table of locks, and what a change at one lock file does
-- to the others.
use distributed_sns.Base.{
  ◌≡◌, refl, ◌∙◌, ◌≢◌, sym, ap, ◌⊎◌, Bool, false, Option, some, List, [], ◌∷◌, arith, Str, ◌==◌,
  str_eq, ==_refl, ne_of_==, eq_of_==, if◌then◌else◌, is_some, Bool-cases, inl, inr,
}
use mathlib.Core.Path.{subst}
use distributed_sns.Base.Int.{ℤ, int_eq}
use distributed_sns.Base.Decimal.{to_string_inj}
use distributed_sns.Base.Result.{ok}
use distributed_sns.FsMemory
use distributed_sns.FsMemory.{FsMemory, write_body}
use distributed_sns.FsMemory.View.{Info, graft, strip}
use distributed_sns.FsMemory.Operate.{seen}
use distributed_sns.FsMemory.Queries.{exists-seen}
use distributed_sns.Coordinator.State.{get_master_filepath}
use distributed_sns.Coordinator.Locks.Names.{
  cluster_name, master_name, slave_name, split-get_master_filepath,
}

cluster_name_inj : (i j : ℤ) → cluster_name i ≡ cluster_name j → i ≡ j
cluster_name_inj i j e = to_string_inj i j (cc)

-- Whether the master file of the cluster stands.
abbrev pub held : FsMemory → ℤ → Bool
held fs id = is_some (seen fs (cluster_name id ∷ master_name ∷ []))

-- The mutex is free, and the root and all that stands in it are folders.
pub record IsLockTable (fs : FsMemory) : Type 0 where
  pub free : fs.locked ≡ false
  pub root : (d : Str) → seen fs [] ≢ some (false, d)
  pub tops : (t d : Str) → seen fs (t ∷ []) ≢ some (false, d)

pub exists_master :
    (fs : FsMemory) (id : ℤ) → FsMemory.exists fs (get_master_filepath id) ≡ ok (held fs id)
exists_master fs id =
    exists-seen fs (get_master_filepath id) ∙ rw (split-get_master_filepath id) refl

-- The paths of the slave files are not those of the master files.
slave_ne_master : (server : ℤ) → slave_name server ≢ master_name
slave_ne_master server e = ground arith

module _ (v : List Str → Option Info) (w : List Str → Option Info) where
  graft_pair_hit : (c a : Str) → graft v (c ∷ a ∷ []) w (c ∷ a ∷ []) ≡ w []
  unfolding strip
  graft_pair_hit c a = ground (arith, ==_refl c, ==_refl a)

  graft_pair_miss :
      (c a c' a' : Str)
      → (c' ≢ c) ⊎ (a' ≢ a)
      → graft v (c ∷ a ∷ []) w (c' ∷ a' ∷ []) ≡ v (c' ∷ a' ∷ [])
  unfolding strip
  graft_pair_miss c a c' a' h = ground arith

  graft_top : (c a t : Str) → graft v (c ∷ a ∷ []) w (t ∷ []) ≡ v (t ∷ [])
  unfolding strip
  graft_top c a t = ground arith

  graft_root : (c a : Str) → graft v (c ∷ a ∷ []) w [] ≡ v []
  unfolding strip
  graft_root c a = refl

  -- A change at a file of a cluster is seen at a master file only if it is at that file.
  pub graft_master :
      (id j : ℤ)
      → graft v (cluster_name id ∷ master_name ∷ []) w (cluster_name j ∷ master_name ∷ [])
        ≡ (if j == id then w [] else v (cluster_name j ∷ master_name ∷ []))
  graft_master id j = elim (Bool-cases (j == id)) [
    | inl same ↦ rw same (
        subst
          (λ k.
            graft v (cluster_name id ∷ master_name ∷ []) w (cluster_name k ∷ master_name ∷ [])
            ≡ w [])
          (sym (eq_of_== j id same)) (graft_pair_hit (cluster_name id) master_name))
    | inr other ↦ rw other (
        graft_pair_miss (cluster_name id) master_name (cluster_name j) master_name
          (inl (λ e. ne_of_== j id other (cluster_name_inj j id e))))
  ]

  pub graft_slave :
      (id server j : ℤ)
      → graft v (cluster_name id ∷ slave_name server ∷ []) w (cluster_name j ∷ master_name ∷ [])
        ≡ v (cluster_name j ∷ master_name ∷ [])
  graft_slave id server j =
      graft_pair_miss (cluster_name id) (slave_name server) (cluster_name j) master_name
        (inr (λ e. slave_ne_master server (sym e)))

-- A lock table whose view is changed at one file of a cluster, and which may have got its folder.
pub LockTable_of_graft :
    (fs fs' : FsMemory) (c a : Str) (v w : List Str → Option Info)
    → fs'.locked ≡ false
    → ((q : List Str) → seen fs' q ≡ graft v (c ∷ a ∷ []) w q)
    → ((d : Str) → v [] ≢ some (false, d))
    → ((t d : Str) → v (t ∷ []) ≢ some (false, d))
    → IsLockTable fs'
LockTable_of_graft fs fs' c a v w free e root tops = record {
  free = free;
  root = λ d h. root d (sym (graft_root v w c a) ∙ sym (e []) ∙ h);
  tops = λ t d h. tops t d (sym (graft_top v w c a t) ∙ sym (e (t ∷ [])) ∙ h);
}

pub LockTable_same :
    (fs fs' : FsMemory)
    → IsLockTable fs
    → fs'.locked ≡ false
    → ((q : List Str) → seen fs' q ≡ seen fs q)
    → IsLockTable fs'
LockTable_same fs fs' l free e = record {
  free = free;
  root = λ d h. l.root d (sym (e []) ∙ h);
  tops = λ t d h. l.tops t d (sym (e (t ∷ [])) ∙ h);
}

-- Whether the table is the same but for the lock of one cluster.
abbrev pub Sets : FsMemory → ℤ → Bool → FsMemory → Type 0
Sets fs id b fs' = IsLockTable fs' × ((j : ℤ) → held fs' j ≡ (if j == id then b else held fs j))

abbrev pub Keeps : FsMemory → FsMemory → Type 0
Keeps fs fs' = IsLockTable fs' × ((j : ℤ) → held fs' j ≡ held fs j)

-- Whether the master files are all as they were, with their data.
abbrev pub KeepsFiles : FsMemory → FsMemory → Type 0
KeepsFiles fs fs' =
    IsLockTable fs'
    × ((j : ℤ)
        → seen fs' (cluster_name j ∷ master_name ∷ [])
          ≡ seen fs (cluster_name j ∷ master_name ∷ []))

pub Keeps-of_KeepsFiles : (fs fs' : FsMemory) → KeepsFiles fs fs' → Keeps fs fs'
Keeps-of_KeepsFiles fs fs' k = (k.0, λ j. ap is_some (k.1 j))
