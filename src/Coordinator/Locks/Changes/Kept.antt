-- ===== src/Coordinator/Locks/Changes/Kept.antt =====
-- The writes to lock files, and their removal.
use distributed_sns.Base.{
  ◌≡◌, refl, ◌∙◌, sym, ap, Bool, true, false, none, some, List, [], ◌∷◌, Str, ◌==◌, str_eq,
  eq_of_==, if◌then◌else◌, is_some, Bool-cases, inl, inr,
}
use distributed_sns.Base.Int.{ℤ, int_eq}
use distributed_sns.Base.Result.{ok}
use distributed_sns.FsMemory
use distributed_sns.FsTree.{remove_child}
use distributed_sns.FsMemory.{FsMemory, write_body}
use distributed_sns.FsMemory.View.{graft}
use distributed_sns.FsMemory.Operate.{seen}
use distributed_sns.FsMemory.Bodies.{write-seen, remove-seen, write-failed, remove-failed, written}
use distributed_sns.FsMemory.Success.{remove-Ends, operate-Ends}
use distributed_sns.Coordinator.State.{get_master_filepath, get_slave_filepath}
use distributed_sns.Coordinator.Locks.Names.{
  cluster_name, master_name, slave_name, split-get_master_filepath, split-get_slave_filepath,
  get_master_filepath-ne-nil, get_slave_filepath-ne-nil,
}
use distributed_sns.Coordinator.Locks.Table.{
  held, IsLockTable, graft_master, graft_slave, LockTable_of_graft, LockTable_same, Sets, Keeps,
  KeepsFiles, Keeps-of_KeepsFiles,
}
use distributed_sns.Coordinator.Locks.Changes.Created.{some_of_is_some, if_holds}

write-operate :
    (fs : FsMemory) (file address : Str)
    → FsMemory.write fs file address false true
      ≡ FsMemory.operate fs file false (write_body address true)
unfolding FsMemory.write
write-operate fs file address = refl

remove-operate :
    (fs : FsMemory) (file : Str)
    → FsMemory.remove fs file ≡ FsMemory.operate fs file false remove_child
unfolding FsMemory.remove
remove-operate fs file = refl

if_taken :
    (fs : FsMemory) (id j : ℤ)
    → held fs id ≡ true
    → (if j == id then true else held fs j) ≡ held fs j
if_taken fs id j taken = elim (Bool-cases (j == id)) [
  | inl same ↦ rw same (rw (eq_of_== j id same) (sym taken))
  | inr other ↦ rw other
]

same_Keeps :
    (fs fs' : FsMemory)
    → IsLockTable fs
    → fs'.locked ≡ false
    → ((q : List Str) → seen fs' q ≡ seen fs q)
    → KeepsFiles fs fs'
same_Keeps fs fs' l free same = (LockTable_same fs fs' l free same, λ j. same _)

wrote_slave :
    (fs fs' : FsMemory) (id server : ℤ) (address : Str) (s : Bool)
    → IsLockTable fs
    → fs'.locked ≡ false
    → FsMemory.write fs (get_slave_filepath id server) address false true ≡ ok (fs', s)
    → KeepsFiles fs fs'
wrote_slave fs fs' id server address false l free e =
    same_Keeps fs fs' l free (write-failed fs (get_slave_filepath id server) address false true e)
wrote_slave fs fs' id server address true l free e =
    let changes = λ (q : List Str).
      rw (split-get_slave_filepath id server) at
        (write-seen fs (get_slave_filepath id server) address false true e q) in
    (
      LockTable_of_graft fs fs' (cluster_name id) (slave_name server) (seen fs) _ free changes
          l.root l.tops,
      λ j. changes _ ∙ graft_slave (seen fs) _ id server j,
    )

wrote_master :
    (fs fs' : FsMemory) (id : ℤ) (address : Str) (s : Bool)
    → IsLockTable fs
    → held fs id ≡ true
    → fs'.locked ≡ false
    → FsMemory.write fs (get_master_filepath id) address false true ≡ ok (fs', s)
    → Keeps fs fs'
wrote_master fs fs' id address false l taken free e =
    Keeps-of_KeepsFiles fs fs'
      (same_Keeps fs fs' l free (write-failed fs (get_master_filepath id) address false true e))
wrote_master fs fs' id address true l taken free e =
    let changes = λ (q : List Str).
      rw (split-get_master_filepath id) at
        (write-seen fs (get_master_filepath id) address false true e q) in
    (
      LockTable_of_graft fs fs' (cluster_name id) master_name (seen fs) _ free changes l.root
          l.tops,
      λ j.
          ap is_some (changes _ ∙ graft_master (seen fs) _ id j)
          ∙ if_holds (j == id) (some (written address true _)) _ _ refl refl
          ∙ if_taken fs id j taken,
    )

removed_slave :
    (fs fs' : FsMemory) (id server : ℤ) (s : Bool)
    → IsLockTable fs
    → fs'.locked ≡ false
    → FsMemory.remove fs (get_slave_filepath id server) ≡ ok (fs', s)
    → KeepsFiles fs fs'
removed_slave fs fs' id server false l free e =
    same_Keeps fs fs' l free (remove-failed fs (get_slave_filepath id server) e)
removed_slave fs fs' id server true l free e =
    let changes = λ (q : List Str).
      rw (split-get_slave_filepath id server) at
        (remove-seen fs (get_slave_filepath id server) e q) in
    (
      LockTable_of_graft fs fs' (cluster_name id) (slave_name server) (seen fs) _ free changes
          l.root l.tops,
      λ j. changes _ ∙ graft_slave (seen fs) _ id server j,
    )

-- Writing to the file of a slave or a master leaves the locks as they are.
pub write_slave :
    (fs : FsMemory) (id server : ℤ) (address : Str)
    → IsLockTable fs
    → (fs' : FsMemory) × (s : Bool) × (FsMemory.write fs
          (get_slave_filepath id server)
          address
          false
          true
        ≡ ok (fs', s))
      × KeepsFiles fs fs'
write_slave fs id server address l =
    let (s, (fs', e, free)) =
      operate-Ends fs (get_slave_filepath id server) (cluster_name id ∷ []) (slave_name server)
        l.free (get_slave_filepath-ne-nil id server) (split-get_slave_filepath id server)
        (write_body address true) in
    let e' = write-operate fs (get_slave_filepath id server) address ∙ e in
    (fs', s, e', wrote_slave fs fs' id server address s l free e')

pub write_master :
    (fs : FsMemory) (id : ℤ) (address : Str)
    → IsLockTable fs
    → held fs id ≡ true
    → (fs' : FsMemory) × (s : Bool) × (FsMemory.write fs (get_master_filepath id) address false true
        ≡ ok (fs', s))
      × Keeps fs fs'
write_master fs id address l taken =
    let (s, (fs', e, free)) =
      operate-Ends fs (get_master_filepath id) (cluster_name id ∷ []) master_name l.free
        (get_master_filepath-ne-nil id) (split-get_master_filepath id) (write_body address true) in
    let e' = write-operate fs (get_master_filepath id) address ∙ e in
    (fs', s, e', wrote_master fs fs' id address s l taken free e')

-- To remove the master file releases the lock.
pub remove_master :
    (fs : FsMemory) (id : ℤ)
    → IsLockTable fs
    → held fs id ≡ true
    → (fs' : FsMemory) × (FsMemory.remove fs (get_master_filepath id) ≡ ok (fs', true))
      × Sets fs id false fs'
remove_master fs id l taken =
    let (i, there) = some_of_is_some (seen fs (cluster_name id ∷ master_name ∷ [])) taken in
    let (fs', e, free) =
      remove-Ends fs (get_master_filepath id) (cluster_name id ∷ []) master_name l.free
        (get_master_filepath-ne-nil id) (split-get_master_filepath id) there in
    let changes : (q : List Str)
        → seen fs' q ≡ graft (seen fs) (cluster_name id ∷ master_name ∷ []) (λ _. none) q =
      λ q. rw (split-get_master_filepath id) at (remove-seen fs (get_master_filepath id) e q) in
    (
      fs',
      e,
      (
        LockTable_of_graft fs fs' (cluster_name id) master_name (seen fs) _ free changes l.root
            l.tops,
        λ j.
            ap is_some (changes _ ∙ graft_master (seen fs) _ id j)
            ∙ if_holds (j == id) none _ _ refl refl,
      ),
    )

pub remove_slave :
    (fs : FsMemory) (id server : ℤ)
    → IsLockTable fs
    → (fs' : FsMemory) × (s : Bool) × (FsMemory.remove fs (get_slave_filepath id server)
        ≡ ok (fs', s))
      × KeepsFiles fs fs'
remove_slave fs id server l =
    let (s, (fs', e, free)) =
      operate-Ends fs (get_slave_filepath id server) (cluster_name id ∷ []) (slave_name server)
        l.free (get_slave_filepath-ne-nil id server) (split-get_slave_filepath id server)
        remove_child in
    let e' = remove-operate fs (get_slave_filepath id server) ∙ e in
    (fs', s, e', removed_slave fs fs' id server s l free e')
