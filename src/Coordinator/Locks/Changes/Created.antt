-- ===== src/Coordinator/Locks/Changes/Created.antt =====
-- The master file of a cluster is created.
use distributed_sns.Base.{
  ◌≡◌, refl, ◌∙◌, ◌≢◌, ap, Bool, true, false, Option, none, some, List, [], ◌∷◌, arith, Str, ◌==◌,
  str_eq, if◌then◌else◌, is_some, Option-cases,
}
use distributed_sns.Base.Int.{ℤ, int_eq}
use distributed_sns.Base.Result.{ok}
use distributed_sns.FsUtils.Paths.{but_last}
use distributed_sns.FsMemory
use distributed_sns.FsMemory.{FsMemory, write_body}
use distributed_sns.FsMemory.View.{Info, graft, is_prefix, with_folders}
use distributed_sns.FsMemory.Operate.{seen}
use distributed_sns.FsMemory.Bodies.{create-graft, new_entry}
use distributed_sns.FsMemory.Success.{create-Ends}
use distributed_sns.Coordinator.State.{get_master_filepath}
use distributed_sns.Coordinator.Locks.Names.{
  cluster_name, master_name, split-get_master_filepath, get_master_filepath-ne-nil,
}
use distributed_sns.Coordinator.Locks.Table.{
  held, IsLockTable, graft_master, LockTable_of_graft, Sets,
}

folders_on_way :
    (fs : FsMemory) (c : Str)
    → IsLockTable fs
    → (q : List Str) (d : Str) → is_prefix q (c ∷ []) ≡ true
    → seen fs q ≢ some (false, d)
folders_on_way fs c l [] d p = l.root d
folders_on_way fs c l (u ∷ []) d p = l.tops u d
folders_on_way fs c l (u ∷ x ∷ r) d p = absurd (unfold is_prefix in ground arith)

none_of_is_some : {A : Type 0} (o : Option A) → is_some o ≡ false → o ≡ none
none_of_is_some o h = ground arith

pub some_of_is_some : {A : Type 0} (o : Option A) → is_some o ≡ true → (a : A) × (o ≡ some a)
some_of_is_some (some a) h = (a, refl)
some_of_is_some none h = cc

with_folders-ne :
    (v : List Str → Option Info) (ts q : List Str) (d : Str)
    → v q ≢ some (false, d)
    → with_folders v ts q ≢ some (false, d)
with_folders-ne v ts q d h = ground (arith, Option-cases (v q))

pub if_holds :
    (b : Bool) (x y z : Option Info) {h : Bool}
    → is_some x ≡ h
    → y ≡ z
    → is_some (if b then x else y) ≡ (if b then h else is_some z)
if_holds b x y z e f = ground arith

with_folders_below :
    (v : List Str → Option Info) (c c' a : Str)
    → with_folders v (c ∷ []) (c' ∷ a ∷ []) ≡ v (c' ∷ a ∷ [])
unfolding is_prefix
with_folders_below v c c' a = ground (arith, Option-cases (v (c' ∷ a ∷ [])))

created_holds :
    (fs fs' : FsMemory) (id j : ℤ)
    → seen fs' (cluster_name j ∷ master_name ∷ [])
      ≡ graft
          (with_folders (seen fs) (cluster_name id ∷ []))
          (cluster_name id ∷ master_name ∷ [])
          (new_entry (false, []))
          (cluster_name j ∷ master_name ∷ [])
    → held fs' j ≡ (if j == id then true else held fs j)
created_holds fs fs' id j e =
    ap is_some (
      e ∙ graft_master (with_folders (seen fs) (cluster_name id ∷ [])) (new_entry (false, [])) id j)
    ∙ if_holds (j == id) (some (false, [])) _ (seen fs (cluster_name j ∷ master_name ∷ [])) refl
        (with_folders_below (seen fs) _ _ _)

-- The master file of a cluster can be created where it does not stand.
pub create_master :
    (fs : FsMemory) (id : ℤ)
    → IsLockTable fs
    → held fs id ≡ false
    → (fs' : FsMemory) × (FsMemory.create fs (get_master_filepath id) false true ≡ ok (fs', true))
      × Sets fs id true fs'
create_master fs id l open_lock =
    let (fs', e, free) =
      create-Ends fs (get_master_filepath id) (cluster_name id ∷ []) master_name l.free
        (get_master_filepath-ne-nil id) (split-get_master_filepath id) false
        (folders_on_way fs (cluster_name id) l) (none_of_is_some _ open_lock) in
    let v : List Str → Option Info = with_folders (seen fs) (cluster_name id ∷ []) in
    let changes : (q : List Str)
        → seen fs' q ≡ graft v (cluster_name id ∷ master_name ∷ []) (new_entry (false, [])) q =
      λ q.
        create-graft fs (get_master_filepath id) false true e q
        ∙ ap (λ p. graft (with_folders (seen fs) (but_last p)) p (new_entry (false, [])) q)
            (split-get_master_filepath id) in
    (
      fs',
      e,
      (
        LockTable_of_graft fs fs' (cluster_name id) master_name v _ free changes
            (λ d. with_folders-ne (seen fs) _ [] d (l.root d))
            (λ t d. with_folders-ne (seen fs) _ (t ∷ []) d (l.tops t d)),
        λ j. created_holds fs fs' id j (changes _),
      ),
    )
