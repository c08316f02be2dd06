-- ===== src/FsMemory/Bodies/Seen.antt =====
-- What `create`, `write` and `remove` do to the view.
use distributed_sns.Base.{
  ◌≡◌, ◌⊎◌, inl, inr, Bool, true, false, none, Option-cases, arith, List, [], ◌++◌, Str, str_eq,
}
use distributed_sns.Base.Result.{ok}
use distributed_sns.FsUtils.{split_filepath}
use distributed_sns.FsMemory.{FsMemory, create, write, remove}
use distributed_sns.FsMemory.View.{graft}
use distributed_sns.FsMemory.Operate.{seen}
use distributed_sns.FsMemory.Effect.{before, operate-seen, operate-failed, operate-needs}
use distributed_sns.FsMemory.Bodies.Views.{new_entry, write_effect}
use distributed_sns.FsMemory.Bodies.Outcomes.{
  create_body-IsBody, write_body-IsBody, remove_child-IsBody, create_needs,
}

-- A `create` that reports success adds an empty entry at its path.
pub create-graft :
    (m : FsMemory) (file : Str) (is_folder dirs : Bool) {m' : FsMemory}
    → create m file is_folder dirs ≡ ok (m', true)
    → (q : List Str)
    → seen m' q ≡ graft (before m file dirs) (split_filepath file) (new_entry (is_folder, [])) q
unfolding create
create-graft m file is_folder dirs h q = operate-seen (create_body-IsBody is_folder dirs) m file h q

-- Where nothing is seen once the folders on the way stand, nothing was seen before.
absent_before :
    (m : FsMemory) (file : Str) (dirs : Bool) (q : List Str)
    → before m file dirs q ≡ none
    → seen m q ≡ none
absent_before m file true q h = elim (Option-cases (seen m q)) [
  | inl e ↦ e
  | inr (i, e) ↦ absurd (ground (arith, h))
]
absent_before m file false q h = h

-- A `create` that reports success found nothing at its path. It adds an empty entry there, and,
-- where it may create directories, the folders on the way that were missing; at every other path
-- the same is seen as before.
pub create-seen :
    (m : FsMemory) (file : Str) (is_folder dirs : Bool) {m' : FsMemory}
    → create m file is_folder dirs ≡ ok (m', true)
    → (q : List Str)
    → (seen m (split_filepath file) ≡ none)
      × (seen m' q ≡ graft (before m file dirs) (split_filepath file) (new_entry (is_folder, [])) q)
unfolding create
create-seen m file is_folder dirs h q = (
  absent_before m file dirs (split_filepath file)
      (operate-needs (λ i. i ≡ none) dirs (create_needs is_folder) m file h),
  create-graft m file is_folder dirs h q,
)

-- A `write` that reports success leaves a file at its path that holds the new data, behind the
-- old data unless it overwrites, and, where it may create directories, the folders on the way
-- that were missing; at every other path the same is seen as before.
pub write-seen :
    (m : FsMemory) (file new : Str) (dirs overwrite : Bool) {m' : FsMemory}
    → write m file new dirs overwrite ≡ ok (m', true)
    → (q : List Str)
    → seen m' q
      ≡ graft
          (before m file dirs)
          (split_filepath file)
          (write_effect new overwrite (λ s. before m file dirs (split_filepath file ++ s)))
          q
unfolding write
write-seen m file new dirs overwrite h q =
    operate-seen (write_body-IsBody new overwrite dirs) m file h q

-- A `remove` that reports success takes away the entry at its path and all that is below it; at
-- every other path the same is seen as before.
pub remove-seen :
    (m : FsMemory) (file : Str) {m' : FsMemory}
    → remove m file ≡ ok (m', true)
    → (q : List Str) → seen m' q ≡ graft (seen m) (split_filepath file) (λ _. none) q
unfolding remove
remove-seen m file h q = operate-seen remove_child-IsBody m file h q

-- A `create` that reports failure leaves what is seen at every path as it was, even where it was
-- allowed to create directories.
pub create-failed :
    (m : FsMemory) (file : Str) (is_folder dirs : Bool) {m' : FsMemory}
    → create m file is_folder dirs ≡ ok (m', false)
    → (q : List Str) → seen m' q ≡ seen m q
unfolding create
create-failed m file is_folder dirs h q =
    operate-failed (create_body-IsBody is_folder dirs) m file h q

-- A `write` that reports failure leaves what is seen at every path as it was, even where it was
-- allowed to create directories.
pub write-failed :
    (m : FsMemory) (file new : Str) (dirs overwrite : Bool) {m' : FsMemory}
    → write m file new dirs overwrite ≡ ok (m', false)
    → (q : List Str) → seen m' q ≡ seen m q
unfolding write
write-failed m file new dirs overwrite h q =
    operate-failed (write_body-IsBody new overwrite dirs) m file h q

-- A `remove` that reports failure leaves what is seen at every path as it was.
pub remove-failed :
    (m : FsMemory) (file : Str) {m' : FsMemory}
    → remove m file ≡ ok (m', false)
    → (q : List Str) → seen m' q ≡ seen m q
unfolding remove
remove-failed m file h q = operate-failed remove_child-IsBody m file h q

-- A `create`, `write` or `remove` that reports failure leaves what is seen at every path as it
-- was, even where it was allowed to create directories.
pub failed-seen :
    (m : FsMemory) (file new : Str) (is_folder dirs overwrite : Bool) {m' : FsMemory}
    → (create m file is_folder dirs ≡ ok (m', false))
      ⊎ (write m file new dirs overwrite ≡ ok (m', false))
      ⊎ (remove m file ≡ ok (m', false))
    → (q : List Str) → seen m' q ≡ seen m q
failed-seen m file new is_folder dirs overwrite (inl h) = create-failed m file is_folder dirs h
failed-seen m file new is_folder dirs overwrite (inr (inl h)) =
    write-failed m file new dirs overwrite h
failed-seen m file new is_folder dirs overwrite (inr (inr h)) = remove-failed m file h
