-- ===== src/FsMemory/Roundtrips.antt =====
-- One operation of the file system after another.
use distributed_sns.Base.{
  ◌≡◌, refl, ◌∙◌, ap, Bool, true, false, Option, none, some, List, [], ◌∷◌, ◌++◌, arith, Str,
  str_eq, ==_refl, is_some, append-nil,
}
use distributed_sns.Base.Result.{ok}
use distributed_sns.FsUtils.{split_filepath}
use distributed_sns.FsMemory.{FsMemory, create, write, remove, exists, read}
use distributed_sns.FsMemory.View.{Info, graft, strip}
use distributed_sns.FsMemory.Operate.{seen}
use distributed_sns.FsMemory.Effect.{before}
use distributed_sns.FsMemory.Bodies.{
  new_entry, written, write_effect, create-graft, write-seen, remove-seen,
}
use distributed_sns.FsMemory.Queries.{read_info, exists-seen, read-seen}

graft_at :
    (v : List Str → Option Info) (ts : List Str) (w : List Str → Option Info)
    → graft v ts w ts ≡ w []
unfolding strip
graft_at v [] w = refl
graft_at v (t ∷ ts) w = rw (==_refl t, graft) (graft_at (λ q. v (t ∷ q)) ts w)

read_whole : (d : Str) → read_info (some (false, d)) 0 ≡ some d
read_whole d = ground arith

written_over : (new : Str) (o : Option Info) → written new true o ≡ (false, new)
written_over new none = refl
written_over new (some x) = refl

-- After a successful overwriting `write`, a `read` of the same path from offset 0 succeeds with
-- the data that was written.
pub read-write :
    (m m' : FsMemory) (file new : Str) (dirs : Bool)
    → write m file new dirs true ≡ ok (m', true)
    → read m' file 0 ≡ ok (some new)
read-write m m' file new dirs h =
    read-seen m' file 0
    ∙ ap (λ o. ok (read_info o 0))
        (write-seen m file new dirs true h (split_filepath file)
          ∙ graft_at (before m file dirs) (split_filepath file)
              (write_effect new true (λ s. before m file dirs (split_filepath file ++ s)))
          ∙ ap some (written_over new (before m file dirs (split_filepath file ++ []))))
    ∙ ap ok (read_whole new)

-- After a successful `write` without overwriting to a path where a file with the data `old`
-- stands, a `read` of that path from offset 0 gives `old` followed by the new data.
pub read-append :
    (m m' : FsMemory) (file old new : Str)
    → seen m (split_filepath file) ≡ some (false, old)
    → write m file new false false ≡ ok (m', true)
    → read m' file 0 ≡ ok (some (old ++ new))
read-append m m' file old new there h =
    read-seen m' file 0
    ∙ ap (λ o. ok (read_info o 0))
        (write-seen m file new false false h (split_filepath file)
          ∙ graft_at (seen m) (split_filepath file)
              (write_effect new false (λ s. seen m (split_filepath file ++ s)))
          ∙ ap (λ o. some (written new false o))
              (ap (seen m) (append-nil (split_filepath file)) ∙ there))
    ∙ ap ok (read_whole (old ++ new))

-- After a successful `create`, `exists` is true of the same path.
pub exists-create :
    (m m' : FsMemory) (file : Str) (is_folder dirs : Bool)
    → create m file is_folder dirs ≡ ok (m', true)
    → exists m' file ≡ ok true
exists-create m m' file is_folder dirs h =
    exists-seen m' file
    ∙ ap (λ o. ok (is_some o))
        (create-graft m file is_folder dirs h (split_filepath file)
          ∙ graft_at (before m file dirs) (split_filepath file) (new_entry (is_folder, [])))

-- After a successful `remove`, `exists` is false of the same path.
pub exists-remove :
    (m m' : FsMemory) (file : Str) → remove m file ≡ ok (m', true) → exists m' file ≡ ok false
exists-remove m m' file h =
    exists-seen m' file
    ∙ ap (λ o. ok (is_some o))
        (remove-seen m file h (split_filepath file)
          ∙ graft_at (seen m) (split_filepath file) (λ _. none))
