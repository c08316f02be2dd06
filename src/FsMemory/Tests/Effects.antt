-- ===== src/FsMemory/Tests/Effects.antt =====
-- Runs of the operations, seen in the view.
use distributed_sns.Base.{◌≡◌, refl, inl, true, false, none, some, [], ◌++◌, codes, nat_eq, str_eq}
use distributed_sns.Base.Result.{ok}
use distributed_sns.FsUtils.{split_filepath}
use distributed_sns.FsTree.{get_child}
use distributed_sns.FsMemory.{init, write, read}
use distributed_sns.FsMemory.View.{view, graft}
use distributed_sns.FsMemory.Operate.{seen}
use distributed_sns.FsMemory.Effect.{before}
use distributed_sns.FsMemory.Bodies.{
  new_entry, write_effect, create-seen, write-seen, remove-seen, failed-seen,
}
use distributed_sns.FsMemory.Queries.{read_info, read-seen}
use distributed_sns.FsMemory.Roundtrips.{read-write}
use distributed_sns.FsMemory.Tests.States.{
  with_file, empty_folder, file_path, created_file, created_again, appended, removed,
}

create-seen_example :
    (seen (init true) (split_filepath (codes "/a/f")) ≡ none)
    × (seen (with_file []) file_path
        ≡ graft
            (before (init true) (codes "/a/f") true)
            (split_filepath (codes "/a/f"))
            (new_entry (false, []))
            file_path)
create-seen_example = create-seen (init true) (codes "/a/f") false true created_file file_path

write-seen_example :
    seen (with_file (codes "xy")) file_path
    ≡ graft
        (before (with_file (codes "x")) (codes "a/f") false)
        (split_filepath (codes "a/f"))
        (write_effect (codes "y") false (λ s.
          before (with_file (codes "x")) (codes "a/f") false (split_filepath (codes "a/f") ++ s)))
        file_path
write-seen_example =
    write-seen (with_file (codes "x")) (codes "a/f") (codes "y") false false appended file_path

remove-seen_example :
    seen empty_folder file_path
    ≡ graft (seen (with_file (codes "x"))) (split_filepath (codes "a/f")) (λ _. none) file_path
remove-seen_example = remove-seen (with_file (codes "x")) (codes "a/f") removed file_path

failed-seen_example : seen (with_file []) file_path ≡ seen (with_file []) file_path
failed-seen_example =
    failed-seen (with_file []) (codes "/a/f") [] false true false (inl created_again) file_path

read-seen_example :
    read (with_file (codes "xyz")) (codes "/a/f") 1
    ≡ ok (read_info (seen (with_file (codes "xyz")) (split_filepath (codes "/a/f"))) 1)
read-seen_example = read-seen (with_file (codes "xyz")) (codes "/a/f") 1

overwritten :
    write (with_file (codes "x")) (codes "a/f") (codes "y") false true
    ≡ ok (with_file (codes "y"), true)
unfolding write str_eq nat_eq
overwritten = refl

read-write_example : read (with_file (codes "y")) (codes "a/f") 0 ≡ ok (some (codes "y"))
read-write_example =
    read-write (with_file (codes "x")) (with_file (codes "y")) (codes "a/f") (codes "y") false
      overwritten

x_is_there : seen (with_file (codes "x")) (split_filepath (codes "a/f")) ≡ some (false, codes "x")
unfolding view split_filepath nat_eq str_eq get_child
x_is_there = refl
