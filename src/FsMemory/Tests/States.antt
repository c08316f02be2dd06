-- ===== src/FsMemory/Tests/States.antt =====
-- File systems for the runs, and single operations on them.
use distributed_sns.Base.{◌≡◌, refl, true, false, List, [], ◌∷◌, codes, Str, nat_eq, str_eq}
use distributed_sns.Base.Result.{ok}
use distributed_sns.FsTree.{node, cons, nil, get_child, set_child}
use distributed_sns.FsMemory.{FsMemory, init, create, write, remove}

-- A folder `a` with the file `f`, whose data is `x`.
abbrev pub with_file : Str → FsMemory
with_file d = record {
  coarse_mutex = true;
  locked = false;
  filetree = node true (codes "root") [] (
      cons (codes "a")
        (node true (codes "a") [] (cons (codes "f") (node false (codes "f") d nil) nil)) nil);
}

abbrev pub empty_folder : FsMemory
empty_folder = record {
  coarse_mutex = true;
  locked = false;
  filetree = node true (codes "root") [] (cons (codes "a") (node true (codes "a") [] nil) nil);
}

abbrev pub file_path : List Str
file_path = codes "a" ∷ codes "f" ∷ []

pub created_file : create (init true) (codes "/a/f") false true ≡ ok (with_file [], true)
unfolding create str_eq nat_eq
created_file = refl

pub created_again : create (with_file []) (codes "/a/f") false true ≡ ok (with_file [], false)
unfolding create str_eq nat_eq
created_again = refl

pub appended :
    write (with_file (codes "x")) (codes "a/f") (codes "y") false false
    ≡ ok (with_file (codes "xy"), true)
unfolding write str_eq nat_eq
appended = refl

pub not_written :
    write (with_file (codes "x")) (codes "a") (codes "y") false false
    ≡ ok (with_file (codes "x"), false)
unfolding write str_eq nat_eq
not_written = refl

pub removed : remove (with_file (codes "x")) (codes "a/f") ≡ ok (empty_folder, true)
unfolding remove str_eq nat_eq get_child set_child
removed = refl

pub not_removed : remove empty_folder (codes "a/f") ≡ ok (empty_folder, false)
unfolding remove str_eq nat_eq get_child set_child
not_removed = refl
