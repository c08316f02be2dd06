-- ===== src/FsLocal/Tests.antt =====
-- Runs of FSLocal on a small disk.
use distributed_sns.Base.{
  ◌≡◌, refl, Bool, true, false, some, [], ◌∷◌, ◌++◌, Str, codes, arith, nat_eq, str_eq,
}
use distributed_sns.Base.Int.{pos, minus_one, ℤ}
use distributed_sns.Base.Map.{find, insert, replace}
use distributed_sns.Base.Result.{ok, err, thrown, ◌>>=◌, Result}
use distributed_sns.Server.Text.{read_local}
use distributed_sns.FsUtils.{split_filepath, get_parent_folder_path}
use distributed_sns.FsLocal.{
  FsLocal, new_fs_local, create, exists, read, write, remove, get_full_path,
}
use distributed_sns.FsLocal.Storage.{
  Disk, directory, regular, names_eq, locate, is_folder, is_regular,
}
use distributed_sns.FsLocal.Folders.{file_of}
use distributed_sns.FsLocal.Writes.{CanWrite, held, read-write_local}

abbrev disk : Disk
disk = record {
  entries =
      (codes "home" ∷ [], directory) ∷ (codes "home" ∷ codes "n" ∷ [], regular (codes "kept")) ∷ [];
  working = codes "home" ∷ [];
}

abbrev sns : FsLocal
sns = record { base_dir = codes "sns/" }

abbrev plain : FsLocal
plain = record { base_dir = [] }

new_fs_local_test : (new_fs_local disk (codes "sns")).0 ≡ sns
unfolding new_fs_local str_eq
new_fs_local_test = refl

-- A write into folders that are made for it, a second one behind it, and what is read then.
written : Result (ℤ × Str)
written = do
  (d, _) ← write sns disk (codes "c1/log") (codes "one") true false
  (d, _) ← write sns d (codes "c1/log") (codes "two") false false
  ok (read sns d (codes "c1/log") [] 0)

written_test : written ≡ ok (pos 0, codes "onetwo" ++ (10 ∷ []))
unfolding written write read str_eq nat_eq names_eq insert replace
written_test = refl

-- A folder that is there already is a failure, and so is the empty name.
create_again : Result (ℤ × ℤ × ℤ)
create_again = do
  (d, first) ← create sns disk (codes "c1") true true
  (d, second) ← create sns d (codes "c1") true true
  (d, third) ← create sns d [] true true
  ok (first, second, third)

create_again_test : create_again ≡ ok (pos 0, minus_one, minus_one)
unfolding create_again create str_eq nat_eq names_eq insert
create_again_test = refl

-- Without a base folder, the parent of a single name is the empty path.
no_base_test : create plain disk (codes "f") false true ≡ err thrown
unfolding create str_eq nat_eq names_eq
no_base_test = refl

-- The empty name stands for the base folder when it is removed.
removed : Result (ℤ × Bool)
removed = do
  (d, _) ← write sns disk (codes "c1/log") (codes "one") true false
  (d, code) ← remove sns d []
  ok (code, exists sns d (codes "c1/log"))

removed_test : removed ≡ ok (pos 0, false)
unfolding removed write remove exists str_eq nat_eq names_eq insert replace
removed_test = refl

abbrev log_file : Str
log_file = codes "c1/log"

log_file_parent : get_parent_folder_path (get_full_path sns log_file) ≡ codes "sns/c1/"
unfolding get_full_path get_parent_folder_path str_eq nat_eq
log_file_parent = refl

log_file-CanWrite : CanWrite disk (get_full_path sns log_file)
unfolding get_full_path locate is_folder is_regular split_filepath find str_eq nat_eq names_eq
log_file-CanWrite = record {
  relative = refl;
  in_folder = λ e. absurd (ground (arith, log_file_parent, e));
  no_slash = refl;
  clear = (refl, (refl, (refl, tt)));
  no_folder = refl;
}

read-write_local_example :
    (e : Disk) × (write sns disk log_file (codes "one") true false ≡ ok (e, pos 1))
    × (read sns e log_file [] 0
        ≡ (pos 0, read_local (held disk (get_full_path sns log_file) false ++ codes "one")))
    × (file_of (find (codes "home" ∷ codes "n" ∷ []) e.entries) ≡ some (codes "kept"))
unfolding get_full_path locate split_filepath find str_eq nat_eq names_eq
read-write_local_example =
    read-write_local sns disk log_file (codes "one") true false log_file-CanWrite tt [] 0
      (codes "home" ∷ codes "n" ∷ []) (λ e. cc)
