-- ===== src/FsLocal.antt =====
-- FSWrapper/FSWrapper/FSLocal.{h,cpp}: the wrapper of the local file system. A method takes the
-- object and the disk, and returns the disk with the number that the C++ returns.
pub mod Storage
pub mod Folders
pub mod Writes
mod Tests
use distributed_sns.Base.{
  ℕ, ◌-◌, ◌%◌, Bool, true, false, ◌&&◌, Option, none, some, List, [], ◌∷◌, ◌++◌, Str, ◌==◌, ltb,
  str_eq, if◌then◌else◌, is_some,
}
use distributed_sns.Base.Int.{ℤ, pos, negate, ltb_ℤ, minus_one}
use distributed_sns.Base.Result.{Result, ok, err, ◌>>=◌}
use distributed_sns.FsUtils.{get_parent_folder_path}
use distributed_sns.Server.Text.{read_local}
use Storage.{
  Disk, Entry, directory, create_directories, create_directory, open_for_write, open_for_read, put,
  path_exists, remove_all, failed, unreadable, readable, Opened, add_entry, with_entries, locate,
}

pub record FsLocal : Type 0 where
  pub base_dir : Str

-- `mkdir`, whose result is not read.
make_base : Disk → Str → Disk
unfolding create_directory
make_base d dir = elim (create_directory d dir) [ err _ ↦ d | ok (e, made) ↦ e ]

unfoldable pub new_fs_local : Disk → Str → FsLocal × Disk
unfolding make_base
new_fs_local d base_dir =
    if base_dir == []
    then (record { base_dir = base_dir }, d)
    else (record { base_dir = base_dir ++ (b'/' ∷ []) }, make_base d base_dir)

unfoldable pub bool_to_int : Bool → ℤ
bool_to_int success = if success then pos 0 else minus_one

unfoldable pub get_full_path : FsLocal → Str → Str
get_full_path f file = f.base_dir ++ file

-- `if(createDirectories)`
unfoldable pub create_parent : Disk → Str → Bool → Result Disk
unfolding create_directories get_parent_folder_path
create_parent d path make_parent =
    if make_parent
    then (do made ← create_directories d (get_parent_folder_path path); ok made.0)
    else ok d

answer : Disk × Bool → Disk × ℤ
unfolding bool_to_int
answer (d, success) = (d, bool_to_int success)

-- The file is emptied, and closed again.
create_file : Disk → Str → Disk × ℤ
unfolding open_for_write put bool_to_int
create_file d path = elim (open_for_write d path true) [
  | none ↦ (d, bool_to_int false)
  | some (e, held) ↦ (put e path held, bool_to_int true)
]

unfoldable pub create : FsLocal → Disk → Str → Bool → Bool → Result (Disk × ℤ)
unfolding get_full_path create_directories create_directory create_parent answer create_file
create f d file folder make_parent =
    let path = get_full_path f file in
    if file == []
    then ok (d, minus_one)
    else if folder && make_parent
    then (do made ← create_directories d path; ok (answer made))
    else (do
      e ← create_parent d path make_parent
      if folder
          then (do made ← create_directory e path; ok (answer made))
          else ok (create_file e path))

unfoldable pub exists : FsLocal → Disk → Str → Bool
unfolding get_full_path path_exists
exists f d file = path_exists d (get_full_path f file)

-- The number, and what the buffer holds afterwards; the offset is not read.
unfoldable pub read : FsLocal → Disk → Str → Str → ℕ → ℤ × Str
unfolding get_full_path open_for_read read_local
read f d file buffer offset = elim (open_for_read d (get_full_path f file)) [
  | failed ↦ (minus_one, buffer)
  | unreadable ↦ (minus_one, [])
  | readable bytes ↦ (pos 0, read_local bytes)
]

unfoldable pub write_file : Disk → Str → Str → Bool → Disk × ℤ
unfolding open_for_write put
write_file d path bytes overwrite = elim (open_for_write d path overwrite) [
  | none ↦ (d, minus_one)
  | some (e, held) ↦ (put e path (held ++ bytes), pos 1)
]

unfoldable pub write : FsLocal → Disk → Str → Str → Bool → Bool → Result (Disk × ℤ)
unfolding get_full_path create_parent write_file
write f d file bytes make_parent overwrite =
    let path = get_full_path f file in
    do e ← create_parent d path make_parent; ok (write_file e path bytes overwrite)

-- `int numDeleted`, from a count of 64 bits.
to_int : ℕ → ℤ
to_int n =
    let low = n % 4294967296 in if ltb low 2147483648 then pos low else negate (4294967296 - low)

unfoldable pub remove : FsLocal → Disk → Str → Result (Disk × ℤ)
unfolding get_full_path remove_all to_int
remove f d file = do
  removed ← remove_all d (get_full_path f file)
  ok (removed.0, (if ltb_ℤ (pos 0) (to_int removed.1) then pos 0 else minus_one))

abbrev pub move : FsLocal → Disk → Str → Str → Disk × ℤ
move f d file dest = (d, minus_one)

abbrev pub copy : FsLocal → Disk → Str → Str → Disk × ℤ
copy f d src dest = (d, minus_one)

abbrev pub to_string : FsLocal → Str
to_string f = []
