-- ===== src/FsLocal/Storage.antt =====
-- What FSLocal uses of `std::filesystem` and of the file streams: a disk of folders and files, on
-- which a path is the list of its names. The names `.` and `..`, links, access rights, and a disk
-- that is full are left out. `thrown` is `std::filesystem::filesystem_error`.
use native.Mathlib.Decide.{ℕ_discrete}
use distributed_sns.Base.{
  ℕ, ◌+◌, Bool, true, false, not, ◌&&◌, Option, none, some, List, [], ◌∷◌, ◌++◌, Str, ◌==◌, nat_eq,
  Eq, str_eq, if◌then◌else◌, is_some,
}
use distributed_sns.Base.Map.{Map, Order, find, set}
use distributed_sns.Base.Result.{Result, ok, err, ◌>>=◌, thrown}
use distributed_sns.FsUtils.{split_filepath}
use distributed_sns.FsUtils.Paths.{but_last}

abbrev pub Names : Type 0
Names = List Str

Names-discrete : Discrete Names
Names-discrete = hlevel ℕ_discrete

instance unfoldable pub names_eq : Eq Names
unfolding Names-discrete ℕ_discrete
names_eq = record { dec = Names-discrete }

-- The order of the entries is not observed: a new one goes behind the others.
instance abbrev pub names_order : Order Names
names_order = record { lt = λ _ _. false }

pub data Entry : Type 0 where
  directory : Entry
  regular : (contents : Str) → Entry

abbrev pub Entries : Type 0
Entries = Map Names Entry

-- The entries but the root, and the working directory of the process.
pub record Disk : Type 0 where
  pub entries : Entries
  pub working : Names

abbrev pub with_entries : Disk → Entries → Disk
with_entries d es = record { entries = es; working = d.working }

-- A path from the root begins with a slash, and a path to a folder can end with one.
abbrev pub absolute : Str → Bool
absolute [] = false
absolute (c ∷ s) = c == b'/'

abbrev pub ends_with_slash : Str → Bool
ends_with_slash [] = false
ends_with_slash (c ∷ []) = c == b'/'
ends_with_slash (c ∷ x ∷ s) = ends_with_slash (x ∷ s)

unfoldable pub locate : Disk → Str → Names
unfolding split_filepath
locate d path = if absolute path then split_filepath path else d.working ++ split_filepath path

abbrev pub is_directory : Option Entry → Bool
is_directory (some directory) = true
is_directory _ = false

unfoldable pub is_folder : Entries → Names → Bool
is_folder es names = if names == [] then true else is_directory (find names es)

-- `fs::exists`
unfoldable pub path_exists : Disk → Str → Bool
unfolding locate is_folder
path_exists d path =
    if path == []
    then false
    else if is_folder d.entries (locate d path)
    then true
    else is_some (find (locate d path) d.entries) && not (ends_with_slash path)

-- The names of `rest` below the folder `done`, each made a folder where nothing stands.
unfoldable pub make_folders : Entries → Names → Names → Result Entries
unfolding find set
make_folders es done [] = ok es
make_folders es done (t ∷ rest) = elim (find (done ++ (t ∷ [])) es) [
  | none ↦ make_folders (set (done ++ (t ∷ [])) directory es) (done ++ (t ∷ [])) rest
  | some directory ↦ make_folders es (done ++ (t ∷ [])) rest
  | some (regular _) ↦ err thrown
]

-- `fs::create_directories`: whether the path is new.
unfoldable pub create_directories : Disk → Str → Result (Disk × Bool)
unfolding locate is_folder make_folders
create_directories d path = if path == [] then err thrown else (do
  es ← make_folders d.entries [] (locate d path)
  ok (with_entries d es, not (is_folder d.entries (locate d path))))

-- A new entry needs the folder that it goes into.
unfoldable pub add_entry : Entries → Names → Entry → Option Entries
unfolding is_folder set
add_entry es names e = if is_folder es (but_last names) then some (set names e es) else none

-- `fs::create_directory`: whether the path is new.
unfoldable pub create_directory : Disk → Str → Result (Disk × Bool)
unfolding locate is_folder add_entry
create_directory d path =
    if path == []
    then err thrown
    else if is_folder d.entries (locate d path)
    then ok (d, false)
    else if is_some (find (locate d path) d.entries)
    then err thrown
    else elim (add_entry d.entries (locate d path) directory) [
      | none ↦ err thrown
      | some es ↦ ok (with_entries d es, true)
    ]

-- `ofstream::open`: the disk with the file, and what it holds; `none` sets the fail bit.
unfoldable pub open_for_write : Disk → Str → Bool → Option (Disk × Str)
unfolding locate is_folder add_entry
open_for_write d path truncate =
    if path == []
    then none
    else if ends_with_slash path
    then none
    else if is_folder d.entries (locate d path)
    then none
    else elim (find (locate d path) d.entries) [
      | some (regular held) ↦ some (d, (if truncate then [] else held))
      | some directory ↦ none
      | none ↦ elim (add_entry d.entries (locate d path) (regular [])) [
        | none ↦ none
        | some es ↦ some (with_entries d es, [])
      ]
    ]

-- `outfile << data` at the end of what the open file holds.
unfoldable pub put : Disk → Str → Str → Disk
unfolding locate set
put d path contents = with_entries d (set (locate d path) (regular contents) d.entries)

-- `ifstream`: a file is opened and read, a folder is opened but cannot be read.
pub data Opened : Type 0 where
  failed unreadable : Opened
  readable : (bytes : Str) → Opened

unfoldable pub opened_file : Option Entry → Opened
opened_file (some (regular held)) = readable held
opened_file (some directory) = unreadable
opened_file none = failed

unfoldable pub open_for_read : Disk → Str → Opened
unfolding locate is_folder opened_file
open_for_read d path =
    if path == []
    then failed
    else if is_folder d.entries (locate d path)
    then unreadable
    else if ends_with_slash path
    then failed
    else opened_file (find (locate d path) d.entries)

-- Whether the names begin with those of the folder.
unfoldable pub is_below : Names → Names → Bool
is_below [] names = true
is_below (t ∷ above) [] = false
is_below (t ∷ above) (u ∷ names) = t == u && is_below above names

count_below : Names → Entries → ℕ
unfolding is_below
count_below above [] = 0
count_below above ((names, e) ∷ es) = (if is_below above names then 1 else 0) + count_below above es

without_below : Names → Entries → Entries
unfolding is_below
without_below above [] = []
without_below above ((names, e) ∷ es) =
    let rest = without_below above es in if is_below above names then rest else (names, e) ∷ rest

unfoldable pub is_regular : Option Entry → Bool
is_regular (some (regular _)) = true
is_regular _ = false

-- Whether a name on the way is a file.
file_on_the_way : Entries → Names → Names → Bool
unfolding find is_regular
file_on_the_way es done [] = false
file_on_the_way es done (t ∷ []) = false
file_on_the_way es done (t ∷ u ∷ rest) =
    let later = file_on_the_way es (done ++ (t ∷ [])) (u ∷ rest) in
    if is_regular (find (done ++ (t ∷ [])) es) then true else later

-- `fs::remove_all`: how many entries are removed.
unfoldable pub remove_all : Disk → Str → Result (Disk × ℕ)
unfolding locate count_below without_below file_on_the_way is_regular
remove_all d path =
    if path == []
    then ok (d, 0)
    else if file_on_the_way d.entries [] (locate d path)
    then err thrown
    else if ends_with_slash path && is_regular (find (locate d path) d.entries)
    then err thrown
    else ok (
      with_entries d (without_below (locate d path) d.entries),
      count_below (locate d path) d.entries,
    )
