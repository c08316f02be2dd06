-- ===== src/FsLocal/Writes.antt =====
-- A file that is written through FSLocal, and read back.
use distributed_sns.Base.{
  ℕ, ◌<◌, arith, ◌≡◌, refl, sym, ◌∙◌, ap, ◌≢◌, inl, inr, Bool, true, false, Option, some, List, [],
  ◌∷◌, ◌++◌, Str, ==_refl, ==_ne, nat_eq, str_eq, Option-cases, if◌then◌else◌, length,
}
use distributed_sns.Base.Int.{pos}
use distributed_sns.Base.Map.{find, set}
use distributed_sns.Base.Result.{ok}
use distributed_sns.FsUtils.{split_filepath, get_parent_folder_path}
use distributed_sns.FsUtils.Paths.{
  but_last, get_parent_folder_path-head, get_parent_folder_path_of_none,
  split_filepath-get_parent_folder_path, split_filepath-nil,
}
use distributed_sns.Server.Text.{read_local}
use distributed_sns.FsLocal.{FsLocal, get_full_path, create_parent, write_file, write, read}
use distributed_sns.FsLocal.Storage.{
  Names, Entry, Entries, Disk, directory, regular, is_folder, locate, absolute, ends_with_slash,
  create_directories, open_for_write, open_for_read, put, add_entry, readable, opened_file,
  with_entries, names_eq, names_order,
}
use distributed_sns.FsLocal.Folders.{
  IsClear, Kept, Kept-self, file_of, make_folders-Kept, find-set_self, find-set_ne,
}

-- A path from the working directory, of two names at least, that does not end in a slash. No name
-- on the way to it is a file, and it is no folder.
pub record CanWrite (d : Disk) (path : Str) : Type 0 where
  pub relative : absolute path ≡ false
  pub in_folder : get_parent_folder_path path ≢ []
  pub no_slash : ends_with_slash path ≡ false
  pub clear : IsClear d.entries [] (but_last (locate d path))
  pub no_folder : is_folder d.entries (locate d path) ≡ false

-- Where directories are not created, the folder of the path is there.
abbrev pub IsReady : Disk → Str → Bool → Type 0
IsReady d path true = Unit
IsReady d path false = is_folder d.entries (but_last (locate d path)) ≡ true

absolute_parent : (path : Str) → absolute (get_parent_folder_path path) ≡ false
absolute_parent path = go (get_parent_folder_path path) refl
  where
    go : (s : Str) → get_parent_folder_path path ≡ s → absolute s ≡ false
    go [] e = refl
    go (c ∷ s) e = ==_ne c b'/' (get_parent_folder_path-head path e)

but_last-append {ℓ} :
    {A : Type ℓ} (xs ys : List A) → ys ≢ [] → but_last (xs ++ ys) ≡ xs ++ but_last ys
but_last-append [] ys n = refl
but_last-append (x ∷ []) [] n = absurd (n refl)
but_last-append (x ∷ []) (y ∷ ys) n = refl
but_last-append (x ∷ z ∷ xs) ys n = ap (λ r. x ∷ r) (but_last-append (z ∷ xs) ys n)

length-but_last {ℓ} : {A : Type ℓ} (xs : List A) → xs ≢ [] → length (but_last xs) < length xs
length-but_last [] n = absurd (n refl)
length-but_last (x ∷ []) n = omega arith
length-but_last (x ∷ y ∷ xs) n = omega (arith, length-but_last (y ∷ xs) (λ e. cc))

locate_relative :
    (d : Disk) (path : Str)
    → absolute path ≡ false
    → locate d path ≡ d.working ++ split_filepath path
unfolding locate
locate_relative d path e = rw e refl

is_folder_root : (es : Entries) → is_folder es [] ≡ true
unfolding is_folder
is_folder_root es = rw (==_refl {A = Names} []) refl

module _ (d : Disk) (path : Str) (h : CanWrite d path) where
  some_name : split_filepath path ≢ []
  some_name e = h.in_folder (get_parent_folder_path_of_none path e)

  locate-parent : locate d (get_parent_folder_path path) ≡ but_last (locate d path)
  locate-parent =
      rw
        (
          locate_relative d path h.relative,
          locate_relative d (get_parent_folder_path path) (absolute_parent path),
          split_filepath-get_parent_folder_path path,
        )
        (sym (but_last-append d.working (split_filepath path) some_name))

  locate_some : locate d path ≢ []
  locate_some e = some_name (go d.working (sym (locate_relative d path h.relative) ∙ e))
    where
      go : (xs : Names) → xs ++ split_filepath path ≡ [] → split_filepath path ≡ []
      go [] e = e
      go (x ∷ xs) e = cc

  create_parent-Kept :
      (make_parent : Bool)
      → IsReady d path make_parent
      → (es : Entries) × (create_parent d path make_parent ≡ ok (with_entries d es))
        × (is_folder es (but_last (locate d path)) ≡ true)
        × Kept (length (but_last (locate d path))) d.entries es
  unfolding create_parent create_directories is_folder
  create_parent-Kept false ready = (d.entries, refl, ready, Kept-self _ d.entries)
  create_parent-Kept true ready =
      let (es, e, f, k) =
        make_folders-Kept d.entries [] (but_last (locate d path)) (is_folder_root d.entries)
          h.clear in
      (
        es,
        rw (==_ne (get_parent_folder_path path) [] h.in_folder) (rw locate-parent (rw e refl)),
        f,
        k,
      )

-- What is in front of new data: nothing where the file is emptied or new.
bytes_of : Bool → Option Entry → Str
bytes_of overwrite (some (regular c)) = if overwrite then [] else c
bytes_of overwrite _ = []

unfoldable pub held : Disk → Str → Bool → Str
unfolding locate bytes_of
held d path overwrite = bytes_of overwrite (find (locate d path) d.entries)

locate-with_entries :
    (d : Disk) (es : Entries) (path : Str) → locate (with_entries d es) path ≡ locate d path
unfolding locate
locate-with_entries d es path = refl

is_folder-not_directory :
    (es : Entries) (p : Names) → is_folder es p ≡ false → find p es ≢ some directory
unfolding is_folder
is_folder-not_directory es p f e = ground (arith, f, e)

module _ (d : Disk) (path : Str) (h : CanWrite d path) where
  path_some : path ≢ []
  path_some e = some_name d path h (ap split_filepath e ∙ split_filepath-nil)

  is_folder-miss :
      (es : Entries)
      → Kept (length (but_last (locate d path))) d.entries es
      → is_folder es (locate d path) ≡ false
  unfolding is_folder
  is_folder-miss es k =
      rw (k.longer (locate d path) (length-but_last (locate d path) (locate_some d path h)))
        h.no_folder

  -- The file can be opened in the folder that was made for it, and no other path changes.
  open_for_write-held :
      (overwrite : Bool) (es : Entries)
      → is_folder es (but_last (locate d path)) ≡ true
      → Kept (length (but_last (locate d path))) d.entries es
      → (after : Entries) × (open_for_write (with_entries d es) path overwrite
          ≡ some (with_entries d after, held d path overwrite))
        × ((q : Names) → q ≢ locate d path → find q after ≡ find q es)
  unfolding open_for_write held bytes_of add_entry
  open_for_write-held overwrite es f k =
      let same =
        k.longer (locate d path) (length-but_last (locate d path) (locate_some d path h)) in
      elim (Option-cases (find (locate d path) d.entries)) [
        | inl e ↦ (
          set (locate d path) (regular []) es,
          rw
              (
                ==_ne path [] path_some,
                h.no_slash,
                locate-with_entries d es path,
                is_folder-miss es k,
              )
              (rw (same ∙ e) (rw f (rw e refl))),
          (λ q n. find-set_ne q (locate d path) (regular []) es n),
        )
        | inr (directory, e) ↦
            absurd (is_folder-not_directory d.entries (locate d path) h.no_folder e)
        | inr (regular c, e) ↦ (
          es,
          rw
              (
                ==_ne path [] path_some,
                h.no_slash,
                locate-with_entries d es path,
                is_folder-miss es k,
              )
              (rw (same ∙ e) (rw e refl)),
          (λ q n. refl),
        )
      ]

open_for_read-put :
    (d : Disk) (path bytes : Str)
    → path ≢ []
    → ends_with_slash path ≡ false
    → locate d path ≢ []
    → open_for_read (put d path bytes) path ≡ readable bytes
unfolding open_for_read put is_folder opened_file
open_for_read-put d path bytes n s l =
    rw
      (
        ==_ne path [] n,
        locate-with_entries d (set (locate d path) (regular bytes) d.entries) path,
        ==_ne (locate d path) [] l,
        s,
        find-set_self (locate d path) (regular bytes) d.entries,
      )
      refl

-- For a path below the working directory with at least one folder in it, that does not end in a
-- slash, is no folder, and has no file on the way to it: a `write` that may create directories,
-- or that finds the folder of the path, returns 1, and a `read` of the path, with any offset,
-- then returns 0 and gives, line by line with a newline behind each, the new data, behind the old
-- data where a file stood there and is not overwritten. At every other path a file stands with
-- these contents exactly where one did before.
pub read-write_local :
    (f : FsLocal) (d : Disk) (file bytes : Str) (make_parent overwrite : Bool)
    → CanWrite d (get_full_path f file)
    → IsReady d (get_full_path f file) make_parent
    → (buffer : Str) (offset : ℕ) → (q : Names) → q ≢ locate d (get_full_path f file)
    → (e : Disk) × (write f d file bytes make_parent overwrite ≡ ok (e, pos 1))
      × (read f e file buffer offset
          ≡ (pos 0, read_local (held d (get_full_path f file) overwrite ++ bytes)))
      × (file_of (find q e.entries) ≡ file_of (find q d.entries))
unfolding write write_file read put locate
read-write_local f d file bytes make_parent overwrite h ready buffer offset q n =
    let path = get_full_path f file in
    let new = held d path overwrite ++ bytes in
    let (es, made, folder, k) = create_parent-Kept d path h make_parent ready in
    let (after, opened, same) = open_for_write-held d path h overwrite es folder k in
    (
      put (with_entries d after) path new,
      rw made (rw (opened, write_file) refl),
      rw
          (
            open_for_read-put (with_entries d after) path new (path_some d path h) h.no_slash
                (locate_some d path h),
            read,
          )
          refl,
      ap file_of (find-set_ne q (locate d path) (regular new) after n ∙ same q n) ∙ k.files q,
    )
