-- ===== src/FsUtils.antt =====
-- FSWrapper/FSWrapper/filesystem_utils.cpp: splitting strings and file paths. A position in a
-- string is the suffix that starts there.
pub mod Split
pub mod Paths
pub mod Blocks
mod Tests
use distributed_sns.Base.{
  ℕ, zero, suc, ◌<◌, Bool, true, false, not, ◌&&◌, Option, none, some, List, [], ◌∷◌, ◌++◌, Str,
  codes, ◌==◌, nat_eq, str_eq, if◌then◌else◌, is_some, length, take, drop,
}

-- `str.compare(0, delim.length(), delim) == 0`
starts_with : Str → Str → Bool
starts_with [] s = true
starts_with (c ∷ d) [] = false
starts_with (c ∷ d) (x ∷ s) = c == x && starts_with d s

map_suc : Option ℕ → Option ℕ
map_suc none = none
map_suc (some k) = some (suc k)

-- `str.find(delim)`, the offset of the first occurrence; `none` is `npos`.
pub find : Str → Str → Option ℕ
unfolding starts_with map_suc
find [] d = if starts_with d [] then some 0 else none
find (x ∷ s) d = let later = find s d in if starts_with d (x ∷ s) then some 0 else map_suc later

-- Only tokens that are not empty are kept.
push_token : Str → List Str → List Str
push_token token tokens = if token == [] then tokens else token ∷ tokens

-- The `while` loop and the token after it, from the suffix at `startIdx`. The next round starts
-- one byte after the occurrence, whatever the length of the delimiter.
split_loop : ℕ → Str → Str → List Str
unfolding push_token find
split_loop zero rest delim = []
split_loop (suc fuel) rest delim = elim (find rest delim) [
  | none ↦ push_token rest []
  | some k ↦ push_token (take k rest) (split_loop fuel (drop (suc k) rest) delim)
]

-- The delimiters of the program are not empty, so each round shortens the suffix.
unfoldable pub split_string : Str → Str → List Str
unfolding split_loop
split_string str delim = split_loop (suc (length str)) str delim

unfoldable pub split_filepath : Str → List Str
unfolding split_string
split_filepath filepath = split_string filepath (codes "/")

-- The tokens but the last, each with a slash behind it. One token or none gives the empty path.
join_but_last : List Str → Str
join_but_last [] = []
join_but_last (t ∷ []) = []
join_but_last (t ∷ u ∷ ts) = t ++ b'/' ∷ join_but_last (u ∷ ts)

unfoldable pub get_parent_folder_path : Str → Str
unfolding split_filepath join_but_last
get_parent_folder_path filepath = join_but_last (split_filepath filepath)

-- The suffix behind the last slash, or the whole string.
after_last_slash : Str → Str → Str
after_last_slash whole [] = whole
after_last_slash whole (c ∷ s) = after_last_slash (if c == b'/' then s else whole) s

unfoldable pub get_relative_filename : Str → Str
unfolding after_last_slash
get_relative_filename filepath = after_last_slash filepath filepath

unfoldable pub is_name_valid : Str → Bool
unfolding find
is_name_valid filename = not (filename == []) && not (is_some (find filename (codes "/")))
