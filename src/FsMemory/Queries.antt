-- ===== src/FsMemory/Queries.antt =====
-- `exists` and `read` in terms of the view.
use distributed_sns.Base.{
  ℕ, ◌≡◌, refl, ap, false, not, ◌&&◌, Option, none, some, List, [], ◌∷◌, arith, Str, leb,
  if◌then◌else◌, is_some, length, drop, Option-cases, inl, inr,
}
use distributed_sns.Base.Result.{ok}
use distributed_sns.FsUtils.{split_filepath}
use distributed_sns.FsTree.{Node, get_child}
use distributed_sns.FsMemory.{FsMemory, get_tree_node, found_node, read_node, exists, read}
use distributed_sns.FsMemory.View.{Info, info, view, find_node}
use distributed_sns.FsMemory.Walk.{get_tree_node_search}
use distributed_sns.FsMemory.Operate.{seen}

-- The data of a file that is there, from the offset on.
abbrev pub read_info : Option Info → ℕ → Option Str
read_info none offset = none
read_info (some (is_folder, d)) offset =
    if not is_folder && leb offset (length d) then some (drop offset d) else none

abbrev info_of : Option Node → Option Info
info_of none = none
info_of (some n) = some (info n)

view-eq-info_of : (n : Node) (ts : List Str) → view n ts ≡ info_of (find_node n ts)
unfolding view find_node
view-eq-info_of n [] = refl
view-eq-info_of n (t ∷ ts) = elim (Option-cases (get_child n t)) [
  | inl e ↦ ground arith
  | inr (c, e) ↦ ground (arith, view-eq-info_of c ts)
]

is_some-info_of : (o : Option Node) → is_some o ≡ is_some (info_of o)
is_some-info_of none = refl
is_some-info_of (some n) = refl

read_node-info_of :
    (o : Option Node) (offset : ℕ) → read_node o offset ≡ read_info (info_of o) offset
unfolding read_node
read_node-info_of none offset = refl
read_node-info_of (some n) offset = refl

found_node_lem :
    (n : Node) (ts : List Str) → found_node (get_tree_node n ts false) ≡ ok (find_node n ts)
unfolding found_node
found_node_lem n ts = let (_, e) = get_tree_node_search n ts in rw e

-- `exists` is true of what is seen.
pub exists-seen :
    (m : FsMemory) (file : Str) → exists m file ≡ ok (is_some (seen m (split_filepath file)))
unfolding exists
exists-seen m file =
    rw
      (
        found_node_lem m.filetree (split_filepath file),
        view-eq-info_of m.filetree (split_filepath file),
      )
      (ap ok (is_some-info_of _))

-- On every path and offset `read` returns: it gives the data of the file that is seen at the path
-- from the offset on, and fails where there is no file or the offset is beyond the end of its
-- data.
pub read-seen :
    (m : FsMemory) (file : Str) (offset : ℕ)
    → read m file offset ≡ ok (read_info (seen m (split_filepath file)) offset)
unfolding read read_node
read-seen m file offset =
    rw
      (
        found_node_lem m.filetree (split_filepath file),
        view-eq-info_of m.filetree (split_filepath file),
      )
      (ap ok (read_node-info_of _ offset))
