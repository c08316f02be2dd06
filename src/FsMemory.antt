-- ===== src/FsMemory.antt =====
-- FSWrapper/FSWrapper/FSMemory.{h,cpp}: the in-memory file system. A method takes the object and
-- returns it with the result; the result is true where the C++ returns 0, and false for -1.
-- `std::string` arguments are byte strings, and offsets are not negative.
pub mod View
pub mod Graft
pub mod Walk
pub mod Operate
pub mod Effect
pub mod Bodies
pub mod Queries
pub mod Faults
pub mod Success
pub mod Roundtrips
pub mod Print
mod Tests
use distributed_sns.Base.{
  ℕ, suc, ◌-◌, Bool, true, false, not, ◌&&◌, Option, none, some, List, [], ◌∷◌, ◌++◌, Str, codes,
  ◌==◌, leb, str_eq, if◌then◌else◌, is_some, length, drop,
}
use distributed_sns.Base.Result.{Fault, null_deref, empty_back, blocked, Result, ok, err, ◌>>=◌}
use distributed_sns.FsUtils.{split_filepath}
use distributed_sns.FsTree.{
  Node, node, Children, nil, folder, contents, children, set_child, with_children, get_child,
  create_child, remove_child,
}

pub record FsMemory : Type 0 where
  pub coarse_mutex : Bool
  pub locked : Bool
  pub filetree : Node

-- `FSMemory(coarseMutex)`
abbrev pub init : Bool → FsMemory
init coarse_mutex = record {
  coarse_mutex = coarse_mutex;
  locked = false;
  filetree = node true (codes "root") [] nil;
}

-- The node through which `getTreeNode` goes on for a token, in the tree after it was created.
pub data Next : Type 0 where
  into : Node → Node → Next
  absent : Next
  refused : Next

unfoldable pub next_of : Option (Node × Node) → Next
next_of none = refused
next_of (some (n, child)) = into n child

unfoldable pub next_node : Node → Str → Bool → Next
unfolding next_of
next_node n token create = elim (get_child n token) [
  | some child ↦ into n child
  | none ↦ if create then next_of (create_child n token true []) else absent
]

-- After a refused `createChild` the pointer is null, and the next round reads through it.
unfoldable pub after_refusal : Node → List Str → Result (Node × Option Node)
after_refusal n [] = ok (n, none)
after_refusal n (_ ∷ _) = err null_deref

-- The children of `n` hold the child that a walk below it has changed.
abbrev pub put_child : Str → Node → Node → Node
put_child token child n = with_children n (set_child token child (children n))

unfoldable pub put_walked : Str → Node → Node × Option Node → Node × Option Node
put_walked token n (child, found) = (put_child token child n, found)

-- `getTreeNode(node, tokens, create)`: the tree afterwards, and the node that it points to.
unfoldable pub get_tree_node : Node → List Str → Bool → Result (Node × Option Node)
unfolding next_node after_refusal put_walked
get_tree_node n [] create = ok (n, some n)
get_tree_node n (token ∷ tokens) create = elim (next_node n token create) [
  | absent ↦ ok (n, none)
  | refused ↦ after_refusal n tokens
  | into n' child ↦ do walked ← get_tree_node child tokens create; ok (put_walked token n' walked)
]

-- The tree in which the node at these tokens is replaced, as a write through its pointer does.
unfoldable pub assign : Node → List Str → Node → Node
assign n [] new = new
assign n (token ∷ tokens) new = elim (get_child n token) [
  | none ↦ n
  | some child ↦ put_child token (assign child tokens new) n
]

-- `tokens.back()` and `tokens.pop_back()`, in the order (rest, last).
unfoldable pub pop_back : List Str → Result (List Str × Str)
pop_back [] = err empty_back
pop_back (t ∷ []) = ok ([], t)
pop_back (t ∷ u ∷ ts) = do (rest, last) ← pop_back (u ∷ ts); ok (t ∷ rest, last)

-- `fsMutex.lock()` blocks for ever where the mutex is held and nothing releases it.
abbrev pub lock : FsMemory → Result FsMemory
lock m =
    if m.coarse_mutex
    then (if m.locked then err blocked else ok (record m { locked = true }))
    else ok m

abbrev pub unlock : FsMemory → FsMemory
unlock m = if m.coarse_mutex then record m { locked = false } else m

-- What an operation does at the parent of its file: the parent afterwards, and the success.
abbrev pub Body : Type 0
Body = Node → Str → Node × Bool

-- The part that `create`, `write` and `remove` share: lock, refuse the empty path with the mutex
-- still held, walk to the parent, and unlock.
unfoldable pub at_parent : Node → List Str → Option Node → Str → Body → Node × Bool
at_parent tree tokens none file body = (tree, false)
at_parent tree tokens (some parent) file body =
    let (parent', success) = body parent file in (assign tree tokens parent', success)

-- Under the lock: walk to the parent, do the body there, and unlock.
unfoldable pub unlocked_at : FsMemory → Node × Bool → FsMemory × Bool
unlocked_at m (tree, success) = (unlock (record m { filetree = tree }), success)

unfoldable pub run_body : FsMemory → Str → Bool → Body → Result (FsMemory × Bool)
unfolding unlocked_at at_parent
run_body m file create_dirs body = do
  (tokens, actual_file) ← pop_back (split_filepath file)
  (tree, parent) ← get_tree_node m.filetree tokens create_dirs
  ok (unlocked_at m (at_parent tree tokens parent actual_file body))

unfoldable pub operate : FsMemory → Str → Bool → Body → Result (FsMemory × Bool)
unfolding get_tree_node pop_back run_body assign split_filepath
operate m file create_dirs body = do
  m ← lock m
  if file == [] then ok (m, false) else run_body m file create_dirs body

unfoldable pub create_body : Bool → Body
unfolding create_child get_child
create_body is_folder parent file = elim (get_child parent file) [
  | some _ ↦ (parent, false)
  | none ↦ elim (create_child parent file is_folder []) [
    | none ↦ (parent, false)
    | some (parent', _) ↦ (parent', true)
  ]
]

unfoldable pub create : FsMemory → Str → Bool → Bool → Result (FsMemory × Bool)
unfolding operate create_body
create m file is_folder create_directories =
    operate m file create_directories (create_body is_folder)

-- `next->data = overwrite ? data : next->data + data`
abbrev pub write_data : Bool → Str → Node → Node
write_data overwrite new (node f n d c) = node f n (if overwrite then new else d ++ new) c

unfoldable pub write_body : Str → Bool → Body
unfolding create_child get_child set_child
write_body new overwrite parent file = elim (get_child parent file) [
  | some next ↦
      if folder next
      then (parent, false)
      else (put_child file (write_data overwrite new next) parent, true)
  | none ↦ elim (create_child parent file false new) [
    | none ↦ (parent, false)
    | some (parent', _) ↦ (parent', true)
  ]
]

unfoldable pub write : FsMemory → Str → Str → Bool → Bool → Result (FsMemory × Bool)
unfolding operate write_body
write m file new create_directories overwrite =
    operate m file create_directories (write_body new overwrite)

unfoldable pub remove : FsMemory → Str → Result (FsMemory × Bool)
unfolding operate remove_child
remove m file = operate m file false remove_child

-- `getTreeNode(filetree, file, false, false)`: no folder is created, so the tree stays.
found_node : Result (Node × Option Node) → Result (Option Node)
found_node r = do (_, found) ← r; ok found

unfoldable pub exists : FsMemory → Str → Result Bool
unfolding get_tree_node found_node
exists m file = do
  found ← found_node (get_tree_node m.filetree (split_filepath file) false)
  ok (is_some found)

-- The data from the offset on, where the file is there and long enough.
read_node : Option Node → ℕ → Option Str
read_node none offset = none
read_node (some n) offset =
    if not (folder n) && leb offset (length (contents n))
    then some (drop offset (contents n))
    else none

-- `none` is -1: `data` keeps the value that it had.
unfoldable pub read : FsMemory → Str → ℕ → Result (Option Str)
unfolding get_tree_node found_node read_node
read m file offset = do
  found ← found_node (get_tree_node m.filetree (split_filepath file) false)
  ok (read_node found offset)

-- Not implemented in the program: always -1.
abbrev pub move : FsMemory → Str → Str → FsMemory × Bool
move m file dest = (m, false)

abbrev pub copy : FsMemory → Str → Str → FsMemory × Bool
copy m src dest = (m, false)
