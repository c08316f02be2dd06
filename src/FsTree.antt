-- ===== src/FsTree.antt =====
-- FSWrapper/FSWrapper/FSTreeNode.{h,cpp}: the nodes of the in-memory file tree. A node has one
-- parent and is reached only through it, so a `shared_ptr` to a node is the node at a place of the
-- tree, and a write through it replaces the node there.
pub mod Views
use distributed_sns.Base.{
  ℕ, Bool, true, false, not, ◌&&◌, ◌||◌, Option, none, some, [], ◌∷◌, Str, ◌==◌, ltb, nat_eq,
  str_eq, if◌then◌else◌,
}

-- `std::map<string, shared_ptr<FSTreeNode>>` is the list of its pairs in key order.
mutual
  pub data Node : Type 0 where
    node : Bool → Str → Str → Children → Node

  pub data Children : Type 0 where
    nil : Children
    cons : Str → Node → Children → Children

abbrev pub folder : Node → Bool
folder (node f n d c) = f

abbrev pub name : Node → Str
name (node f n d c) = n

abbrev pub contents : Node → Str
contents (node f n d c) = d

abbrev pub children : Node → Children
children (node f n d c) = c

-- `operator<` of `std::string`
unfoldable pub str_lt : Str → Str → Bool
str_lt s [] = false
str_lt [] (y ∷ t) = true
str_lt (x ∷ s) (y ∷ t) = ltb x y || (x == y && str_lt s t)

-- `children.find(k)`
unfoldable pub find_child : Str → Children → Option Node
find_child k nil = none
find_child k (cons j n c) = if k == j then some n else find_child k c

-- `children[k] = n`
unfoldable pub set_child : Str → Node → Children → Children
unfolding str_lt
set_child k n nil = cons k n nil
set_child k n (cons j m c) =
    let rest = set_child k n c in
    if k == j then cons k n c else if str_lt k j then cons k n (cons j m c) else cons j m rest

-- `children.erase(k)`
unfoldable pub erase_child : Str → Children → Children
erase_child k nil = nil
erase_child k (cons j m c) = let rest = erase_child k c in if k == j then rest else cons j m rest

-- The node with these children.
abbrev pub with_children : Node → Children → Node
with_children (node f n d _) c = node f n d c

unfoldable pub get_child : Node → Str → Option Node
unfolding find_child
get_child n child_name = find_child child_name (children n)

-- The parent after the call, and the child. `none` is the null pointer: a file has no children,
-- and a folder is not created with data.
unfoldable pub create_child : Node → Str → Bool → Str → Option (Node × Node)
unfolding set_child
create_child n child_name child_folder child_data =
    if not (folder n) || (child_folder && not (child_data == []))
    then none
    else let child = node child_folder child_name child_data nil in
      some (with_children n (set_child child_name child (children n)), child)

-- `node->name = new_name`
abbrev pub rename : Str → Node → Node
rename new_name (node f _ d c) = node f new_name d c

-- `map::insert` keeps an entry that is there, and `children[new_name]` is then that entry.
insert_renamed : Str → Node → Children → Children
unfolding set_child
insert_renamed new_name child rest = elim (find_child new_name rest) [
  | none ↦ set_child new_name (rename new_name child) rest
  | some old ↦ set_child new_name (rename new_name old) rest
]

-- The result is true where the C++ returns 0, and false where it returns -1.
unfoldable pub rename_child : Node → Str → Str → Node × Bool
unfolding find_child set_child erase_child insert_renamed
rename_child n child_name new_name = elim (find_child child_name (children n)) [
  | none ↦ (n, false)
  | some child ↦
      (with_children n (insert_renamed new_name child (erase_child child_name (children n))), true)
]

unfoldable pub remove_child : Node → Str → Node × Bool
unfolding find_child erase_child
remove_child n child_name = elim (find_child child_name (children n)) [
  | none ↦ (n, false)
  | some _ ↦ (with_children n (erase_child child_name (children n)), true)
]
