-- ===== src/FsMemory/Print.antt =====
-- `toString` and `saveToDisk` (FSWrapper/FSWrapper/FSMemory.cpp). What is done to the disk is a list of
-- operations; whether a directory can be made there is a parameter.
use distributed_sns.Base.{
  ℕ, suc, ◌+◌, ◌≡◌, refl, ◌∙◌, ap, Bool, true, false, Option, none, some, List, [], ◌∷◌, ◌++◌, Str,
  codes, if◌then◌else◌, ◌==◌, nat_eq, arith,
}
use distributed_sns.Base.Result.{Result, ok, err, thrown, ◌>>=◌}
use distributed_sns.FsTree.{Node, node, Children, nil, cons}
use distributed_sns.FsMemory.{FsMemory}

-- The box characters are three bytes each.
abbrev pub tree_prefix : Str
tree_prefix = 226 ∷ 148 ∷ 130 ∷ codes "   "

abbrev pub tree_blank_prefix : Str
tree_blank_prefix = codes "    "

abbrev pub local_last_prefix : Str
local_last_prefix = 226 ∷ 148 ∷ 148 ∷ 226 ∷ 148 ∷ 128 ∷ 226 ∷ 148 ∷ 128 ∷ codes " "

abbrev pub local_prefix : Str
local_prefix = 226 ∷ 148 ∷ 156 ∷ 226 ∷ 148 ∷ 128 ∷ 226 ∷ 148 ∷ 128 ∷ codes " "

abbrev pub file_type : Bool → Str
file_type true = codes ">"
file_type false = codes "#"

unfoldable mutual
  pub to_string_helper : Node → Str → Str
  to_string_helper (node f n d c) prefix =
      file_type f ++ (codes " " ++ (n ++ (10 ∷ children_to_string c prefix)))

  -- The last child has a prefix of its own.
  pub children_to_string : Children → Str → Str
  children_to_string nil prefix = []
  children_to_string (cons k child nil) prefix =
      prefix ++ (local_last_prefix ++ to_string_helper child (prefix ++ tree_blank_prefix))
  children_to_string (cons k child (cons k' child' rest)) prefix =
      (prefix ++ (local_prefix ++ to_string_helper child (prefix ++ tree_prefix)))
      ++ children_to_string (cons k' child' rest) prefix

unfoldable pub to_string : FsMemory → Str
unfolding to_string_helper
to_string m = to_string_helper m.filetree []

pub data DiskWrite : Type 0 where
  made_directory : Str → DiskWrite
  wrote_file : Str → Str → DiskWrite

module _ (mkdir : Str → Bool) where
  unfoldable mutual
    pub save_helper : Node → Str → Result (List DiskWrite)
    save_helper (node false n d c) dir = ok (wrote_file (dir ++ (b'/' ∷ n)) d ∷ [])
    save_helper (node true n d c) dir =
        if mkdir (dir ++ (b'/' ∷ n))
        then (save_children c (dir ++ (b'/' ∷ n)) >>= λ rest.
            ok (made_directory (dir ++ (b'/' ∷ n)) ∷ rest))
        else err thrown

    pub save_children : Children → Str → Result (List DiskWrite)
    save_children nil dir = ok []
    save_children (cons k child rest) dir = do
      first ← save_helper child dir
      later ← save_children rest dir
      ok (first ++ later)

  -- `is_directory` is what `stat` says of the place; `none` is -1.
  unfoldable pub save_to_disk : Bool → FsMemory → Str → Result (Option (List DiskWrite))
  unfolding save_helper
  save_to_disk is_directory m dir =
      if is_directory then (save_helper m.filetree dir >>= λ done. ok (some done)) else ok none

abbrev pub newlines : Str → ℕ
newlines [] = 0
newlines (c ∷ s) = (if c == 10 then 1 else 0) + newlines s

-- How many nodes a tree has.
mutual
  pub nodes : Node → ℕ
  nodes (node f n d c) = suc (nodes_of c)

  pub nodes_of : Children → ℕ
  nodes_of nil = 0
  nodes_of (cons k child rest) = nodes child + nodes_of rest

-- No name has a newline in it.
unfoldable mutual
  pub HasPlainNames : Node → Type 0
  HasPlainNames (node f n d c) = (newlines n ≡ 0) × HavePlainNames c

  pub HavePlainNames : Children → Type 0
  HavePlainNames nil = Unit
  HavePlainNames (cons k child rest) = HasPlainNames child × HavePlainNames rest

newlines-append : (s t : Str) → newlines (s ++ t) ≡ newlines s + newlines t
newlines-append [] t = omega arith
newlines-append (c ∷ s) t = let h = newlines-append s t in omega arith

newlines-file_type : (f : Bool) → newlines (file_type f) ≡ 0
unfolding nat_eq
newlines-file_type true = refl
newlines-file_type false = refl

newlines-newline : (s : Str) → newlines (10 ∷ s) ≡ suc (newlines s)
unfolding nat_eq
newlines-newline s = omega arith

blank : newlines (codes " ") ≡ 0
unfolding nat_eq
blank = refl

plain_prefixes :
    (newlines tree_prefix ≡ 0)
    × (newlines tree_blank_prefix ≡ 0)
    × (newlines local_prefix ≡ 0)
    × (newlines local_last_prefix ≡ 0)
unfolding nat_eq
plain_prefixes = (refl, refl, refl, refl)

longer : (s t : Str) → newlines s ≡ 0 → newlines t ≡ 0 → newlines (s ++ t) ≡ 0
longer s t h k = newlines-append s t ∙ rw (h, k) refl

after_plain : (s t : Str) (n : ℕ) → newlines s ≡ 0 → newlines t ≡ n → newlines (s ++ t) ≡ n
after_plain s t n h k = let e = newlines-append s t in omega arith

-- One node, and the children of one.
abbrev NodeLines : Node → Type 0
NodeLines t =
    (prefix : Str)
    → newlines prefix ≡ 0
    → HasPlainNames t
    → newlines (to_string_helper t prefix) ≡ nodes t

abbrev ChildrenLines : Children → Type 0
ChildrenLines c =
    (prefix : Str)
    → newlines prefix ≡ 0
    → HavePlainNames c
    → newlines (children_to_string c prefix) ≡ nodes_of c

node_lines : (f : Bool) (n d : Str) (c : Children) → ChildrenLines c → NodeLines (node f n d c)
unfolding to_string_helper nodes HasPlainNames
node_lines f n d c rest prefix h plain = after_plain (file_type f) _ _ (newlines-file_type f) (
    after_plain (codes " ") _ _ blank (
      after_plain n _ _ plain.0
        (newlines-newline (children_to_string c prefix) ∙ ap suc (rest prefix h plain.1))))

no_lines : ChildrenLines nil
unfolding to_string_helper nodes
no_lines prefix h plain = refl

last_lines : (k : Str) (t : Node) → NodeLines t → ChildrenLines (cons k t nil)
unfolding to_string_helper nodes HasPlainNames
last_lines k t here prefix h plain =
    let (a, blank_ok, b, last_ok) = plain_prefixes in
    let e : newlines (children_to_string (cons k t nil) prefix) ≡ nodes t =
      after_plain prefix _ _ h (
        after_plain local_last_prefix _ _ last_ok
          (here (prefix ++ tree_blank_prefix) (longer prefix _ h blank_ok) plain.0)) in
    omega arith

more_lines :
    (k k' : Str) (t t' : Node) (c : Children)
    → NodeLines t
    → ChildrenLines (cons k' t' c)
    → ChildrenLines (cons k t (cons k' t' c))
unfolding to_string_helper nodes HasPlainNames
more_lines k k' t t' c here rest prefix h plain =
    let (tree_ok, a, local_ok, b) = plain_prefixes in
    let e : newlines (prefix ++ (local_prefix ++ to_string_helper t (prefix ++ tree_prefix)))
        ≡ nodes t =
      after_plain prefix _ _ h (
        after_plain local_prefix _ _ local_ok
          (here (prefix ++ tree_prefix) (longer prefix _ h tree_ok) plain.0)) in
    let e' = rest prefix h plain.1 in
    newlines-append (prefix ++ (local_prefix ++ to_string_helper t (prefix ++ tree_prefix))) _
    ∙ omega arith

mutual
  lines_of_node : (t : Node) → NodeLines t
  lines_of_node (node f n d c) = node_lines f n d c (lines_of_children c)

  lines_of_children : (c : Children) → ChildrenLines c
  lines_of_children nil = no_lines
  lines_of_children (cons k t nil) = last_lines k t (lines_of_node t)
  lines_of_children (cons k t (cons k' t' c)) =
      more_lines k k' t t' c (lines_of_node t) (lines_of_children (cons k' t' c))

-- Where no name in the tree has a newline in it, the string that the tree prints as has one
-- newline for each of its nodes, the root included.
pub to_string-nodes :
    (m : FsMemory) → HasPlainNames m.filetree → newlines (to_string m) ≡ nodes m.filetree
unfolding to_string
to_string-nodes m plain = lines_of_node m.filetree [] refl plain
