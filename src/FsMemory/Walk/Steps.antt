-- ===== src/FsMemory/Walk/Steps.antt =====
-- One token of `getTreeNode`, by its cases.
use distributed_sns.Base.{
  ◌≡◌, refl, ◌∙◌, sym, ap, ◌⊎◌, Bool, true, false, Option, none, some, List, [], ◌∷◌, arith, Str,
  ◌==◌, str_eq, ==_refl, if◌then◌else◌, Option-cases, Bool-cases, inl, inr,
}
use distributed_sns.Base.Result.{ok, ◌>>=◌, >>=-eq-ok}
use distributed_sns.FsTree.{Node, node, nil, folder, get_child, create_child}
use distributed_sns.FsMemory.{
  into, absent, refused, next_node, put_walked, put_child, get_tree_node,
}
use distributed_sns.FsMemory.View.{
  info, view, find_node, is_prefix, with_folders, get_child-put_child, view-put_child,
}

abbrev pub fresh : Str → Node
fresh t = node true t [] nil

-- The four ways in which a round of the walk goes on.
pub data NextCase (n : Node) (t : Str) (create : Bool) : Type 0 where
  present :
      (c : Node) → get_child n t ≡ some c → next_node n t create ≡ into n c → NextCase n t create
  created :
      get_child n t ≡ none
      → create ≡ true
      → folder n ≡ true
      → next_node n t create ≡ into (put_child t (fresh t) n) (fresh t)
      → NextCase n t create
  in_file :
      get_child n t ≡ none
      → create ≡ true
      → folder n ≡ false
      → next_node n t create ≡ refused
      → NextCase n t create
  missing :
      get_child n t ≡ none → create ≡ false → next_node n t create ≡ absent → NextCase n t create

pub next_cases : (n : Node) (t : Str) (create : Bool) → NextCase n t create
unfolding next_node create_child
next_cases n t create = elim (Option-cases (get_child n t)) [
  | inr (c, e) ↦ present c e (rw (e, next_node))
  | inl e ↦ elim (Bool-cases create) [
    | inr off ↦ missing e off (rw (e, next_node) (rw off))
    | inl on ↦ elim (Bool-cases (folder n)) [
      | inl f ↦ created e on f (rw (e, next_node) (rw on (ground arith)))
      | inr f ↦ in_file e on f (rw (e, next_node) (rw on (ground arith)))
    ]
  ]
]

pub get_tree_node_into :
    (n : Node) (t : Str) (ts : List Str) (create : Bool) {n₁ c : Node}
    → next_node n t create ≡ into n₁ c
    → get_tree_node n (t ∷ ts) create
      ≡ (get_tree_node c ts create >>= λ walked. ok (put_walked t n₁ walked))
unfolding get_tree_node
get_tree_node_into n t ts create go = rw (go, get_tree_node)

pub into_inv :
    (n : Node) (t : Str) (ts : List Str) (create : Bool) {n' n₁ c : Node} {found : Option Node}
    → next_node n t create ≡ into n₁ c
    → get_tree_node n (t ∷ ts) create ≡ ok (n', found)
    → (c' : Node) × (get_tree_node c ts create ≡ ok (c', found)) × (n' ≡ put_child t c' n₁)
unfolding put_walked
into_inv n t ts create {n₁ = n₁} {c = c} go h =
    let ((c', found'), below, e) =
      >>=-eq-ok (get_tree_node c ts create) (λ walked. ok (put_walked t n₁ walked))
        (sym (get_tree_node_into n t ts create go) ∙ h) in
    (c', below ∙ ground arith, ground arith)

pub not_into_inv :
    (n : Node) (t : Str) (ts : List Str) (create : Bool) {n' : Node} {found : Option Node}
    → (next_node n t create ≡ absent) ⊎ (next_node n t create ≡ refused)
    → get_tree_node n (t ∷ ts) create ≡ ok (n', found)
    → (n' ≡ n) × (found ≡ none)
unfolding get_tree_node
not_into_inv n t ts create (inl go) h = ground arith
not_into_inv n t [] create (inr go) h = ground arith
not_into_inv n t (_ ∷ _) create (inr go) h = ground arith

-- What is seen after a step into a child that is there, or into a fresh one.
view-present :
    (n : Node) (t : Str) (c' : Node) (u : Str) (q : List Str)
    → view (put_child t c' n) (u ∷ q) ≡ (if u == t then view c' q else view n (u ∷ q))
view-present n t c' u q = view-put_child t u c' n q

view-created :
    (n : Node) (t : Str) (c' : Node) (u : Str) (q : List Str)
    → view (put_child t c' (put_child t (fresh t) n)) (u ∷ q)
      ≡ (if u == t then view c' q else view n (u ∷ q))
view-created n t c' u q =
    ground
      (arith, view-put_child t u c' (put_child t (fresh t) n) q, view-put_child t u (fresh t) n q)

-- A walk that finds its node has made the folders on the way, if it may, and nothing else.
pub record Walked (n : Node) (ts : List Str) (create : Bool) (n' : Node) (m : Node) : Type 0 where
  pub at : find_node n' ts ≡ some m
  pub seen : (q : List Str) → view n' q ≡ (if create then with_folders (view n) ts q else view n q)

info-eq_of_view : (n n' : Node) → info n' ≡ info n → view n' [] ≡ view n []
unfolding view
info-eq_of_view n n' e = ap some e

pub find_node-put_child :
    (t : Str) (ts : List Str) (c n : Node) → find_node (put_child t c n) (t ∷ ts) ≡ find_node c ts
unfolding find_node
find_node-put_child t ts c n = rw (get_child-put_child t t c n, find_node) (rw (==_refl t))

abbrev Seen : Node → List Str → Bool → Node → Type 0
Seen n ts create n' =
    (q : List Str) → view n' q ≡ (if create then with_folders (view n) ts q else view n q)

seen_root :
    (n : Node) (ts : List Str) (create : Bool)
    → view n [] ≡ (if create then with_folders (view n) ts [] else view n [])
unfolding view
seen_root n ts true = refl
seen_root n ts false = refl

pub view-next_present :
    (n : Node) (t : Str) (ts : List Str) (create : Bool) (c c' : Node)
    → get_child n t ≡ some c
    → Seen c ts create c'
    → Seen n (t ∷ ts) create (put_child t c' n)
unfolding view is_prefix
view-next_present (node f m d cs) t ts create c c' e w [] =
    seen_root (node f m d cs) (t ∷ ts) create
view-next_present n t ts create c c' e w (u ∷ q) = ground (arith, view-put_child t u c' n q, w q)

with_folders-fresh :
    (t : Str) (ts q : List Str)
    → with_folders (view (fresh t)) ts q ≡ (if is_prefix q ts then some (true, []) else none)
unfolding view is_prefix get_child
with_folders-fresh t ts [] = refl
with_folders-fresh t ts (u ∷ q) = refl

pub view-next_created :
    (n : Node) (t : Str) (ts : List Str) (c' : Node)
    → get_child n t ≡ none
    → Seen (fresh t) ts true c'
    → Seen n (t ∷ ts) true (put_child t c' (put_child t (fresh t) n))
unfolding view is_prefix
view-next_created (node f m d cs) t ts c' e w [] = refl
view-next_created n t ts c' e w (u ∷ q) =
    ground (arith, view-created n t c' u q, w q ∙ with_folders-fresh t ts q)

next_node-fresh :
    (s t : Str) → next_node (fresh s) t true ≡ into (put_child t (fresh t) (fresh s)) (fresh t)
unfolding next_node get_child create_child
next_node-fresh s t = ground arith

pub get_tree_node-fresh :
    (s : Str) (ts : List Str)
    → (n' m : Node) × (get_tree_node (fresh s) ts true ≡ ok (n', some m)) × (folder m ≡ true)
unfolding put_walked
get_tree_node-fresh s [] = (fresh s, fresh s, unfold get_tree_node in refl, refl)
get_tree_node-fresh s (t ∷ ts) =
    let (n', m, e, f) = get_tree_node-fresh t ts in
    (
      put_child t n' (put_child t (fresh t) (fresh s)),
      m,
      get_tree_node_into (fresh s) t ts true (next_node-fresh s t) ∙ rw e refl,
      f,
    )

pub view_same :
    (n : Node) (t : Str) (c c' : Node) (q : List Str)
    → get_child n t ≡ some c
    → ((r : List Str) → view c' r ≡ view c r)
    → view (put_child t c' n) q ≡ view n q
unfolding view
view_same (node f m d cs) t c c' [] e w = refl
view_same n t c c' (u ∷ q) e w = ground (arith, view-put_child t u c' n q, w q)

pub root_folders : (n n' : Node) (q : List Str) → n' ≡ n → view n' q ≡ with_folders (view n) [] q
unfolding view is_prefix
root_folders n n' [] e = ground arith
root_folders n n' (u ∷ q) e = ground (arith, Option-cases (view n (u ∷ q)))
