-- ===== src/FsMemory/Walk/Ends.antt =====
-- Where a walk of `getTreeNode` ends, and what is seen afterwards.
use distributed_sns.Base.{
  ◌≡◌, refl, ◌∙◌, ap, ◌⊎◌, Bool, true, false, none, some, List, [], ◌∷◌, arith, Str, str_eq, inl,
  inr,
}
use distributed_sns.Base.Result.{ok}
use distributed_sns.FsTree.{Node, get_child}
use distributed_sns.FsMemory.{put_walked, put_child, get_tree_node}
use distributed_sns.FsMemory.View.{view, find_node, is_prefix}
use distributed_sns.FsMemory.Walk.Steps.{
  present, created, in_file, missing, fresh, next_cases, get_tree_node_into, into_inv, not_into_inv,
  Walked, find_node-put_child, view-next_present, view-next_created, get_tree_node-fresh, view_same,
  root_folders,
}

pub get_tree_node_found :
    (n : Node) (ts : List Str) (create : Bool) {n' m : Node}
    → get_tree_node n ts create ≡ ok (n', some m)
    → Walked n ts create n' m
unfolding get_tree_node find_node is_prefix view
get_tree_node_found n [] true {n'} {m} h = record {
  at = ground arith;
  seen = λ q. root_folders n n' q (ground arith);
}
get_tree_node_found n [] false {n'} {m} h = record {
  at = ground arith;
  seen = λ q. ap (λ x. view x q) (ground arith);
}
get_tree_node_found n (t ∷ ts) create {n'} {m} h = elim (next_cases n t create) [
  | present c e go ↦
      let (c', below, e') = into_inv n t ts create go h in
      let w = get_tree_node_found c ts create below in
      rw e' (record {
        at = find_node-put_child t ts c' n ∙ w.at;
        seen = view-next_present n t ts create c c' e w.seen;
      })
  | created e on f go ↦
      let (c', below, e') = into_inv n t ts create go h in
      let w = get_tree_node_found (fresh t) ts create below in
      rw e' (record {
        at = find_node-put_child t ts c' _ ∙ w.at;
        seen = rw on (view-next_created n t ts c' e (rw on at w.seen));
      })
  | in_file e on f go ↦
      absurd (ground (arith, not_into_inv n t ts create {n' = n'} {found = some m} (inr go) h))
  | missing e off go ↦
      absurd (ground (arith, not_into_inv n t ts create {n' = n'} {found = some m} (inl go) h))
]

fresh_ne_none :
    (c : Node) (ts : List Str) (create : Bool) {c' n m : Node}
    → create ≡ true
    → get_tree_node c ts create ≡ ok (c', none)
    → get_tree_node c ts true ≡ ok (n, some m)
    → ⊥
fresh_ne_none c ts create on none_found found = ground arith

-- A walk that finds no node has changed nothing that can be seen.
pub get_tree_node-none :
    (n : Node) (ts : List Str) (create : Bool) {n' : Node}
    → get_tree_node n ts create ≡ ok (n', none)
    → (q : List Str) → view n' q ≡ view n q
get_tree_node-none n [] create h q = absurd (unfold get_tree_node in ground arith)
get_tree_node-none n (t ∷ ts) create {n'} h q = elim (next_cases n t create) [
  | present c e go ↦
      let (c', below, e') = into_inv n t ts create go h in
      let w = get_tree_node-none c ts create below in rw e' (view_same n t c c' q e w)
  | created e on f go ↦
      let (c', below, e') = into_inv n t ts create go h in
      let (n₂, m, found, _) = get_tree_node-fresh t ts in
      absurd (fresh_ne_none (fresh t) ts create on below found)
  | in_file e on f go ↦ ap (λ x. view x q) (not_into_inv n t ts create (inr go) h).0
  | missing e off go ↦ ap (λ x. view x q) (not_into_inv n t ts create (inl go) h).0
]

ok-put_walked :
    (n : Node) (t : Str) (ts : List Str) (c c' : Node)
    → get_child n t ≡ some c
    → ok (put_walked t n (c', find_node c ts)) ≡ ok (put_child t c' n, find_node n (t ∷ ts))
unfolding put_walked find_node
ok-put_walked n t ts c c' e = rw (e, find_node)

-- Without leave to create, a walk is a search.
pub get_tree_node_search :
    (n : Node) (ts : List Str) → (n' : Node) × (get_tree_node n ts false ≡ ok (n', find_node n ts))
get_tree_node_search n [] = (n, unfold get_tree_node find_node in refl)
get_tree_node_search n (t ∷ ts) = elim (next_cases n t false) [
  | present c e go ↦
      let (c', below) = get_tree_node_search c ts in
      (
        put_child t c' n,
        get_tree_node_into n t ts false go ∙ rw below (ok-put_walked n t ts c c' e),
      )
  | created e on f go ↦ cc
  | in_file e on f go ↦ cc
  | missing e off go ↦
      (n, unfold get_tree_node find_node in rw (go, get_tree_node) (rw (e, find_node) refl))
]

find_node-cons :
    (n : Node) (t : Str) (ts : List Str) {c : Node}
    → get_child n t ≡ some c
    → find_node n (t ∷ ts) ≡ find_node c ts
unfolding find_node
find_node-cons n t ts e = rw (e, find_node)

find_node-fresh :
    (t : Str) (ts : List Str) {m : Node}
    → find_node (fresh t) ts ≡ some m
    → (s : Str) × (m ≡ fresh s)
unfolding find_node get_child
find_node-fresh t [] h = (t, ground arith)
find_node-fresh t (u ∷ ts) h = cc

-- The node that a walk finds was there, or it is a folder that the walk has made.
pub get_tree_node_origin :
    (n : Node) (ts : List Str) (create : Bool) {n' m : Node}
    → get_tree_node n ts create ≡ ok (n', some m)
    → (find_node n ts ≡ some m) ⊎ ((create ≡ true) × ((s : Str) × (m ≡ fresh s)))
get_tree_node_origin n [] create h = inl (unfold get_tree_node find_node in ground arith)
get_tree_node_origin n (t ∷ ts) create {n'} {m} h = elim (next_cases n t create) [
  | present c e go ↦
      let (c', below, _) = into_inv n t ts create go h in
      elim (get_tree_node_origin c ts create below) [
        | inl there ↦ inl (find_node-cons n t ts e ∙ there)
        | inr made ↦ inr made
      ]
  | created e on f go ↦
      let (c', below, _) = into_inv n t ts create go h in
      inr (
        on,
        elim (get_tree_node_origin (fresh t) ts create below) [
          | inl there ↦ find_node-fresh t ts there
          | inr made ↦ made.1
        ],
      )
  | in_file e on f go ↦
      absurd (ground (arith, not_into_inv n t ts create {n' = n'} {found = some m} (inr go) h))
  | missing e off go ↦
      absurd (ground (arith, not_into_inv n t ts create {n' = n'} {found = some m} (inl go) h))
]
