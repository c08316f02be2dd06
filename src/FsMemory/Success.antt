-- ===== src/FsMemory/Success.antt =====
-- When the operations succeed.
use distributed_sns.Base.{
  ◌≡◌, refl, ◌∙◌, ◌≢◌, sym, Bool, true, false, none, some, List, [], ◌∷◌, ◌++◌, arith, Str, str_eq,
  ==_refl, Option-cases, inl, inr,
}
use distributed_sns.Base.Result.{Result, ok}
use distributed_sns.FsUtils.{split_filepath}
use distributed_sns.FsTree.{Node, folder, get_child, create_child, remove_child}
use distributed_sns.FsMemory.{
  FsMemory, Body, pop_back, at_parent, operate, create_body, create, remove,
}
use distributed_sns.FsMemory.View.{Info, view, find_node, is_prefix, view-find_node}
use distributed_sns.FsMemory.Walk.{Walked, get_tree_node_found, get_tree_node_search}
use distributed_sns.FsMemory.Operate.{seen}
use distributed_sns.FsMemory.Faults.{operate_total, get_tree_node_folders}

pub pop_back-append : (ts : List Str) (a : Str) → pop_back (ts ++ (a ∷ [])) ≡ ok (ts, a)
unfolding pop_back
pop_back-append [] a = refl
pop_back-append (t ∷ []) a = refl
pop_back-append (t ∷ u ∷ ts) a = rw (pop_back-append (u ∷ ts) a)

-- The call comes to its end with this success, and leaves the mutex free.
abbrev pub Ends : Result (FsMemory × Bool) → Bool → Type 0
Ends r s = (m' : FsMemory) × (r ≡ ok (m', s)) × (m'.locked ≡ false)

Ends-subst : {r : Result (FsMemory × Bool)} {s s' : Bool} → Ends r s → s ≡ s' → Ends r s'
Ends-subst (m', e, free) h = (m', rw h at e, free)

not_found :
    (n : Node) (ts : List Str) (a : Str) {i : Info}
    → find_node n ts ≡ none
    → view n (ts ++ (a ∷ [])) ≡ some i
    → ⊥
unfolding find_node view
not_found n [] a e h = cc
not_found n (t ∷ ts) a {i} e h = elim (Option-cases (get_child n t)) [
  | inl e' ↦ ground arith
  | inr (c, e') ↦ not_found c ts a {i = i} (rw (e', find_node) at e) (rw (e', view) at h)
]

remove-operate : (m : FsMemory) (file : Str) → remove m file ≡ operate m file false remove_child
unfolding remove
remove-operate m file = refl

create-operate :
    (m : FsMemory) (file : Str) (is_folder : Bool)
    → create m file is_folder true ≡ operate m file true (create_body is_folder)
unfolding create
create-operate m file is_folder = refl

remove_child-true :
    (parent : Node) (a : Str) {i : Info}
    → view parent (a ∷ []) ≡ some i
    → (tree : Node) (ts : List Str) → (at_parent tree ts (some parent) a remove_child).1 ≡ true
unfolding view at_parent remove_child get_child
remove_child-true parent a h tree ts = ground arith

create_body-true :
    (is_folder : Bool) (parent : Node) (a : Str) (tree : Node) (ts : List Str)
    → folder parent ≡ true
    → view parent (a ∷ []) ≡ none
    → (at_parent tree ts (some parent) a (create_body is_folder)).1 ≡ true
unfolding view at_parent create_body create_child
create_body-true is_folder parent a tree ts f h = ground (arith, ==_refl {A = Str} [])

-- A path is no prefix of the path of its parent.
not_is_prefix : (ts : List Str) (a : Str) → is_prefix (ts ++ (a ∷ [])) ts ≡ false
unfolding is_prefix
not_is_prefix [] a = refl
not_is_prefix (t ∷ ts) a = rw (==_refl t) (not_is_prefix ts a)

absent_below :
    (m : FsMemory) (tree parent : Node) (ts : List Str) (a : Str)
    → Walked m.filetree ts true tree parent
    → seen m (ts ++ (a ∷ [])) ≡ none
    → view parent (a ∷ []) ≡ none
absent_below m tree parent ts a w h =
    sym (view-find_node tree ts (a ∷ []) w.at)
    ∙ w.seen (ts ++ (a ∷ []))
    ∙ rw (h, not_is_prefix ts a) refl

module _ (m : FsMemory) (file : Str) (ts : List Str) (a : Str) (free : m.locked ≡ false)
    (named : file ≢ []) (split : split_filepath file ≡ ts ++ (a ∷ [])) where
  popped : pop_back (split_filepath file) ≡ ok (ts, a)
  popped = rw split (pop_back-append ts a)

  -- Without leave to create folders, an operation always comes to an end.
  pub operate-Ends : (body : Body) → (s : Bool) × Ends (operate m file false body) s
  operate-Ends body =
      let (tree, walked) = get_tree_node_search m.filetree ts in
      (_, (_, operate_total m file false body free named popped walked, free))

  -- Where an entry stands at the path, its parent is found, and holds it.
  parent_of :
      {i : Info}
      → seen m (ts ++ (a ∷ [])) ≡ some i
      → (parent : Node) × (find_node m.filetree ts ≡ some parent) × (view parent (a ∷ []) ≡ some i)
  parent_of h = elim (Option-cases (find_node m.filetree ts)) [
    | inl e ↦ absurd (not_found m.filetree ts a e h)
    | inr (parent, e) ↦ (parent, e, sym (view-find_node m.filetree ts (a ∷ []) e) ∙ h)
  ]

  -- What is there can be removed.
  pub remove-Ends : {i : Info} → seen m (ts ++ (a ∷ [])) ≡ some i → Ends (remove m file) true
  remove-Ends h =
      let (parent, found, child) = parent_of h in
      let (tree, walked) = get_tree_node_search m.filetree ts in
      Ends-subst
        (
          _,
          remove-operate m file
              ∙ operate_total m file false remove_child free named popped (rw found at walked),
          free,
        )
        (remove_child-true parent a child tree ts)

  -- On a file system whose mutex is free, a `create` that may create directories, of a path that is
  -- not empty and has a last name, comes to its end with success and leaves the mutex free, where
  -- nothing is seen at the path and no file on the way to it.
  pub create-Ends :
      (is_folder : Bool)
      → ((q : List Str) (d : Str) → is_prefix q ts ≡ true → seen m q ≢ some (false, d))
      → seen m (ts ++ (a ∷ [])) ≡ none
      → Ends (create m file is_folder true) true
  create-Ends is_folder folders h =
      let (tree, parent, walked, f) = get_tree_node_folders m.filetree ts folders in
      let w = get_tree_node_found m.filetree ts true walked in
      Ends-subst
        (
          _,
          create-operate m file is_folder
              ∙ operate_total m file true (create_body is_folder) free named popped walked,
          free,
        )
        (create_body-true is_folder parent a tree ts f (absent_below m tree parent ts a w h))
