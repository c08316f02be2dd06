-- ===== src/FsMemory/Faults.antt =====
-- When an operation comes to an end, and what can stop it.
use distributed_sns.Base.{
  ◌≡◌, refl, ◌∙◌, ◌≢◌, sym, ap, Bool, true, false, Option, none, some, List, [], ◌∷◌, ◌++◌, arith,
  Str, str_eq, ==_ne, ==_refl, if◌then◌else◌,
}
use distributed_sns.Base.Result.{Result, ok, err, null_deref, empty_back, blocked, ◌>>=◌}
use distributed_sns.FsUtils.{split_filepath}
use distributed_sns.FsTree.{Node, node, folder, contents, get_child}
use distributed_sns.FsMemory.{
  FsMemory, Body, put_child, put_walked, pop_back, get_tree_node, at_parent, unlocked_at, run_body,
  operate, lock,
}
use distributed_sns.FsMemory.View.{view, is_prefix}
use distributed_sns.FsMemory.Walk.{
  fresh, get_tree_node_into, get_tree_node-fresh, next_cases, present, created, in_file, missing,
}
use distributed_sns.FsMemory.Operate.{operate_lem}

-- On a file system with a mutex that is free, `create`, `write` and `remove` of the empty path
-- report failure with the mutex still locked, and every later call of the three, with any path,
-- blocks for ever.
pub operate_empty_path :
    (m : FsMemory) (dirs : Bool) (body : Body)
    → m.coarse_mutex ≡ true
    → m.locked ≡ false
    → (m' : FsMemory) × (operate m [] dirs body ≡ ok (m', false))
      × ((file : Str) (dirs' : Bool) (body' : Body) → operate m' file dirs' body' ≡ err blocked)
unfolding operate
operate_empty_path m dirs body guarded free = (
  record m { locked = true },
  ground (arith, ==_refl {A = Str} []),
  λ file dirs' body'. rw guarded,
)

-- The file system while an operation holds its mutex.
held : FsMemory → FsMemory
held m = if m.coarse_mutex then record m { locked = true } else m

module _ (m : FsMemory) (free : m.locked ≡ false) where
  lock-held : lock m ≡ ok (held m)
  unfolding held
  lock-held = ground arith

  filetree-held : (held m).filetree ≡ m.filetree
  unfolding held
  filetree-held = ground arith

  unlocked_at-held : (r : Node × Bool) → unlocked_at (held m) r ≡ (record m { filetree = r.0 }, r.1)
  unfolding held unlocked_at
  unlocked_at-held (t, s) = ground arith

  operate-run_body :
      (file : Str) (dirs : Bool) (body : Body)
      → file ≢ []
      → operate m file dirs body ≡ run_body (held m) file dirs body
  operate-run_body file dirs body named =
      sym (operate_lem m file dirs body) ∙ rw (lock-held) (rw (==_ne file [] named))

  run_body-held :
      (file : Str) (dirs : Bool) (body : Body) {ts : List Str} {a : Str}
      → pop_back (split_filepath file) ≡ ok (ts, a)
      → run_body (held m) file dirs body ≡ (
          get_tree_node m.filetree ts dirs >>= λ r.
          ok (unlocked_at (held m) (at_parent r.0 ts r.1 a body)))
  unfolding run_body
  run_body-held file dirs body popped = rw (popped, filetree-held)

-- On a file system whose mutex is free, `create`, `write` and `remove` of a path that is not
-- empty but has no name in it, such as one of slashes only, take the last element of an empty
-- vector.
pub operate_no_name :
    (m : FsMemory) (file : Str) (dirs : Bool) (body : Body)
    → m.locked ≡ false
    → file ≢ []
    → split_filepath file ≡ []
    → operate m file dirs body ≡ err empty_back
unfolding run_body pop_back
operate_no_name m file dirs body free named e =
    operate-run_body m free file dirs body named ∙ rw (e, run_body)

view-cons :
    (n : Node) (t : Str) (q : List Str) {c : Node}
    → get_child n t ≡ some c
    → view n (t ∷ q) ≡ view c q
unfolding view
view-cons n t q e = rw (e, view)

root_folder : (n : Node) → ((d : Str) → view n [] ≢ some (false, d)) → folder n ≡ true
unfolding view
root_folder (node f m d cs) h = ground (arith, h d)

is_prefix-cons :
    (t : Str) (q ts : List Str) → is_prefix q ts ≡ true → is_prefix (t ∷ q) (t ∷ ts) ≡ true
unfolding is_prefix
is_prefix-cons t q ts h = rw (==_refl t) h

put_walked_lem :
    (t : Str) (n n' m : Node)
    → ◌≡◌ {A = Result (Node × Option Node)}
        (ok (put_walked t n (n', some m)))
        (ok (put_child t n' n, some m))
unfolding put_walked
put_walked_lem t n n' m = refl

-- A walk that may create folders, along a path that goes through a file to a name that is not
-- there and on to a further name, reads through a null pointer.
pub get_tree_node_through_file :
    (n : Node) (q : List Str) (u v : Str) (ts : List Str) {d : Str}
    → view n q ≡ some (false, d)
    → view n (q ++ (u ∷ [])) ≡ none
    → get_tree_node n (q ++ (u ∷ v ∷ ts)) true ≡ err null_deref
get_tree_node_through_file n [] u v ts h e = elim (next_cases n u true) [
  | present c e' go ↦ absurd (unfold view in ground arith)
  | created e' on f go ↦ absurd (unfold view in ground arith)
  | in_file e' on f go ↦ unfold get_tree_node in rw (go, get_tree_node) refl
  | missing e' off go ↦ cc
]
get_tree_node_through_file n (t ∷ q) u v ts {d} h e = elim (next_cases n t true) [
  | present c e' go ↦
      get_tree_node_into n t (q ++ (u ∷ v ∷ ts)) true go
      ∙ rw
          (get_tree_node_through_file c q u v ts {d = d} (sym (view-cons n t q e') ∙ h)
            (sym (view-cons n t _ e') ∙ e))
          refl
  | created e' on f go ↦ absurd (unfold view in ground arith)
  | in_file e' on f go ↦ absurd (unfold view in ground arith)
  | missing e' off go ↦ cc
]

-- Where every entry on the way is a folder, a walk that may create folders ends in a folder.
pub get_tree_node_folders :
    (n : Node) (ts : List Str)
    → ((q : List Str) (d : Str) → is_prefix q ts ≡ true → view n q ≢ some (false, d))
    → (n' m : Node) × (get_tree_node n ts true ≡ ok (n', some m)) × (folder m ≡ true)
get_tree_node_folders n [] h =
    (n, n, unfold get_tree_node in refl, root_folder n (λ d. h [] d (unfold is_prefix in refl)))
get_tree_node_folders n (t ∷ ts) h = elim (next_cases n t true) [
  | present c e' go ↦
      let (n', m, e, f) =
        get_tree_node_folders c ts
          (λ q d p v. h (t ∷ q) d (is_prefix-cons t q ts p) (view-cons n t q e' ∙ v)) in
      (put_child t n' n, m, get_tree_node_into n t ts true go ∙ rw e (put_walked_lem t n n' m), f)
  | created e' on f go ↦
      let (n', m, e, f') = get_tree_node-fresh t ts in
      (
        put_child t n' (put_child t (fresh t) n),
        m,
        get_tree_node_into n t ts true go ∙ rw e (put_walked_lem t _ n' m),
        f',
      )
  | in_file e' on f go ↦ absurd (
      h [] (contents n) (unfold is_prefix in refl)
        (unfold view in ap (λ x. some (x, contents n)) f))
  | missing e' off go ↦ cc
]

-- Where the mutex is free, the path is not empty, it has a last name, and the walk to the parent
-- comes to its end, the operation returns: it leaves the tree that its action at the parent
-- makes, with the mutex free.
pub operate_total :
    (m : FsMemory) (file : Str) (dirs : Bool) (body : Body) {ts : List Str} {a : Str} {tree : Node}
    {parent : Option Node}
    → m.locked ≡ false
    → file ≢ []
    → pop_back (split_filepath file) ≡ ok (ts, a)
    → get_tree_node m.filetree ts dirs ≡ ok (tree, parent)
    → operate m file dirs body
      ≡ ok (
        record m { filetree = (at_parent tree ts parent a body).0 },
        (at_parent tree ts parent a body).1,
      )
operate_total m file dirs body {ts} {a} {tree} {parent} free named popped walked =
    operate-run_body m free file dirs body named
    ∙ run_body-held m free file dirs body popped
    ∙ rw walked (ap ok (unlocked_at-held m free _))
