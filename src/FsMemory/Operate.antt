-- ===== src/FsMemory/Operate.antt =====
-- What `create`, `write` and `remove` have in common, seen from outside.
use distributed_sns.Base.{
  ◌≡◌, refl, ◌∙◌, sym, ap, Bool, false, Option, List, [], arith, Str, ◌==◌, str_eq, eq_of_==,
  if◌then◌else◌, Bool-cases, inl, inr,
}
use distributed_sns.Base.Result.{Result, ok, ◌>>=◌, >>=-eq-ok}
use distributed_sns.FsUtils.{split_filepath}
use distributed_sns.FsTree.{Node}
use distributed_sns.FsMemory.{
  FsMemory, Body, lock, pop_back, get_tree_node, at_parent, unlocked_at, run_body, operate,
}
use distributed_sns.FsMemory.View.{Info, view}

-- What is seen at each path.
abbrev pub seen : FsMemory → List Str → Option Info
seen m = view m.filetree

-- A completed operation took the early return for the empty path, or came to its body.
pub data Run (m : FsMemory) (file : Str) (dirs : Bool) (body : Body) (m' : FsMemory)
    (success : Bool) : Type 0 where
  refused : file ≡ [] → success ≡ false → m'.filetree ≡ m.filetree → Run m file dirs body m' success
  ran :
      (ts : List Str) (a : Str) (tree : Node) (parent : Option Node)
      → pop_back (split_filepath file) ≡ ok (ts, a)
      → get_tree_node m.filetree ts dirs ≡ ok (tree, parent)
      → at_parent tree ts parent a body ≡ (m'.filetree, success)
      → Run m file dirs body m' success

lock_inv : (m : FsMemory) {l : FsMemory} → lock m ≡ ok l → l.filetree ≡ m.filetree
lock_inv m h = ground arith

unlocked_at_inv :
    (l : FsMemory) (r : Node × Bool) {m' : FsMemory} {success : Bool}
    → ok (unlocked_at l r) ≡ ok (m', success)
    → r ≡ (m'.filetree, success)
unfolding unlocked_at
unlocked_at_inv l (tree, s) h = (ground arith)

Run-of_run_body :
    (l : FsMemory) (file : Str) (dirs : Bool) (body : Body) {m' : FsMemory} {success : Bool}
    → run_body l file dirs body ≡ ok (m', success)
    → Run l file dirs body m' success
unfolding run_body
Run-of_run_body l file dirs body {m' = m'} {success = success} h =
    let ((ts, a), popped, h₁) = >>=-eq-ok (pop_back (split_filepath file)) _ h in
    let ((tree, parent), walked, h₂) = >>=-eq-ok (get_tree_node l.filetree ts dirs) _ h₁ in
    ran ts a tree parent popped walked (unlocked_at_inv l (at_parent tree ts parent a body) h₂)

Run-congr :
    {m l m' : FsMemory} {file : Str} {dirs : Bool} {body : Body} {success : Bool}
    → l.filetree ≡ m.filetree
    → Run l file dirs body m' success
    → Run m file dirs body m' success
Run-congr e (refused f s t) = refused f s (t ∙ e)
Run-congr {dirs = dirs} e (ran ts a tree parent popped walked done) =
    ran ts a tree parent popped (ap (λ t. get_tree_node t ts dirs) (sym e) ∙ walked) done

refused_inv :
    (l : FsMemory) (file : Str) (dirs : Bool) (body : Body) {m' : FsMemory} {success : Bool}
    → (if file == [] then ok (l, false) else run_body l file dirs body) ≡ ok (m', success)
    → Run l file dirs body m' success
refused_inv l file dirs body {m' = m'} {success = success} h = elim (Bool-cases (file == [])) [
  | inl e ↦
      let h₁ : ◌≡◌ {A = Result (FsMemory × Bool)} (ok (l, false)) (ok (m', success)) = rw e at h in
      refused (eq_of_== file [] e) (ground arith) (ground arith)
  | inr e ↦ Run-of_run_body l file dirs body (rw e at h)
]

pub operate_lem :
    (m : FsMemory) (file : Str) (dirs : Bool) (body : Body)
    → (lock m >>= λ l. if file == [] then ok (l, false) else run_body l file dirs body)
      ≡ operate m file dirs body
unfolding operate
operate_lem m file dirs body = refl

pub Run-of_operate :
    (m : FsMemory) (file : Str) (dirs : Bool) (body : Body) {m' : FsMemory} {success : Bool}
    → operate m file dirs body ≡ ok (m', success)
    → Run m file dirs body m' success
Run-of_operate m file dirs body h =
    let (l, locked, h₁) =
      >>=-eq-ok (lock m) (λ l. if file == [] then ok (l, false) else run_body l file dirs body)
        (operate_lem m file dirs body ∙ h) in
    Run-congr (lock_inv m locked) (refused_inv l file dirs body h₁)
