-- ===== src/FsMemory/Effect.antt =====
-- The operations seen as changes of the view, from what their bodies do at the parent.
use distributed_sns.Base.{
  ◌≡◌, refl, ◌∙◌, sym, ap, Bool, true, false, Option, none, some, List, [], ◌∷◌, ◌++◌, arith, Str,
  str_eq, if◌then◌else◌, inl, inr, append_assoc,
}
use mathlib.Core.Path.{fun_ext, subst}
use distributed_sns.Base.Result.{Result, ok, >>=-eq-ok}
use distributed_sns.FsUtils.{split_filepath}
use distributed_sns.FsUtils.Paths.{but_last}
use distributed_sns.FsTree.{Node}
use distributed_sns.FsMemory.{FsMemory, Body, pop_back, assign, get_tree_node, at_parent, operate}
use distributed_sns.FsMemory.View.{
  Info, view, find_node, graft, with_folders, view-find_node, view-assign,
}
use distributed_sns.FsMemory.Graft.{graft_self, graft-append, graft-congr, with_folders_of_found}
use distributed_sns.FsMemory.Walk.{
  fresh, Walked, get_tree_node_found, get_tree_node-none, get_tree_node_origin,
}
use distributed_sns.FsMemory.Operate.{seen, refused, ran, Run-of_operate}

pushed :
    (t : Str) (p : List Str) {rest ts : List Str} {last a : Str}
    → (p ≡ rest ++ (last ∷ [])) × (rest ≡ but_last p)
    → ◌≡◌ {A = Result (List Str × Str)} (ok (t ∷ rest, last)) (ok (ts, a))
    → (t ∷ p ≡ ts ++ (a ∷ [])) × (ts ≡ t ∷ but_last p)
pushed t p h e = ground arith

pub pop_back_inv :
    (p : List Str) {ts : List Str} {a : Str}
    → pop_back p ≡ ok (ts, a)
    → (p ≡ ts ++ (a ∷ [])) × (ts ≡ but_last p)
unfolding pop_back
pop_back_inv [] h = cc
pop_back_inv (t ∷ []) h = ground arith
pop_back_inv (t ∷ u ∷ p) {ts} {a} h =
    let ((rest, last), popped, e) = >>=-eq-ok (pop_back (u ∷ p)) _ h in
    pushed t (u ∷ p) (pop_back_inv (u ∷ p) popped) e

-- What an operation makes of the subtree at its file.
abbrev pub Effect : Type 0
Effect = (List Str → Option Info) → List Str → Option Info

-- The view in which an operation works: with the folders on the way, if it may create them.
abbrev pub before : FsMemory → Str → Bool → List Str → Option Info
before m file dirs q =
    if dirs then with_folders (seen m) (but_last (split_filepath file)) q else seen m q

-- The laws of a body: what it does where it succeeds, that it does nothing where it fails, and
-- that it does not fail in a folder that was made for it.
pub record IsBody (body : Body) (dirs : Bool) (effect : Effect) : Type 0 where
  pub succeeds :
      (parent : Node) (a : Str) (parent' : Node)
      → body parent a ≡ (parent', true)
      → (r : List Str)
      → view parent' r ≡ graft (view parent) (a ∷ []) (effect (λ s. view parent (a ∷ s))) r
  pub fails :
      (parent : Node) (a : Str) (parent' : Node)
      → body parent a ≡ (parent', false)
      → parent' ≡ parent
  pub in_fresh : dirs ≡ true → (s a : Str) → (body (fresh s) a).1 ≡ true

at_parent_inv :
    (tree : Node) (ts : List Str) (parent : Node) (a : Str) (body : Body) {t : Node}
    {success : Bool}
    → at_parent tree ts (some parent) a body ≡ (t, success)
    → (parent' : Node) × (body parent a ≡ (parent', success)) × (t ≡ assign tree ts parent')
unfolding at_parent
at_parent_inv tree ts parent a body h = ((body parent a).0, ground arith, ground arith)

no_parent :
    (tree : Node) (ts : List Str) (a : Str) (body : Body) {t : Node}
    → ¬ (at_parent tree ts none a body ≡ (t, true))
unfolding at_parent
no_parent tree ts a body h = ground arith

no_parent_inv :
    (tree : Node) (ts : List Str) (a : Str) (body : Body) {t : Node} {success : Bool}
    → at_parent tree ts none a body ≡ (t, success)
    → t ≡ tree
unfolding at_parent
no_parent_inv tree ts a body h = ground arith

-- The same effect, written over the view of the walk and over the view before it.
effect_at :
    (effect : Effect) (v w : List Str → Option Info) (p ts : List Str) (a : Str) (q : List Str)
    → v ≡ w
    → p ≡ ts ++ (a ∷ [])
    → graft v (ts ++ (a ∷ [])) (effect (λ s. v (ts ++ (a ∷ s)))) q
      ≡ graft w p (effect (λ s. w (p ++ s))) q
effect_at effect v w p ts a q e e' =
    rw (e, e')
      (ap (λ f. graft w (ts ++ (a ∷ [])) (effect f) q)
        (fun_ext (λ s. ap w (sym (append_assoc ts (a ∷ []) s)))))

walk_before :
    (m : FsMemory) (file : Str) (dirs : Bool) (ts : List Str) {tree parent : Node}
    → Walked m.filetree ts dirs tree parent
    → ts ≡ but_last (split_filepath file)
    → view tree ≡ before m file dirs
walk_before m file dirs ts w e =
    fun_ext (λ q. w.seen q ∙ ap (λ us. if dirs then with_folders (seen m) us q else seen m q) e)

folders_there :
    (dirs : Bool) (n : Node) (ts q : List Str) {m : Node}
    → find_node n ts ≡ some m
    → (if dirs then with_folders (view n) ts q else view n q) ≡ view n q
folders_there true n ts q h = with_folders_of_found n ts q h
folders_there false n ts q h = refl

module _ {body : Body} {dirs : Bool} {effect : Effect} (laws : IsBody body dirs effect) where
  at_found :
      (m : FsMemory) (file : Str) (q ts : List Str) (a : Str) (tree parent : Node) {t : Node}
      → Walked m.filetree ts dirs tree parent
      → split_filepath file ≡ ts ++ (a ∷ [])
      → ts ≡ but_last (split_filepath file)
      → at_parent tree ts (some parent) a body ≡ (t, true)
      → view t q
        ≡ graft
            (before m file dirs)
            (split_filepath file)
            (effect (λ s. before m file dirs (split_filepath file ++ s)))
            q
  at_found m file q ts a tree parent w split rest done =
      let (parent', e, e') = at_parent_inv tree ts parent a body done in
      let below : view parent ≡ (λ r. view tree (ts ++ r)) =
        fun_ext (λ r. sym (view-find_node tree ts r w.at)) in
      ap (λ x. view x q) e'
      ∙ view-assign tree ts parent' q w.at
      ∙ graft-congr (view tree) (view tree) ts (view parent')
          (graft (λ r. view tree (ts ++ r)) (a ∷ []) (effect (λ s. view tree (ts ++ (a ∷ s))))) q
          refl
          (λ r.
            laws.succeeds parent a parent' e r
            ∙ ap (λ v. graft v (a ∷ []) (effect (λ s. v (a ∷ s))) r) below)
      ∙ graft-append (view tree) ts (a ∷ []) (effect (λ s. view tree (ts ++ (a ∷ s)))) q
      ∙ effect_at effect (view tree) (before m file dirs) _ ts a q
          (walk_before m file dirs ts w rest) split

  -- A successful operation replaces the subtree at its file, and nothing else.
  pub operate-seen :
      (m : FsMemory) (file : Str) {m' : FsMemory}
      → operate m file dirs body ≡ ok (m', true)
      → (q : List Str)
      → seen m' q
        ≡ graft
            (before m file dirs)
            (split_filepath file)
            (effect (λ s. before m file dirs (split_filepath file ++ s)))
            q
  operate-seen m file {m'} h q = elim (Run-of_operate m file dirs body h) [
    | refused _ bad _ ↦ cc
    | ran ts a tree none popped walked done ↦ absurd (no_parent tree ts a body done)
    | ran ts a tree (some parent) popped walked done ↦
        let w = get_tree_node_found m.filetree ts dirs walked in
        let (split, rest) = pop_back_inv (split_filepath file) popped in
        at_found m file q ts a tree parent w split rest done
  ]

  contradiction :
      (s : Str) {parent parent' : Node} {a : Str}
      → dirs ≡ true
      → parent ≡ fresh s
      → body parent a ≡ (parent', false)
      → ⊥
  contradiction s {a = a} on made e = ground (arith, laws.in_fresh on s a)

  at_failed :
      (m : FsMemory) (q ts : List Str) (a : Str) (tree parent : Node) {t : Node}
      → get_tree_node m.filetree ts dirs ≡ ok (tree, some parent)
      → at_parent tree ts (some parent) a body ≡ (t, false)
      → view t q ≡ seen m q
  at_failed m q ts a tree parent walked done =
      let (parent', e, e') = at_parent_inv tree ts parent a body done in
      let w = get_tree_node_found m.filetree ts dirs walked in
      elim (get_tree_node_origin m.filetree ts dirs walked) [
        | inl there ↦
            ap (λ x. view x q) e'
            ∙ view-assign tree ts parent' q w.at
            ∙ graft-congr (view tree) (view tree) ts (view parent') (λ r. view tree (ts ++ r)) q
                refl
                (λ r.
                  ap (λ x. view x r) (laws.fails parent a parent' e)
                  ∙ sym (view-find_node tree ts r w.at))
            ∙ graft_self (view tree) ts q
            ∙ w.seen q
            ∙ folders_there dirs m.filetree ts q there
        | inr (on, (s, made)) ↦ absurd (contradiction s on made e)
      ]

  -- An operation that reports failure has changed nothing that can be seen.
  pub operate-failed :
      (m : FsMemory) (file : Str) {m' : FsMemory}
      → operate m file dirs body ≡ ok (m', false)
      → (q : List Str) → seen m' q ≡ seen m q
  operate-failed m file {m'} h q = elim (Run-of_operate m file dirs body h) [
    | refused _ _ same ↦ ap (λ t. view t q) same
    | ran ts a tree none popped walked done ↦
        ap (λ x. view x q) (no_parent_inv tree ts a body done)
        ∙ get_tree_node-none m.filetree ts dirs walked q
    | ran ts a tree (some parent) popped walked done ↦ at_failed m q ts a tree parent walked done
  ]

-- What a successful body needs of the entry at its name was there before the operation.
pub operate-needs :
    (P : Option Info → Type 0) {body : Body} (dirs : Bool)
    → ((parent : Node) (a : Str) (parent' : Node)
        → body parent a ≡ (parent', true)
        → P (view parent (a ∷ [])))
    → (m : FsMemory) (file : Str) {m' : FsMemory} → operate m file dirs body ≡ ok (m', true)
    → P (before m file dirs (split_filepath file))
operate-needs P {body} dirs needs m file {m'} h = elim (Run-of_operate m file dirs body h) [
  | refused _ bad _ ↦ absurd cc
  | ran ts a tree none popped walked done ↦ absurd (no_parent tree ts a body done)
  | ran ts a tree (some parent) popped walked done ↦
      let w = get_tree_node_found m.filetree ts dirs walked in
      let (split, rest) = pop_back_inv (split_filepath file) popped in
      let (parent', e, e') = at_parent_inv tree ts parent a body done in
      let same : view parent (a ∷ []) ≡ before m file dirs (split_filepath file) =
        sym (view-find_node tree ts (a ∷ []) w.at)
        ∙ ap (λ f. f (ts ++ (a ∷ []))) (walk_before m file dirs ts w rest)
        ∙ ap (before m file dirs) (sym split) in
      subst P same (needs parent a parent' e)
]
