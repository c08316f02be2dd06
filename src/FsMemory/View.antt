-- ===== src/FsMemory/View.antt =====
-- The abstract file system: what stands at each path, as a function from lists of names. The
-- order of the children and the nodes themselves are forgotten.
use distributed_sns.Base.{
  ◌≡◌, refl, Bool, true, false, Option, none, some, List, [], ◌∷◌, ◌++◌, arith, Str, ◌==◌, str_eq,
  if◌then◌else◌, Option-cases, inl, inr,
}
use distributed_sns.FsTree.{Node, node, folder, contents, get_child}
use distributed_sns.FsTree.Views.{find_child-set_child}
use distributed_sns.FsMemory.{put_child, assign}

-- Whether it is a folder, and the data.
abbrev pub Info : Type 0
Info = Bool × Str

abbrev pub info : Node → Info
info n = (folder n, contents n)

unfoldable pub find_node : Node → List Str → Option Node
find_node n [] = some n
find_node n (t ∷ ts) = elim (get_child n t) [ none ↦ none | some c ↦ find_node c ts ]

unfoldable pub view : Node → List Str → Option Info
view n [] = some (info n)
view n (t ∷ ts) = elim (get_child n t) [ none ↦ none | some c ↦ view c ts ]

-- The path `q` seen from the place `ts`, if it leads through there.
unfoldable pub strip : List Str → List Str → Option (List Str)
strip [] q = some q
strip (t ∷ ts) [] = none
strip (t ∷ ts) (u ∷ q) = if u == t then strip ts q else none

unfoldable pub is_prefix : List Str → List Str → Bool
is_prefix [] ts = true
is_prefix (u ∷ q) [] = false
is_prefix (u ∷ q) (t ∷ ts) = if u == t then is_prefix q ts else false

abbrev pub or_else {ℓ} : {A : Type ℓ} → Option A → Option A → Option A
or_else (some a) b = some a
or_else none b = b

-- The view in which the subtree at `ts` is another.
abbrev pub graft :
    (List Str → Option Info) → List Str → (List Str → Option Info) → List Str → Option Info
graft v ts w q = elim (strip ts q) [ some r ↦ w r | none ↦ v q ]

-- The view in which every folder on the way to `ts` stands.
abbrev pub with_folders : (List Str → Option Info) → List Str → List Str → Option Info
with_folders v ts q = or_else (v q) (if is_prefix q ts then some (true, []) else none)

pub get_child-put_child :
    (t u : Str) (c n : Node)
    → get_child (put_child t c n) u ≡ (if u == t then some c else get_child n u)
unfolding get_child
get_child-put_child t u c (node f m d cs) = find_child-set_child u t c cs

pub info-put_child : (t : Str) (c n : Node) → info (put_child t c n) ≡ info n
info-put_child t c (node f m d cs) = refl

pub view-put_child :
    (t u : Str) (c n : Node) (q : List Str)
    → view (put_child t c n) (u ∷ q) ≡ (if u == t then view c q else view n (u ∷ q))
unfolding view
view-put_child t u c n q = ground (arith, get_child-put_child t u c n)

pub view-find_node :
    (n : Node) (ts q : List Str) {m : Node} → find_node n ts ≡ some m → view n (ts ++ q) ≡ view m q
unfolding view find_node
view-find_node n [] q h = ground arith
view-find_node n (t ∷ ts) q h = elim (Option-cases (get_child n t)) [
  | inl e ↦ ground arith
  | inr (c, e) ↦ rw (e, view) (view-find_node c ts q (rw (e, find_node) at h))
]

-- A write through the pointer to the node at `ts` replaces the subtree there, and nothing else.
pub view-assign :
    (n : Node) (ts : List Str) (new : Node) (q : List Str) {m : Node}
    → find_node n ts ≡ some m
    → view (assign n ts new) q ≡ graft (view n) ts (view new) q
unfolding view find_node assign strip
view-assign n [] new q h = refl
view-assign (node f n d cs) (t ∷ ts) new [] h = elim (Option-cases (get_child (node f n d cs) t)) [
  | inl e ↦ ground arith
  | inr (c, e) ↦ rw (e, assign) refl
]
view-assign n (t ∷ ts) new (u ∷ q) {m} h = elim (Option-cases (get_child n t)) [
  | inl e ↦ ground arith
  | inr (c, e) ↦
      let rest : find_node c ts ≡ some m = rw (e, find_node) at h in
      ground (arith, view-put_child t u (assign c ts new) n q, view-assign c ts new q rest)
]
