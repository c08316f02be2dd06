-- ===== src/FsMemory/Graft.antt =====
-- Views of views: laws of `strip`, `graft` and `with_folders`.
use distributed_sns.Base.{
  ◌≡◌, refl, ◌∙◌, sym, false, Option, none, some, List, [], ◌∷◌, ◌++◌, arith, Str, ◌==◌, str_eq,
  ==_refl, eq_of_==, Option-cases, Bool-cases, inl, inr,
}
use distributed_sns.FsTree.{Node, get_child}
use distributed_sns.FsMemory.View.{Info, view, find_node, strip, is_prefix, graft, with_folders}

pub strip-cons_self : (t : Str) (ts q : List Str) → strip (t ∷ ts) (t ∷ q) ≡ strip ts q
unfolding strip
strip-cons_self t ts q = rw (==_refl t)

pub strip-cons_ne : (t u : Str) (ts q : List Str) → (u == t) ≡ false → strip (t ∷ ts) (u ∷ q) ≡ none
unfolding strip
strip-cons_ne t u ts q miss = rw miss

graft-cons_self :
    (v : List Str → Option Info) (t : Str) (ts : List Str) (w : List Str → Option Info)
    (q : List Str)
    → graft v (t ∷ ts) w (t ∷ q) ≡ graft (λ r. v (t ∷ r)) ts w q
graft-cons_self v t ts w q = rw (strip-cons_self t ts q, graft)

graft-cons_ne :
    (v : List Str → Option Info) (t u : Str) (ts : List Str) (w : List Str → Option Info)
    (q : List Str)
    → (u == t) ≡ false
    → graft v (t ∷ ts) w (u ∷ q) ≡ v (u ∷ q)
graft-cons_ne v t u ts w q miss = rw (strip-cons_ne t u ts q miss, graft)

-- A graft inside a graft is a graft further down.
pub graft-append :
    (v : List Str → Option Info) (ts us : List Str) (w : List Str → Option Info) (q : List Str)
    → graft v ts (graft (λ r. v (ts ++ r)) us w) q ≡ graft v (ts ++ us) w q
graft-append v [] us w q = unfold strip in refl
graft-append v (t ∷ ts) us w [] = unfold strip in refl
graft-append v (t ∷ ts) us w (u ∷ q) = elim (Bool-cases (u == t)) [
  | inl hit ↦ rw (eq_of_== u t hit) (
      graft-cons_self v t ts _ q
      ∙ graft-append (λ r. v (t ∷ r)) ts us w q
      ∙ sym (graft-cons_self v t (ts ++ us) w q))
  | inr miss ↦ graft-cons_ne v t u ts _ q miss ∙ sym (graft-cons_ne v t u (ts ++ us) w q miss)
]

-- To graft what is there changes nothing.
pub graft_self :
    (v : List Str → Option Info) (ts q : List Str) → graft v ts (λ r. v (ts ++ r)) q ≡ v q
graft_self v [] q = unfold strip in refl
graft_self v (t ∷ ts) [] = unfold strip in refl
graft_self v (t ∷ ts) (u ∷ q) = elim (Bool-cases (u == t)) [
  | inl hit ↦ rw (eq_of_== u t hit) (graft-cons_self v t ts _ q ∙ graft_self (λ r. v (t ∷ r)) ts q)
  | inr miss ↦ graft-cons_ne v t u ts _ q miss
]

-- Only the values on the grafted places count.
pub graft-congr :
    (v v' : List Str → Option Info) (ts : List Str) (w w' : List Str → Option Info) (q : List Str)
    → v q ≡ v' q
    → ((r : List Str) → w r ≡ w' r)
    → graft v ts w q ≡ graft v' ts w' q
graft-congr v v' ts w w' q e f = elim (Option-cases (strip ts q)) [
  | inl n ↦ rw (n, graft) e
  | inr (r, s) ↦ rw (s, graft) (f r)
]

-- Where the node at `ts` is there, all folders on the way are.
pub with_folders_of_found :
    (n : Node) (ts q : List Str) {m : Node}
    → find_node n ts ≡ some m
    → with_folders (view n) ts q ≡ view n q
unfolding find_node view is_prefix
with_folders_of_found n ts [] h = refl
with_folders_of_found n [] (u ∷ q) h = ground (arith, Option-cases (view n (u ∷ q)))
with_folders_of_found n (t ∷ ts) (u ∷ q) {m} h = elim (Option-cases (get_child n t)) [
  | inl e ↦ ground arith
  | inr (c, e) ↦
      let rest : find_node c ts ≡ some m = rw (e, find_node) at h in
      ground (arith, with_folders_of_found c ts q rest)
]
