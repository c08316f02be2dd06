-- ===== src/Coordinator/Registration/Stores.antt =====
-- A server that is put into its cluster together with a change of the lock.
use distributed_sns.Base.{
  ◌+◌, ◌≡◌, ◌∙◌, sym, Bool, false, Option, none, some, arith, Option-cases, inl, inr,
}
use distributed_sns.Base.Int.{ℤ, int_eq, int_order}
use distributed_sns.Base.Map.{find, set, All-set}
use distributed_sns.FsMemory.{FsMemory}
use distributed_sns.Coordinator.State.{ZNode, Cluster}
use distributed_sns.Coordinator.Locks.{held}
use distributed_sns.Coordinator.Invariant.{
  bit, masters, IsServerOk, IsClusterOk, masters-set_new, masters-set_found,
}

-- The node of the server before the heartbeat: there was none, or it had this master flag.
abbrev pub Was : Bool → Option ZNode → Type 0
Was b none = b ≡ false
Was b (some w) = w.master ≡ b

store_new :
    (fs fs' : FsMemory) (id server : ℤ) (m : Cluster) (z : ZNode) (b : Bool)
    → IsClusterOk fs id m
    → find server m ≡ none
    → Was b (find server m)
    → bit (held fs' id) + bit b ≡ bit (held fs id) + bit z.master
    → masters (set server z m) ≡ bit (held fs' id)
store_new fs fs' id server m z b h new was e =
    let was' : b ≡ false = rw new at was in
    let e' : bit (held fs' id) + 0 ≡ bit (held fs id) + bit z.master = rw was' at e in
    masters-set_new server z m new ∙ rw h.counted (omega arith)

store_old :
    (fs fs' : FsMemory) (id server : ℤ) (m : Cluster) (z w : ZNode) (b : Bool)
    → IsClusterOk fs id m
    → find server m ≡ some w
    → Was b (find server m)
    → bit (held fs' id) + bit b ≡ bit (held fs id) + bit z.master
    → masters (set server z m) ≡ bit (held fs' id)
store_old fs fs' id server m z w b h old was e =
    let was' : w.master ≡ b = rw old at was in
    let count : masters (set server z m) + bit b ≡ bit (held fs id) + bit z.master =
      rw (sym was', sym h.counted) (masters-set_found server z w m old) in
    omega arith

-- A server that is put into its cluster together with a fitting change of the lock.
pub store_ok :
    (fs fs' : FsMemory) (id server : ℤ) (m : Cluster) (z : ZNode) (b : Bool)
    → IsClusterOk fs id m
    → Was b (find server m)
    → IsServerOk id z
    → bit (held fs' id) + bit b ≡ bit (held fs id) + bit z.master
    → IsClusterOk fs' id (set server z m)
store_ok fs fs' id server m z b h was good e = record {
  servers = All-set (λ (_, z). IsServerOk id z) server z m good h.servers;
  counted = elim (Option-cases (find server m)) [
    | inl new ↦ store_new fs fs' id server m z b h new was e
    | inr (w, old) ↦ store_old fs fs' id server m z w b h old was e
  ];
}
