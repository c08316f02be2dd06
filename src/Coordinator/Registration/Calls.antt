-- ===== src/Coordinator/Registration/Calls.antt =====
-- `Heartbeat` as a whole: out of range, rejected, or admitted.
use mathlib.Core.Path.{subst}
use distributed_sns.Base.{
  ℕ, zero, suc, ◌≡◌, refl, ◌∙◌, ap, false, not, ◌&&◌, none, some, List, arith, if◌then◌else◌,
  Bool-cases, Option-cases, inl, inr, get_elem?, length,
}
use distributed_sns.Base.Int.{ℤ, pos, negsuc, int_eq, int_order}
use distributed_sns.Base.Result.{Result, ok}
use distributed_sns.Base.Map.{find, All-find}
use distributed_sns.Coordinator.State.{
  ServerInfo, ZNode, new_znode, is_active, set_from_server_info, Cluster, Coordinator, id_to_index,
  empty_path,
}
use distributed_sns.Coordinator.Heartbeat.{
  accept, Reply, invalid_cluster, already_active, heartbeat_in, heartbeat, cluster_in_range,
}
use distributed_sns.Coordinator.Invariant.{IsServerOk, id_of, Inv}
use distributed_sns.Coordinator.Registration.Accepted.{accept-Inv}

heartbeat_named :
    (cs : List Cluster) (id : ℤ) (i : ℕ) (m : Cluster)
    → cluster_in_range cs (id_to_index id) ≡ some (i, m)
    → (get_elem? cs i ≡ some m) × (id ≡ id_of i)
unfolding cluster_in_range
heartbeat_named cs (pos zero) i m h = absurd cc
heartbeat_named cs (pos (suc j)) i m h = elim (Option-cases (get_elem? cs j)) [
  | inl out ↦ absurd (ground arith)
  | inr (n, there) ↦
      let same : j ≡ i = ground arith in
      (subst (λ k. get_elem? cs k ≡ some m) same (ground arith), ap (λ k. pos (suc k)) same)
]
heartbeat_named cs (negsuc j) i m h = absurd cc

heartbeat_out :
    (c : Coordinator) (now : ℕ) (s : ServerInfo)
    → cluster_in_range c.clusters (id_to_index s.clusterid) ≡ none
    → heartbeat c now s ≡ ok (c, empty_path, invalid_cluster (length c.clusters))
unfolding heartbeat
heartbeat_out c now s h = rw (h, heartbeat) refl

pub heartbeat_found :
    (c : Coordinator) (now : ℕ) (s : ServerInfo) (i : ℕ) (m : Cluster)
    → cluster_in_range c.clusters (id_to_index s.clusterid) ≡ some (i, m)
    → heartbeat c now s ≡ heartbeat_in c now s i m
unfolding heartbeat
heartbeat_found c now s i m h = rw (h, heartbeat) refl

pub heartbeat_in_new :
    (c : Coordinator) (now : ℕ) (s : ServerInfo) (i : ℕ) (m : Cluster)
    → find s.serverid m ≡ none
    → heartbeat_in c now s i m ≡ accept c s i m (set_from_server_info now s new_znode)
unfolding heartbeat_in
heartbeat_in_new c now s i m h = rw (h, heartbeat_in) refl

pub heartbeat_in_old :
    (c : Coordinator) (now : ℕ) (s : ServerInfo) (i : ℕ) (m : Cluster) (w : ZNode)
    → find s.serverid m ≡ some w
    → heartbeat_in c now s i m ≡ (
        if not s.registered && is_active w
        then ok (c, empty_path, already_active)
        else accept c s i m (set_from_server_info now s w))
unfolding heartbeat_in
heartbeat_in_old c now s i m w h = rw (h, heartbeat_in) refl

by_equation :
    {x y : Result Reply}
    → x ≡ y
    → (r : Reply) × (y ≡ ok r) × Inv r.0
    → (r : Reply) × (x ≡ ok r) × Inv r.0
by_equation e (r, run, v) = (r, e ∙ run, v)

heartbeat_in-Inv :
    (c : Coordinator) (now : ℕ) (s : ServerInfo) (i : ℕ) (m : Cluster)
    → Inv c
    → get_elem? c.clusters i ≡ some m
    → s.clusterid ≡ id_of i
    → (r : Reply) × (heartbeat_in c now s i m ≡ ok r) × Inv r.0
heartbeat_in-Inv c now s i m v there named = elim (Option-cases (find s.serverid m)) [
  | inl new ↦ by_equation (heartbeat_in_new c now s i m new) (
      accept-Inv c s i m v there named (set_from_server_info now s new_znode) false (rw new refl)
        refl refl (λ h. absurd cc))
  | inr (w, old) ↦
      by_equation (heartbeat_in_old c now s i m w old)
        (elim (Bool-cases (not s.registered && is_active w)) [
          | inl active ↦ rw active (_, refl, v)
          | inr admitted ↦ rw admitted (
              accept-Inv c s i m v there named (set_from_server_info now s w) w.master (rw old refl)
                refl refl
                (λ f.
                  ((All-find (λ (_, z). IsServerOk (id_of i) z) s.serverid m old
                      (v.clusters i m there).servers).as_master
                    f).0))
        ])
]

-- In a state where the servers and the file locks agree (the invariant), a heartbeat with any
-- content at any time returns: no branch faults or blocks, and the state that it leaves satisfies
-- the invariant again.
pub heartbeat-Inv :
    (c : Coordinator) (now : ℕ) (s : ServerInfo)
    → Inv c
    → (r : Reply) × (heartbeat c now s ≡ ok r) × Inv r.0
heartbeat-Inv c now s v =
    elim (Option-cases (cluster_in_range c.clusters (id_to_index s.clusterid))) [
      | inl out ↦ (_, heartbeat_out c now s out, v)
      | inr ((i, m), found) ↦
          let (there, named) = heartbeat_named c.clusters s.clusterid i m found in
          by_equation (heartbeat_found c now s i m found)
            (heartbeat_in-Inv c now s i m v there named)
    ]
