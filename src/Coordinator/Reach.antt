-- ===== src/Coordinator/Reach.antt =====
-- The calls of the coordinator as steps: servers and clients call it in any order, and its thread
-- checks the heartbeats in between.
use distributed_sns.Base.{
  ℕ, suc, ◌≤◌, ◌≡◌, refl, ◌∙◌, sym, ap, ◌==◌, ==_refl, ==_ne, nat_eq, Bool, true, false, Option,
  some, arith, get_elem?,
}
use distributed_sns.Base.Int.{ℤ, pos}
use distributed_sns.Base.Result.{Result, ok}
use distributed_sns.FsMemory
use distributed_sns.Coordinator.State.{
  ServerInfo, PathReply, Status, Cluster, Coordinator, new_coordinator, get_master_filepath,
}
use distributed_sns.Coordinator.Heartbeat.{heartbeat, check_heartbeats}
use distributed_sns.Coordinator.Clients.{get_unique_client_id, get_server}
use distributed_sns.Coordinator.Assign.{SameServers, get_server-SameServers}
use mathlib.Core.Path.{subst}
use distributed_sns.Coordinator.Locks.{exists_master}
use distributed_sns.Coordinator.Invariant.{Inv, bit, masters, new_coordinator-Inv}
use distributed_sns.Coordinator.Registration.{heartbeat-Inv}
use distributed_sns.Coordinator.Checks.{check_heartbeats-Inv}

-- One call that returns.
pub data Step (c : Coordinator) : Coordinator → Type 0 where
  heartbeat_step :
      (now : ℕ) (s : ServerInfo) (c' : Coordinator) (p : PathReply) (st : Status)
      → heartbeat c now s ≡ ok (c', p, st)
      → Step c c'
  check_step : (clock : ℕ → ℤ → ℕ) (c' : Coordinator) → check_heartbeats c clock ≡ ok c' → Step c c'
  new_client_step : Step c (get_unique_client_id c).0
  get_server_step :
      (id : ℤ) (c' : Coordinator) (s : Option ServerInfo) (st : Status)
      → get_server c id ≡ ok (c', s, st)
      → Step c c'

-- The states of a coordinator of `n` clusters.
pub data Reach (n : ℕ) : Coordinator → Type 0 where
  start : Reach n (new_coordinator n)
  after : (c c' : Coordinator) → Reach n c → Step c c' → Reach n c'

Inv-SameServers : (c c' : Coordinator) → SameServers c c' → Inv c → Inv c'
Inv-SameServers c c' (f, g) v = record {
  table = rw f v.table;
  clusters = λ i m e. rw f (v.clusters i m (rw g at e));
}

ok_unique : {A : Type 0} (r : Result A) (x y : A) → r ≡ ok x → r ≡ ok y → x ≡ y
ok_unique r x y e f = cc

Step-Inv : (c c' : Coordinator) → Step c c' → Inv c → Inv c'
Step-Inv c c' (heartbeat_step now s _ p st e) v =
    let (r, run, v') = heartbeat-Inv c now s v in
    subst (λ x. Inv x.0) (ok_unique (heartbeat c now s) r (c', p, st) run e) v'
Step-Inv c c' (check_step clock _ e) v =
    let (r, run, v') = check_heartbeats-Inv c clock v in
    subst Inv (ok_unique (check_heartbeats c clock) r c' run e) v'
Step-Inv c c' new_client_step v = unfold get_unique_client_id in Inv-SameServers c _ (refl, refl) v
Step-Inv c c' (get_server_step id _ s st e) v =
    Inv-SameServers c c' (get_server-SameServers c id (c', s, st) e) v

bounded : (k : ℕ) (b : Bool) → k ≡ bit b → k ≤ 1
bounded k true e = omega arith
bounded k false e = omega arith

counts : (k : ℕ) (b : Bool) → k ≡ bit b → b ≡ (k == 1)
counts k true e = rw e (sym (==_refl {A = ℕ} 1))
counts k false e = rw e (sym (==_ne {A = ℕ} 0 1 (λ h. absurd (omega arith))))

pub Reach-Inv : (n : ℕ) (c : Coordinator) → Reach n c → Inv c
Reach-Inv n c start = new_coordinator-Inv n
Reach-Inv n c (after c₀ marked r s) = Step-Inv c₀ marked s (Reach-Inv n c₀ r)

-- After any sequence of heartbeats, heartbeat checks and client calls that return, on a
-- coordinator that started with `n` clusters: a cluster has at most one server that is marked as
-- master, and it has one exactly while its master file exists in the file system of the
-- coordinator.
pub one_master :
    (n : ℕ) (c : Coordinator) (i : ℕ) (m : Cluster)
    → Reach n c
    → get_elem? c.clusters i ≡ some m
    → (masters m ≤ 1)
      × (FsMemory.exists c.filesys (get_master_filepath (pos (suc i))) ≡ ok (masters m == 1))
one_master n c i m r e =
    let h = ((Reach-Inv n c r).clusters i m e).counted in
    (
      bounded (masters m) _ h,
      exists_master c.filesys (pos (suc i)) ∙ ap ok (counts (masters m) _ h),
    )
