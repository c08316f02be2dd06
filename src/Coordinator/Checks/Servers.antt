-- ===== src/Coordinator/Checks/Servers.antt =====
-- A round of `checkHeartbeats` (coordinator/src/SNSCoordinator.cpp) for one server.
use distributed_sns.Base.{
  ℕ, suc, ◌+◌, ◌≤◌, ◌≡◌, refl, ◌∙◌, ◌≢◌, ap, Bool, true, false, arith, ◌==◌, ==_refl, ==_ne,
  Bool-cases, inl, inr, eq_of_==,
}
use distributed_sns.Base.Int.{ℤ, int_eq, int_order}
use distributed_sns.Base.Result.{Result, ok}
use distributed_sns.FsMemory.{FsMemory}
use distributed_sns.Coordinator.State.{ZNode}
use distributed_sns.Coordinator.Locks.{IsLockTable, held, Keeps-of_KeepsFiles}
use distributed_sns.Coordinator.Invariant.{bit, IsServerOk}
use distributed_sns.Base.{ltb, nat_eq, ne_of_==}
use distributed_sns.FsMemory
use distributed_sns.Coordinator.State.{max_heartbeat_delay}
use distributed_sns.Coordinator.Heartbeat.{count_missed, check_server}
use distributed_sns.Coordinator.Locks.{remove_master, remove_slave}

-- What the check of one server of cluster `id` does to the locks.
pub record Checked (fs : FsMemory) (id : ℤ) (z : ZNode) (fs' : FsMemory) (z' : ZNode) : Type 0 where
  pub table : IsLockTable fs'
  pub server : IsServerOk id z'
  pub count : bit z'.master + bit (held fs id) ≡ bit z.master + bit (held fs' id)
  pub others : (j : ℤ) → j ≢ id → held fs' j ≡ held fs j

abbrev missed : ZNode → ZNode
missed z = record z { missed_heartbeats = suc z.missed_heartbeats }

not_second :
    (fs : FsMemory) (late : ZNode)
    → (late.missed_heartbeats == 2) ≡ false
    → count_missed fs late ≡ ok (fs, late)
unfolding count_missed
not_second fs late h = rw (h, count_missed) refl

pub at_second :
    (fs fs' : FsMemory) (late : ZNode) (b : Bool)
    → (late.missed_heartbeats == 2) ≡ true
    → FsMemory.remove fs late.path ≡ ok (fs', b)
    → count_missed fs late ≡ ok (fs', record late { master = false })
unfolding count_missed
at_second fs fs' late b h e = rw (h, e, count_missed) refl

dropped-IsServerOk :
    (id : ℤ) (z : ZNode) → z.missed_heartbeats ≡ 2 → IsServerOk id (record z { master = false })
dropped-IsServerOk id z h = record {
  as_master = λ f. absurd cc;
  as_slave = λ _ few. absurd (omega arith);
}

module _ (fs : FsMemory) (id : ℤ) (z : ZNode) (l : IsLockTable fs) (good : IsServerOk id z)
    (owns : bit z.master ≤ bit (held fs id)) where
  abbrev ResultOk : Result (FsMemory × ZNode) → Type 0
  ResultOk r = (fs' : FsMemory) × (z' : ZNode) × (r ≡ ok (fs', z')) × Checked fs id z fs' z'

  first_miss : (suc z.missed_heartbeats == 2) ≡ false → ResultOk (count_missed fs (missed z))
  first_miss h =
      let other = ne_of_== (suc z.missed_heartbeats) 2 h in
      (
        fs,
        _,
        not_second fs (missed z) h,
        record {
          table = l;
          server = record {
            as_master = λ f. ((good.as_master f).0, let few = (good.as_master f).1 in ground arith);
            as_slave = λ f few. good.as_slave f (omega arith);
          };
          count = refl;
          others = λ j _. refl;
        },
      )

  drop_master : z.missed_heartbeats ≡ 1 → z.master ≡ true → ResultOk (count_missed fs (missed z))
  drop_master second f =
      let taken : held fs id ≡ true = ground arith in
      let (fs', e, sets) = remove_master fs id l taken in
      (
        fs',
        _,
        at_second fs fs' (missed z) true (rw second (==_refl {A = ℕ} 2))
            (rw ((good.as_master f).0) e),
        record {
          table = sets.0;
          server = dropped-IsServerOk id (missed z) (ap suc second);
          count = rw (f, taken, sets.1 id, ==_refl id) refl;
          others = λ j h. sets.1 j ∙ rw (==_ne j id h) refl;
        },
      )

  drop_slave : z.missed_heartbeats ≡ 1 → z.master ≡ false → ResultOk (count_missed fs (missed z))
  drop_slave second f =
      let (server, path) = good.as_slave f (omega arith) in
      let (fs', b, e, keeps) = remove_slave fs id server l in
      let same = Keeps-of_KeepsFiles fs fs' keeps in
      (
        fs',
        _,
        at_second fs fs' (missed z) b (rw second (==_refl {A = ℕ} 2)) (rw path e),
        record {
          table = same.0;
          server = dropped-IsServerOk id (missed z) (ap suc second);
          count = rw (f, same.1 id) refl;
          others = λ j _. same.1 j;
        },
      )

  one_missed : ResultOk (count_missed fs (missed z))
  one_missed = elim (Bool-cases (suc z.missed_heartbeats == 2)) [
    | inr other ↦ first_miss other
    | inl hit ↦
        let second : z.missed_heartbeats ≡ 1 =
          let e = eq_of_== (suc z.missed_heartbeats) 2 hit in omega arith in
        elim (Bool-cases z.master) [
          | inl master ↦ drop_master second master
          | inr slave ↦ drop_slave second slave
        ]
  ]

  -- Whatever the time.
  pub check_server-Checked : (now : ℕ) → ResultOk (check_server fs now z)
  unfolding check_server
  check_server-Checked now = elim (Bool-cases (ltb (z.last_heartbeat + max_heartbeat_delay) now)) [
    | inl late ↦ rw (late, check_server) one_missed
    | inr timely ↦
        rw (timely, check_server)
          (fs, z, refl, record { table = l; server = good; count = refl; others = λ j _. refl })
  ]
