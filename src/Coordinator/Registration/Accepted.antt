-- ===== src/Coordinator/Registration/Accepted.antt =====
-- `Heartbeat` from the updated node on.
use mathlib.Core.Path.{subst}
use distributed_sns.Base.{
  ℕ, ◌≡◌, refl, ◌∙◌, ap, Bool, true, false, some, [], arith, ◌==◌, ==_refl, Bool-cases, inl, inr,
  get_elem?, set_elem-set_elem, eq_of_==,
}
use distributed_sns.Base.Int.{ℤ, int_eq, int_order}
use distributed_sns.Base.Result.{ok}
use distributed_sns.Base.Map.{find, set}
use distributed_sns.FsMemory.{FsMemory}
use distributed_sns.Coordinator.State.{
  ServerInfo, ZNode, Cluster, Coordinator, get_master_filepath, get_slave_filepath, ok_status,
}
use distributed_sns.Coordinator.Heartbeat.{Election, elect, elected, put_server, accept, Reply}
use distributed_sns.Coordinator.Servers.{get_first_available_cluster_master}
use distributed_sns.Coordinator.Locks.{held, Sets, Keeps, Keeps-of_KeepsFiles}
use distributed_sns.Coordinator.Elections.{elect_taken, elect_free}
use distributed_sns.Coordinator.Invariant.{IsServerOk, id_of, Inv, Inv-update}
use distributed_sns.Coordinator.Registration.Stores.{Was, store_ok}

pub accept_master :
    (c : Coordinator) (s : ServerInfo) (i : ℕ) (m : Cluster) (server : ZNode)
    → server.master ≡ true
    → accept c s i m server
      ≡ ok (
        record c { clusters = put_server c.clusters i m s.serverid server },
        record { path = server.path; master = true; sync_address = [] },
        ok_status,
      )
unfolding accept
accept_master c s i m server flag = rw flag refl

pub accept-elect :
    (c : Coordinator) (s : ServerInfo) (i : ℕ) (m : Cluster) (server : ZNode) (e : Election)
    → server.master ≡ false
    → elect c.filesys s server
        (get_first_available_cluster_master (put_server c.clusters i m s.serverid server) i)
      ≡ ok e
    → accept c s i m server
      ≡ ok (
        record c {
          filesys = e.filesys;
          clusters = put_server c.clusters i m s.serverid (elected e server);
        },
        record { path = e.raw_path; master = e.master; sync_address = e.sync_address },
        ok_status,
      )
unfolding accept
accept-elect c s i m server e flag run = rw run (
    rw
      (set_elem-set_elem c.clusters i (set s.serverid server m)
        (set s.serverid (elected e server) m))
      (rw flag refl))

elected_slave :
    (e : Election) (z : ZNode) (id server : ℤ)
    → z.master ≡ false
    → e.master ≡ false
    → e.raw_path ≡ get_slave_filepath id server
    → IsServerOk id (elected e z) × ((elected e z).master ≡ false)
unfolding elected
elected_slave e z id server f g path =
    (record { as_master = λ h. absurd cc; as_slave = λ _ _. (server, path) }, cc)

elected_master :
    (e : Election) (z : ZNode) (id : ℤ)
    → z.missed_heartbeats ≡ 0
    → e.master ≡ true
    → e.raw_path ≡ get_master_filepath id
    → IsServerOk id (elected e z) × ((elected e z).master ≡ true)
unfolding elected
elected_master e z id fresh g path = (
  record { as_master = λ _. (path, omega arith); as_slave = λ f. absurd (ground arith) },
  ground arith,
)

Sets_of_Keeps : (fs fs' : FsMemory) (id : ℤ) → Keeps fs fs' → Sets fs id (held fs id) fs'
Sets_of_Keeps fs fs' id k = (
  k.0,
  λ j. k.1 j ∙ elim (Bool-cases (j == id)) [
    | inl same ↦ rw same (ap (held fs) (eq_of_== j id same))
    | inr other ↦ rw other refl
  ],
)

module _ (c : Coordinator) (s : ServerInfo) (i : ℕ) (m : Cluster) (v : Inv c)
    (there : get_elem? c.clusters i ≡ some m) (named : s.clusterid ≡ id_of i) (server : ZNode) where
  accept_master-Inv :
      Was true (find s.serverid m)
      → server.master ≡ true
      → server.missed_heartbeats ≡ 0
      → server.path ≡ get_master_filepath (id_of i)
      → (r : Reply) × (accept c s i m server ≡ ok r) × Inv r.0
  accept_master-Inv was flag fresh path = (
    _,
    accept_master c s i m server flag,
    Inv-update c c.filesys i m (set s.serverid server m) (held c.filesys (id_of i)) v there
        (Sets_of_Keeps c.filesys c.filesys (id_of i) (v.table, λ j. refl))
        (store_ok c.filesys c.filesys (id_of i) s.serverid m server true (v.clusters i m there) was
          (record { as_master = λ _. (path, omega arith); as_slave = λ f. absurd cc })
          (rw flag refl)),
  )

  -- Whoever loses the election is a slave.
  accept_taken-Inv :
      Was false (find s.serverid m)
      → server.master ≡ false
      → held c.filesys s.clusterid ≡ true
      → (r : Reply) × (accept c s i m server ≡ ok r) × Inv r.0
  accept_taken-Inv was flag taken =
      let (e, run, joins) =
        elect_taken c.filesys s server
          (get_first_available_cluster_master (put_server c.clusters i m s.serverid server) i)
          v.table taken in
      (
        _,
        accept-elect c s i m server e flag run,
        let (good, slave) =
              elected_slave e server (id_of i) s.serverid flag joins.slave
                (joins.path ∙ rw named refl) in
            let keeps = Keeps-of_KeepsFiles c.filesys e.filesys joins.locks in
            Inv-update c e.filesys i m (set s.serverid (elected e server) m)
              (held c.filesys (id_of i)) v there (Sets_of_Keeps c.filesys e.filesys (id_of i) keeps)
              (store_ok c.filesys e.filesys (id_of i) s.serverid m (elected e server) false
                (v.clusters i m there) was good (rw (slave, keeps.1 (id_of i)) refl)),
      )

  accept_free-Inv :
      Was false (find s.serverid m)
      → server.master ≡ false
      → server.missed_heartbeats ≡ 0
      → held c.filesys s.clusterid ≡ false
      → (r : Reply) × (accept c s i m server ≡ ok r) × Inv r.0
  accept_free-Inv was flag fresh free =
      let (e, run, wins) =
        elect_free c.filesys s server
          (get_first_available_cluster_master (put_server c.clusters i m s.serverid server) i)
          v.table free in
      (
        _,
        accept-elect c s i m server e flag run,
        let (good, master) =
              elected_master e server (id_of i) fresh wins.master (wins.path ∙ rw named refl) in
            let sets : Sets c.filesys (id_of i) true e.filesys =
              subst (λ k. Sets c.filesys k true e.filesys) named wins.locks in
            let open_lock : held c.filesys (id_of i) ≡ false =
              subst (λ k. held c.filesys k ≡ false) named free in
            Inv-update c e.filesys i m (set s.serverid (elected e server) m) true v there sets (
              store_ok c.filesys e.filesys (id_of i) s.serverid m (elected e server) false
                (v.clusters i m there) was good
                (rw (master, sets.1 (id_of i), ==_refl (id_of i), open_lock) refl)),
      )

  -- What `Heartbeat` stores for a server that it admits.
  pub accept-Inv :
      (b : Bool)
      → Was b (find s.serverid m)
      → server.master ≡ b
      → server.missed_heartbeats ≡ 0
      → (b ≡ true → server.path ≡ get_master_filepath (id_of i))
      → (r : Reply) × (accept c s i m server ≡ ok r) × Inv r.0
  accept-Inv true was flag fresh path = accept_master-Inv was flag fresh (path refl)
  accept-Inv false was flag fresh path = elim (Bool-cases (held c.filesys s.clusterid)) [
    | inl taken ↦ accept_taken-Inv was flag taken
    | inr free ↦ accept_free-Inv was flag fresh free
  ]
