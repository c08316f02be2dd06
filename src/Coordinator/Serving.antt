-- ===== src/Coordinator/Serving.antt =====
-- What `GetServer` answers.
use distributed_sns.Base.{
  ℕ, ◌≡◌, refl, ◌∙◌, ◌≢◌, sym, ap, true, Option, none, some, List, [], ◌∷◌, arith, ◌==◌, get_elem?,
  length, Bool-cases, Option-cases, inl, inr, ◌⊎◌,
}
use distributed_sns.Base.Int.{ℤ, pos, int_eq, int_order}
use distributed_sns.Base.Map.{find}
use distributed_sns.Base.Result.{ok}
use distributed_sns.Coordinator.State.{
  ServerInfo, Status, ok_status, ZNode, Cluster, ServerRef, Coordinator, to_server_info,
}
use distributed_sns.Coordinator.Servers.{first_master}
use distributed_sns.Coordinator.Clients.{
  get_server, Served, no_servers, assign_new, assignment, server_of, still_master, deref,
}
use distributed_sns.Coordinator.Assign.{touched, get_server_kept, get_server_new}
use distributed_sns.Coordinator.Masters.{
  master_in, IsActiveMaster, get_active_master-IsActiveMaster,
}

-- Whether this server is in the cluster.
abbrev pub Holds : Cluster → ZNode → Type 0
Holds [] z = ⊥
Holds ((_, w) ∷ m) z = (w ≡ z) ⊎ Holds m z

-- A server that is in a cluster and marked as master.
abbrev pub IsMaster : List Cluster → ZNode → Type 0
IsMaster cs z = (j : ℕ) × (m : Cluster) × (get_elem? cs j ≡ some m) × Holds m z × (z.master ≡ true)

-- A master with status OK, or the status for none where no cluster has one.
abbrev pub IsServed : Coordinator → Option ServerInfo → Status → Type 0
IsServed c none st =
    (st ≡ no_servers)
    × ((j : ℕ) (m : Cluster) → get_elem? c.clusters j ≡ some m → first_master m ≡ none)
IsServed c (some info) st =
    (st ≡ ok_status)
    × ((z : ZNode) × IsMaster c.clusters z
        × (info ≡ record (to_server_info z) { changed = info.changed }))

find-Holds : (id : ℤ) (m : Cluster) (z : ZNode) → find id m ≡ some z → Holds m z
unfolding find
find-Holds id [] z h = absurd cc
find-Holds id ((k, w) ∷ m) z h = elim (Bool-cases (id == k)) [
  | inl hit ↦ inl (ground arith)
  | inr miss ↦ inr (find-Holds id m z (rw miss at h))
]

first_master-Holds :
    (m : Cluster) (id : ℤ) (z : ZNode)
    → first_master m ≡ some (id, z)
    → Holds m z × (z.master ≡ true)
unfolding first_master
first_master-Holds [] id z h = absurd cc
first_master-Holds ((k, w) ∷ m) id z h = elim (Bool-cases w.master) [
  | inl hit ↦ let same : w ≡ z = ground arith in (inl same, ap (λ x. x.master) (sym same) ∙ hit)
  | inr miss ↦ let (a, b) = first_master-Holds m id z (rw miss at h) in (inr a, b)
]

still_master_of :
    (o : Option ZNode) (z : ZNode) → still_master o ≡ some z → (o ≡ some z) × (z.master ≡ true)
unfolding still_master
still_master_of none z h = absurd cc
still_master_of (some w) z h = elim (Bool-cases w.master) [
  | inl hit ↦ let same : w ≡ z = ground arith in (ap some same, ap (λ x. x.master) (sym same) ∙ hit)
  | inr miss ↦ absurd (ground arith)
]

server_of-IsMaster :
    (cs : List Cluster) (r : Option ServerRef) (z : ZNode)
    → server_of cs r ≡ some z
    → z.master ≡ true
    → IsMaster cs z
unfolding server_of deref
server_of-IsMaster cs none z h on = absurd cc
server_of-IsMaster cs (some (i, id)) z h on = elim (Option-cases (get_elem? cs i)) [
  | inl out ↦ absurd (ground arith)
  | inr (m, there) ↦ (i, m, there, find-Holds id m z (ground arith), on)
]

master_in-IsMaster :
    (cs : List Cluster) (j : ℕ) (id : ℤ) (z : ZNode) → master_in cs j ≡ some (id, z) → IsMaster cs z
unfolding master_in
master_in-IsMaster cs j id z h = elim (Option-cases (get_elem? cs j)) [
  | inl out ↦ absurd (ground arith)
  | inr (m, there) ↦ let (a, b) = first_master-Holds m id z (ground arith) in (j, m, there, a, b)
]

assigned-IsServed :
    (c : Coordinator) (k : ℕ) (found : Option (ServerRef × ZNode))
    → IsActiveMaster c.clusters k found
    → (r : Served) × (assign_new (touched c (pos k)) (pos k) found ≡ r) × IsServed c r.1 r.2
unfolding assign_new
assigned-IsServed c k none h = (_, refl, (refl, h))
assigned-IsServed c k (some ((j, id), z)) (d, l, at, there, before) =
    (_, refl, (refl, (z, master_in-IsMaster c.clusters j id z there, refl)))

-- On a coordinator with at least one cluster, `GetServer` for an id that is not negative returns:
-- either with status OK and the data of a server that is in a cluster and marked as master, or
-- with status UNAVAILABLE where no cluster has a master.
pub get_server-IsServed :
    (c : Coordinator) (k : ℕ)
    → length c.clusters ≢ 0
    → (r : Served) × (get_server c (pos k) ≡ ok r) × IsServed c r.1 r.2
get_server-IsServed c k some_cluster =
    elim (Option-cases (still_master (server_of c.clusters (assignment c (pos k))))) [
      | inr (z, kept) ↦
          let (there, on) = still_master_of (server_of c.clusters (assignment c (pos k))) z kept in
          (
            _,
            get_server_kept c (pos k) z kept,
            (refl, (z, server_of-IsMaster c.clusters (assignment c (pos k)) z there on, refl)),
          )
      | inl lost ↦
          let (found, run, h) = get_active_master-IsActiveMaster c.clusters k some_cluster in
          let (r, same, served) = assigned-IsServed c k found h in
          (r, get_server_new c (pos k) lost ∙ rw run (ap ok same), served)
    ]
