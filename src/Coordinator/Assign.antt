-- ===== src/Coordinator/Assign.antt =====
-- `GetServer` by its cases: the assigned server is still a master, or a new one is looked for.
use distributed_sns.Base.{◌≡◌, refl, ◌∙◌, sym, ap, Option, none, some, Option-cases, inl, inr}
use distributed_sns.Base.Int.{ℤ, int_eq, int_order}
use distributed_sns.Base.Map.{set}
use distributed_sns.Base.Result.{ok, ◌>>=◌, >>=-eq-ok}
use distributed_sns.Coordinator.State.{ok_status, to_server_info, ZNode, ServerRef, Coordinator}
use distributed_sns.Coordinator.Servers.{get_active_master}
use distributed_sns.Coordinator.Clients.{
  get_server, Served, assign_new, assignment, server_of, still_master,
}

-- The coordinator after the assignment was read by `[]`.
abbrev pub touched : Coordinator → ℤ → Coordinator
touched c id = record c { client_assignments = set id (assignment c id) c.client_assignments }

pub get_server_kept :
    (c : Coordinator) (id : ℤ) (z : ZNode)
    → still_master (server_of c.clusters (assignment c id)) ≡ some z
    → get_server c id ≡ ok (touched c id, some (to_server_info z), ok_status)
unfolding get_server
get_server_kept c id z h = rw (h, get_server) refl

pub get_server_new :
    (c : Coordinator) (id : ℤ)
    → still_master (server_of c.clusters (assignment c id)) ≡ none
    → get_server c id
      ≡ (get_active_master c.clusters id >>= λ found. ok (assign_new (touched c id) id found))
unfolding get_server
get_server_new c id h = rw (h, get_server) refl

-- What the servers have registered, and the file system.
abbrev pub SameServers : Coordinator → Coordinator → Type 0
SameServers c c' = (c'.filesys ≡ c.filesys) × (c'.clusters ≡ c.clusters)

assign_new-SameServers :
    (c : Coordinator) (id : ℤ) (found : Option (ServerRef × ZNode))
    → SameServers c (assign_new c id found).0
unfolding assign_new
assign_new-SameServers c id none = (refl, refl)
assign_new-SameServers c id (some x) = (refl, refl)

SameServers-of_ok :
    (c : Coordinator) (x r : Served) → ok x ≡ ok r → SameServers c x.0 → SameServers c r.0
SameServers-of_ok c x r e (f, g) =
    let same : x ≡ r = cc in
    (ap (λ y. y.0.filesys) (sym same) ∙ f, ap (λ y. y.0.clusters) (sym same) ∙ g)

pub get_server-SameServers :
    (c : Coordinator) (id : ℤ) (r : Served) → get_server c id ≡ ok r → SameServers c r.0
get_server-SameServers c id r e =
    elim (Option-cases (still_master (server_of c.clusters (assignment c id)))) [
      | inr (z, kept) ↦ SameServers-of_ok c _ r (sym (get_server_kept c id z kept) ∙ e) (refl, refl)
      | inl lost ↦
          let (found, _, f) =
            >>=-eq-ok (get_active_master c.clusters id) _ (sym (get_server_new c id lost) ∙ e) in
          SameServers-of_ok c _ r f (assign_new-SameServers (touched c id) id found)
    ]
