-- ===== src/Coordinator/Clients.antt =====
-- The client API of the coordinator: `GetUniqueClientID` and `GetServer`.
use distributed_sns.Base.{true, Option, none, some, List, codes, if◌then◌else◌, length, get_elem?}
use distributed_sns.Base.Int.{ℤ, pos, int_eq, int_order}
use distributed_sns.Base.Result.{Result, ok, ◌>>=◌}
use distributed_sns.Base.Map.{find, set}
use distributed_sns.Coordinator.State.{
  ServerInfo, Status, ok_status, unavailable, ZNode, to_server_info, Cluster, ServerRef,
  Coordinator,
}
use distributed_sns.Coordinator.Servers.{get_active_master}

-- The id is the number of assignments so far, and gets an empty assignment.
unfoldable pub get_unique_client_id : Coordinator → Coordinator × ℤ
get_unique_client_id c =
    let raw_id = pos (length c.client_assignments) in
    (record c { client_assignments = set raw_id none c.client_assignments }, raw_id)

-- The server behind an assignment, as it is now.
unfoldable pub deref : List Cluster → ServerRef → Option ZNode
deref cs (i, id) = elim (get_elem? cs i) [ none ↦ none | some m ↦ find id m ]

-- `clientAssignments[rawId]`, where a missing key reads as a null pointer.
unfoldable pub assignment : Coordinator → ℤ → Option ServerRef
assignment c raw_id = elim (find raw_id c.client_assignments) [ none ↦ none | some r ↦ r ]

unfoldable pub server_of : List Cluster → Option ServerRef → Option ZNode
server_of cs none = none
server_of cs (some r) = deref cs r

-- The assigned server, where it is still a master.
unfoldable pub still_master : Option ZNode → Option ZNode
still_master none = none
still_master (some z) = if z.master then some z else none

abbrev pub no_servers : Status
no_servers = unavailable (codes "No servers available to serve the request.")

abbrev pub Served : Type 0
Served = Coordinator × Option ServerInfo × Status

unfoldable pub assign_new : Coordinator → ℤ → Option (ServerRef × ZNode) → Served
assign_new c raw_id none = (c, none, no_servers)
assign_new c raw_id (some (r, z)) = (
  record c { client_assignments = set raw_id (some r) c.client_assignments },
  some (record (to_server_info z) { changed = true }),
  ok_status,
)

-- Reading the assignment by `[]` adds an empty one for a new id.
unfoldable pub get_server : Coordinator → ℤ → Result Served
unfolding deref assignment server_of still_master assign_new
get_server c raw_id =
    let r = assignment c raw_id in
    let c = record c { client_assignments = set raw_id r c.client_assignments } in
    elim (still_master (server_of c.clusters r)) [
      | some z ↦ ok (c, some (to_server_info z), ok_status)
      | none ↦ do found ← get_active_master c.clusters raw_id; ok (assign_new c raw_id found)
    ]
