-- ===== src/Network/Startup.antt =====
-- How a server comes up and stays registered: `connectToCoordinator` and `sendHeartbeat`.
use distributed_sns.Base.{
  ℕ, Bool, true, false, Option, none, some, [], ◌∷◌, ◌++◌, Str, codes, ◌==◌, str_eq, if◌then◌else◌,
}
use distributed_sns.Base.Int.{ℤ}
use distributed_sns.Base.Decimal.{to_string}
use distributed_sns.Base.Result.{Result, ok, err, ◌>>=◌}
use distributed_sns.Base.Map.{find, replace}
use distributed_sns.Coordinator.State.{ServerInfo, PathReply, Status, ok_status}
use distributed_sns.Coordinator.Heartbeat.{heartbeat}
use distributed_sns.Server.State.{LocalTime, LogReply, Server, new_server}
use distributed_sns.Server.Posts.{get_log}
use distributed_sns.Server.Replay.{initialize_data}
use distributed_sns.Network.State.{Node, Network, address, erase}

-- The files of a server, in the directory that `setFilepaths` gives it.
unfoldable pub local_path : ℤ → ℤ → Str
local_path cluster_id server_id =
    codes "c" ++ (to_string cluster_id ++ (codes "s" ++ (to_string server_id ++ codes "/")))

unfoldable pub userinfo_path : ℤ → ℤ → Str
unfolding local_path
userinfo_path cluster_id server_id = local_path cluster_id server_id ++ codes "userinfo"

unfoldable pub posts_path : ℤ → ℤ → Str
unfolding local_path
posts_path cluster_id server_id = local_path cluster_id server_id ++ codes "posts"

abbrev pub first_info : Str → Str → ℤ → ℤ → ServerInfo
first_info hostname port cluster_id server_id = record {
  serverid = server_id;
  clusterid = cluster_id;
  hostname = hostname;
  port = port;
  type = codes "SERVER";
  registered = false;
  changed = false;
}

-- Where the data of a new server comes from: its own files, where there is no address to synchronise
-- with, or what the server there answers to `GetLog`. Where it does not answer there is none.
unfoldable pub source_of : Network → Str → Option (Option LogReply)
unfolding get_log
source_of net sync_address =
    if sync_address == [] then some none else elim (find sync_address net.nodes) [
      | none ↦ none
      | some n ↦ some (some (get_log n.server))
    ]

-- The server is up once its data is there.
unfoldable pub add_node : ServerInfo → PathReply → Result Server → Network → Network
unfolding erase
add_node info path (err _) net = net
add_node info path (ok s) net = record net {
  nodes =
      (address info, record { info = record info { registered = true }; path = path; server = s })
      ∷ erase (address info) net.nodes;
}

-- `connectToCoordinator` behind the registration. Without the data to start from the program exits.
unfoldable pub start_server : LocalTime → Str → Str → ServerInfo → PathReply → Network → Network
unfolding source_of add_node initialize_data
start_server tz userinfo posts info path net = elim (source_of net path.sync_address) [
  | none ↦ net
  | some log ↦
      add_node info path
        (initialize_data tz log
          (record (new_server path.master) { userinfo = userinfo; posts = posts }))
        net
]

abbrev pub is_ok : Status → Bool
is_ok ok_status = true
is_ok _ = false

-- `connectToCoordinator`, with the contents of the local files. A server that is refused exits.
unfoldable pub connect_to_coordinator :
    LocalTime → ℕ → Str → Str → ServerInfo → Network → Result Network
unfolding start_server heartbeat
connect_to_coordinator tz now userinfo posts info net = do
  (c, path, status) ← heartbeat net.coordinator now info
  ok (
      if is_ok status
      then start_server tz userinfo posts info path (record net { coordinator = c })
      else record net { coordinator = c })

abbrev pub set_master : PathReply → Node → Node
set_master path n = record n { path = path; server = record n.server { master = path.master } }

-- One round of `sendHeartbeat`. A server whose heartbeat is refused exits.
unfoldable pub send_heartbeat : ℕ → Str → Network → Result Network
unfolding heartbeat erase
send_heartbeat now a net = elim (find a net.nodes) [
  | none ↦ ok net
  | some n ↦ do
    (c, path, status) ← heartbeat net.coordinator now n.info
    ok (record net {
      coordinator = c;
      nodes = if is_ok status then replace a (set_master path n) net.nodes else erase a net.nodes;
    })
]
