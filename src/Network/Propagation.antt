-- ===== src/Network/Propagation.antt =====
-- `propogateHelper`, and the calls of a server that lead to it.
use distributed_sns.Base.{ℕ, zero, suc, none, some, List, [], ◌∷◌, Str, str_eq, length, drop}
use distributed_sns.Base.Result.{Result, ok, err, blocked, ◌>>=◌}
use distributed_sns.Base.Map.{find, replace}
use distributed_sns.Coordinator.State.{ServerInfo, Coordinator}
use distributed_sns.Coordinator.Servers.{get_counterparts, get_other_cluster_masters}
use distributed_sns.Server.State.{
  LocalTime, Request, Message, Server, Method, login_method, follow_method, unfollow_method,
  add_post_method, Destination, counterparts, other_masters, Sent, wrote, propogated,
}
use distributed_sns.Server.Api.{login, follow, unfollow}
use distributed_sns.Server.Posts.{add_post, timeline_message}
use distributed_sns.Network.State.{Node, Network, address, erase}

-- What the coordinator answers to the server with this info.
unfoldable pub destinations : Coordinator → ServerInfo → Destination → Result (List ServerInfo)
unfolding get_counterparts get_other_cluster_masters
destinations c info counterparts = get_counterparts c info
destinations c info other_masters = ok (get_other_cluster_masters c info)

-- The handler that a request by this method reaches. The reply is not looked at.
unfoldable pub handle : LocalTime → Method → Request → Server → Result Server
unfolding login follow unfollow add_post
handle tz login_method r s = do (s, _) ← login r s; ok s
handle tz follow_method r s = do (s, _) ← follow tz r s; ok s
handle tz unfollow_method r s = do (s, _) ← unfollow r s; ok s
handle tz add_post_method r s = add_post tz r s

-- A call of the server at an address.
abbrev pub Call : Type 0
Call = Method → Request → Str → Network → Result Network

-- The servers of a list, one after the other, whatever they answer.
unfoldable pub call_each : Call → Method → Request → List ServerInfo → Network → Result Network
call_each call m r [] net = ok net
call_each call m r (t ∷ targets) net = call m r (address t) net >>= call_each call m r targets

unfoldable pub propogate_helper :
    Call → ServerInfo → Method → Request → Destination → Network → Result Network
unfolding destinations call_each
propogate_helper call info m r d net = do
  targets ← destinations net.coordinator info d
  call_each call m r targets net

-- What a handler sends to other servers.
unfoldable pub send_all : Call → ServerInfo → List Sent → Network → Result Network
unfolding propogate_helper
send_all call info [] net = ok net
send_all call info (wrote _ _ ∷ sent) net = send_all call info sent net
send_all call info (propogated m r d ∷ sent) net =
    propogate_helper call info m r d net >>= send_all call info sent

-- The state after a handler is stored, and then what it sends is sent. A fault ends the server.
unfoldable pub after_handler : Call → Str → Node → Result Server → Network → Result Network
unfolding send_all erase
after_handler call a n (err _) net = ok (record net { nodes = erase a net.nodes })
after_handler call a n (ok s) net =
    send_all call n.info (drop (length n.server.sent) s.sent)
      (record net { nodes = replace a (record n { server = s }) net.nodes })

-- The handlers at an address. The call of a server that is not up fails, and is not repeated.
unfoldable pub serve_at : Call → (Server → Result Server) → Str → Network → Result Network
unfolding after_handler
serve_at call handler a net = elim (find a net.nodes) [
  | none ↦ ok net
  | some n ↦ after_handler call a n (handler n.server) net
]

-- A call, in which servers call servers to this depth.
unfoldable pub call_server : ℕ → LocalTime → Call
unfolding serve_at handle
call_server zero tz m r a net = err blocked
call_server (suc depth) tz m r a net = serve_at (call_server depth tz) (handle tz m r) a net

-- One message of a client on its timeline.
unfoldable pub post_at : ℕ → LocalTime → ℕ → Message → Str → Network → Result Network
unfolding serve_at timeline_message
post_at depth tz stream m a net =
    serve_at (call_server depth tz) (timeline_message tz stream m) a net
