-- ===== src/Network/Split.antt =====
-- Two servers of a cluster that both take themselves for its master.
use distributed_sns.Base.{ℕ, zero, suc, ◌≡◌, refl, ◌∙◌, ap, true, some, List, ◌∷◌, Str, str_eq}
use distributed_sns.Base.Result.{ok, err, blocked, ◌>>=◌}
use distributed_sns.Base.Map.{find}
use distributed_sns.Coordinator.State.{ServerInfo}
use distributed_sns.Coordinator.Servers.{get_counterparts}
use distributed_sns.Server.State.{LocalTime, Request, login_method}
use distributed_sns.Network.State.{Node, Network, address}
use distributed_sns.Network.Propagation.{
  Call, destinations, call_each, propogate_helper, send_all, call_server,
}
use distributed_sns.Network.Logins.{outgoing, handle_login}
use distributed_sns.Network.Delivery.{Grows, put, put-Grows}
use distributed_sns.Network.Replication.{call_server_up}

-- A server that takes itself for a master, and to which the coordinator names first the server at `b`.
pub record Names (net : Network) (a b : Str) : Type 0 where
  pub node : Node
  pub up : find a net.nodes ≡ some node
  pub is_master : node.server.master ≡ true
  pub first : ServerInfo
  pub others : List ServerInfo
  pub listed : get_counterparts net.coordinator node.info ≡ ok (first ∷ others)
  pub at_b : address first ≡ b

Names-Grows : (x y : Network) (a b : Str) → Grows x y → Names x a b → Names y a b
Names-Grows x y a b g h =
    let (n', up, k) = g.there a h.node h.up in
    record {
      node = n';
      up = up;
      is_master = k.same_master ∙ h.is_master;
      first = h.first;
      others = h.others;
      listed =
          ap (λ c. get_counterparts c n'.info) g.coordinator
          ∙ ap (get_counterparts x.coordinator) k.same_info
          ∙ h.listed;
      at_b = h.at_b;
    }

-- The first call that a master makes blocks it.
blocked_by_first :
    (call : Call) (info : ServerInfo) (r : Request) (net : Network) (t : ServerInfo)
    → (l : List ServerInfo) → get_counterparts net.coordinator info ≡ ok (t ∷ l)
    → call login_method (record r { from_server = true }) (address t) net ≡ err blocked
    → send_all call info (outgoing login_method r true) net ≡ err blocked
unfolding send_all propogate_helper destinations call_each
blocked_by_first call info r net t l listed h = rw (listed, ◌>>=◌) (rw (h, ◌>>=◌) refl)

-- Where two servers both take themselves for masters, and the coordinator names to each of them
-- the other one first as its counterpart: the calls of a login at one of them do not come to
-- their end, whatever depth of calls is allowed.
pub split_brain :
    (tz : LocalTime) (depth : ℕ) (r : Request) (a b : Str) (net : Network)
    → Names net a b
    → Names net b a
    → call_server depth tz login_method r a net ≡ err blocked
split_brain tz zero r a b net h k = unfold call_server in refl
split_brain tz (suc depth) r a b net h k =
    let (s, after) = handle_login tz r h.node.server in
    let next : Network = put a h.node s net in
    let g = put-Grows tz r a h.node s net h.up after in
    let inside : call_server depth tz login_method (record r { from_server = true })
          (address h.first) next
        ≡ err blocked =
      ap (λ x. call_server depth tz login_method (record r { from_server = true }) x next) h.at_b
      ∙ split_brain tz depth (record r { from_server = true }) b a next
          (Names-Grows net next b a g k) (Names-Grows net next a b g h) in
    call_server_up tz depth r a net h.node s h.up after
    ∙ ap (λ m. send_all (call_server depth tz) h.node.info (outgoing login_method r m) next)
        h.is_master
    ∙ blocked_by_first (call_server depth tz) h.node.info r next h.first h.others h.listed inside
