-- ===== src/Network/Placement.antt =====
-- Where servers stand that take themselves for masters, and what calls do to that.
use distributed_sns.Base.{
  ℕ, suc, ◌≡◌, ◌∙◌, sym, ap, inl, inr, true, false, none, some, List, Str, str_eq, Option-cases,
  All,
}
use distributed_sns.Base.Result.{ok}
use distributed_sns.Base.Map.{find}
use distributed_sns.Coordinator.State.{ServerInfo}
use distributed_sns.Coordinator.Servers.{get_counterparts}
use distributed_sns.Server.State.{LocalTime, Request, login_method}
use distributed_sns.Network.State.{Node, Network, address}
use distributed_sns.Network.Propagation.{send_all, call_server}
use distributed_sns.Network.Logins.{outgoing, handle_login}
use distributed_sns.Network.Delivery.{Grows, put, All-map, some_inj}
use distributed_sns.Network.Replication.{call_server_up, call_server_down}

-- No server that takes itself for a master is up at this address.
abbrev pub IsQuiet : Network → Str → Type 0
IsQuiet net a = (m : Node) → find a net.nodes ≡ some m → m.server.master ≡ false

-- The coordinator knows the cluster of each server that is up, and of the servers that it names there
-- to a master none takes itself for a master too.
pub record IsPlaced (net : Network) : Type 0 where
  pub cluster :
      (a : Str) (n : Node)
      → find a net.nodes ≡ some n
      → (l : List ServerInfo) × (get_counterparts net.coordinator n.info ≡ ok l)
        × (n.server.master ≡ true → All (λ t. IsQuiet net (address t)) l)

-- A server that is up after some calls was up before.
was_up :
    (x y : Network) (a : Str) (n : Node)
    → Grows x y
    → find a y.nodes ≡ some n
    → (m : Node) × (find a x.nodes ≡ some m)
      × (n.info ≡ m.info)
      × (n.server.master ≡ m.server.master)
was_up x y a n g h = elim (Option-cases (find a x.nodes)) [
  | inl e ↦ absurd (let clash : none ≡ some n = sym (g.missing a e) ∙ h in cc)
  | inr (m, e) ↦
      let (m', f, k) = g.there a m e in
      let same : m' ≡ n = some_inj m' n (sym f ∙ h) in
      (
        m,
        e,
        sym (ap (λ (z : Node). z.info) same) ∙ k.same_info,
        sym (ap (λ (z : Node). z.server.master) same) ∙ k.same_master,
      )
]

pub IsQuiet-Grows : (x y : Network) (a : Str) → Grows x y → IsQuiet x a → IsQuiet y a
IsQuiet-Grows x y a g q n h = let (m, e, _, on) = was_up x y a n g h in on ∙ q m e

pub IsPlaced-Grows : (x y : Network) → Grows x y → IsPlaced x → IsPlaced y
IsPlaced-Grows x y g p = record {
  cluster = λ a n h.
      let (m, e, info, on) = was_up x y a n g h in
      let (l, listed, quiet) = p.cluster a m e in
      (
        l,
        ap (λ c. get_counterparts c n.info) g.coordinator
            ∙ ap (get_counterparts x.coordinator) info
            ∙ listed,
        λ master.
            All-map (λ t. IsQuiet x (address t)) (λ t. IsQuiet y (address t)) l
              (λ t. IsQuiet-Grows x y (address t) g) (quiet (sym on ∙ master)),
      );
}

-- The call of a server that takes itself for no master returns.
pub quiet_returns :
    (tz : LocalTime) (f : ℕ) (r : Request) (net : Network) (a : Str)
    → IsQuiet net a
    → (net' : Network) × (call_server (suc f) tz login_method r a net ≡ ok net')
unfolding send_all
quiet_returns tz f r net a q = elim (Option-cases (find a net.nodes)) [
  | inl h ↦ (net, call_server_down tz f r a net h)
  | inr (n, h) ↦
      let (s, after) = handle_login tz r n.server in
      (
        put a n s net,
        call_server_up tz f r a net n s h after
            ∙ ap
                (λ b.
                  send_all (call_server f tz) n.info (outgoing login_method r b) (put a n s net))
                (q n h),
      )
]

pub IsQuiet-here :
    (net : Network) (a : Str) (n : Node)
    → find a net.nodes ≡ some n
    → n.server.master ≡ false
    → IsQuiet net a
IsQuiet-here net a n h off m k =
    sym (ap (λ (x : Node). x.server.master) (some_inj n m (sym h ∙ k))) ∙ off
