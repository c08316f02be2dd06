-- ===== src/Network/Termination.antt =====
-- That the calls of a login come to an end: a master calls its slaves and the other masters, and these
-- call their slaves.
use distributed_sns.Base.{
  ℕ, suc, ◌≡◌, refl, ◌∙◌, ap, inl, inr, true, false, some, List, [], ◌∷◌, Str, str_eq, Option-cases,
  Bool-cases, All,
}
use distributed_sns.Base.Result.{ok, ◌>>=◌}
use distributed_sns.Base.Map.{find}
use distributed_sns.Coordinator.State.{ServerInfo}
use distributed_sns.Coordinator.Servers.{get_other_cluster_masters}
use distributed_sns.Server.State.{
  LocalTime, Request, Server, login_method, Destination, counterparts, other_masters,
}
use distributed_sns.Network.State.{Node, Network, address}
use distributed_sns.Network.Propagation.{
  Call, destinations, call_each, propogate_helper, send_all, call_server,
}
use distributed_sns.Network.Logins.{outgoing, IsAfter, handle_login}
use distributed_sns.Network.Delivery.{Grows, Grows-trans, put, put-Grows, All-map, Delivers}
use distributed_sns.Network.Sending.{inner, propogate_helper-Grows}
use distributed_sns.Network.Replication.{
  call_server_up, call_server_down, call_server-Delivers, call_server-Arrives, Arrives,
}
use distributed_sns.Network.Placement.{
  IsQuiet, IsPlaced, IsQuiet-Grows, IsPlaced-Grows, quiet_returns, IsQuiet-here,
}

-- What may be called, in a network and in those that grow of it.
record Returns (call : Call) (r : Request) (P : Network → Str → Type 0) : Type 0 where
  pub stable : (x y : Network) (a : Str) → Grows x y → P x a → P y a
  pub returns :
      (net : Network) (a : Str) → P net a → (net' : Network) × (call login_method r a net ≡ ok net')

call_each-Returns :
    (call : Call) (d : Delivers call) (r : Request) (P : Network → Str → Type 0)
    → Returns call r P
    → (l : List ServerInfo) (net : Network) → All (λ t. P net (address t)) l
    → (net' : Network) × (call_each call login_method r l net ≡ ok net')
unfolding call_each
call_each-Returns call d r P c [] net h = (net, refl)
call_each-Returns call d r P c (t ∷ l) net h =
    let (mid, e) = c.returns net (address t) h.0 in
    let g = d.grows r (address t) net mid e in
    let (net', e') = call_each-Returns call d r P c l mid (
      All-map (λ t. P net (address t)) (λ t. P mid (address t)) l
        (λ t. c.stable net mid (address t) g) h.1) in
    (net', rw (e, ◌>>=◌) e')

IsQuiet-Returns :
    (tz : LocalTime) (f : ℕ) (r : Request) → Returns (call_server (suc f) tz) r IsQuiet
IsQuiet-Returns tz f r = record {
  stable = IsQuiet-Grows;
  returns = λ net a q. quiet_returns tz f r net a q;
}

propogate_helper-Returns :
    (call : Call) (d : Delivers call) (info : ServerInfo) (r : Request)
    → (P : Network → Str → Type 0) → Returns call r P
    → (to : Destination) (l : List ServerInfo) (net : Network)
    → destinations net.coordinator info to ≡ ok l
    → All (λ t. P net (address t)) l
    → (net' : Network) × (propogate_helper call info login_method r to net ≡ ok net')
unfolding propogate_helper
propogate_helper-Returns call d info r P c to l net e h =
    let (net', e') = call_each-Returns call d r P c l net h in (net', rw (e, ◌>>=◌) e')

module _ (tz : LocalTime) (f : ℕ) (r : Request) (net : Network) (p : IsPlaced net) where
  -- Everything that a master sends to its slaves comes to its end.
  slaves_return :
      (a : Str) (n : Node) (s : Server)
      → find a net.nodes ≡ some n
      → IsAfter tz r n.server s
      → n.server.master ≡ true
      → (mid : Network) × (propogate_helper
            (call_server (suc f) tz)
            n.info
            login_method
            (inner r)
            counterparts
            (put a n s net)
          ≡ ok mid)
  unfolding destinations
  slaves_return a n s h after on =
      let (l, listed, quiet) = p.cluster a n h in
      let g = put-Grows tz r a n s net h after in
      propogate_helper-Returns (call_server (suc f) tz) (call_server-Delivers tz (suc f)) n.info
        (inner r) IsQuiet (IsQuiet-Returns tz f (inner r)) counterparts l (put a n s net) listed
        (All-map (λ t. IsQuiet net (address t)) (λ t. IsQuiet (put a n s net) (address t)) l
          (λ t. IsQuiet-Grows net (put a n s net) (address t) g) (quiet on))

  sent_inside :
      (a : Str) (n : Node) (s : Server)
      → find a net.nodes ≡ some n
      → IsAfter tz r n.server s
      → n.server.master ≡ true
      → r.from_server ≡ true
      → (net' : Network) × (send_all
            (call_server (suc f) tz)
            n.info
            (outgoing login_method r true)
            (put a n s net)
          ≡ ok net')
  unfolding send_all
  sent_inside a n s h after on inside =
      let (mid, e) = slaves_return a n s h after on in
      (mid, rw (e, ◌>>=◌) (rw (inside, send_all) refl))

  -- A call from another server comes to its end.
  inside_returns :
      (a : Str)
      → r.from_server ≡ true
      → (net' : Network) × (call_server (suc (suc f)) tz login_method r a net ≡ ok net')
  inside_returns a inside = elim (Option-cases (find a net.nodes)) [
    | inl h ↦ (net, call_server_down tz (suc f) r a net h)
    | inr (n, h) ↦
        let (s, after) = handle_login tz r n.server in
        let up = call_server_up tz (suc f) r a net n s h after in
        elim (Bool-cases n.server.master) [
          | inr off ↦ quiet_returns tz (suc f) r net a (IsQuiet-here net a n h off)
          | inl on ↦
              let (net', e) = sent_inside a n s h after on inside in
              (
                net',
                up
                    ∙ ap
                        (λ b.
                          send_all (call_server (suc f) tz) n.info (outgoing login_method r b)
                            (put a n s net))
                        on
                    ∙ e,
              )
        ]
  ]

IsPlaced-Returns :
    (tz : LocalTime) (f : ℕ) (r : Request)
    → r.from_server ≡ true
    → Returns (call_server (suc (suc f)) tz) r (λ net _. IsPlaced net)
IsPlaced-Returns tz f r inside = record {
  stable = λ x y a g p. IsPlaced-Grows x y g p;
  returns = λ net a p. inside_returns tz f r net p a inside;
}

All-const : (P : Type 0) (l : List ServerInfo) → P → All (λ (t : ServerInfo). P) l
All-const P [] p = tt
All-const P (t ∷ l) p = (p, All-const P l p)

module _ (tz : LocalTime) (f : ℕ) (r : Request) (net : Network) (p : IsPlaced net) where
  sent_outside :
      (a : Str) (n : Node) (s : Server)
      → find a net.nodes ≡ some n
      → IsAfter tz r n.server s
      → n.server.master ≡ true
      → r.from_server ≡ false
      → (net' : Network) × (send_all
            (call_server (suc (suc f)) tz)
            n.info
            (outgoing login_method r true)
            (put a n s net)
          ≡ ok net')
  unfolding send_all destinations
  sent_outside a n s h after on outside =
      let call : Call = call_server (suc (suc f)) tz in
      let d = call_server-Delivers tz (suc (suc f)) in
      let (mid, e) = slaves_return tz (suc f) r net p a n s h after on in
      let g =
        Grows-trans net (put a n s net) mid (put-Grows tz r a n s net h after)
          (propogate_helper-Grows call d n.info (inner r) counterparts (put a n s net) mid e) in
      let l = get_other_cluster_masters mid.coordinator n.info in
      let (net', e') =
        propogate_helper-Returns call d n.info (inner r) (λ x _. IsPlaced x)
          (IsPlaced-Returns tz f (inner r) refl) other_masters l mid refl
          (All-const (IsPlaced mid) l (IsPlaced-Grows net mid g p)) in
      (net', rw (e, ◌>>=◌) (rw (outside, send_all) (rw (e', ◌>>=◌) refl)))

  -- A login comes to its end, wherever it comes from.
  pub call_server_returns :
      (a : Str)
      → (net' : Network) × (call_server (suc (suc (suc f))) tz login_method r a net ≡ ok net')
  call_server_returns a = elim (Bool-cases r.from_server) [
    | inl inside ↦ inside_returns tz (suc f) r net p a inside
    | inr outside ↦ elim (Option-cases (find a net.nodes)) [
      | inl h ↦ (net, call_server_down tz (suc (suc f)) r a net h)
      | inr (n, h) ↦
          let (s, after) = handle_login tz r n.server in
          let up = call_server_up tz (suc (suc f)) r a net n s h after in
          elim (Bool-cases n.server.master) [
            | inr off ↦ quiet_returns tz (suc (suc f)) r net a (IsQuiet-here net a n h off)
            | inl on ↦
                let (net', e) = sent_outside a n s h after on outside in
                (
                  net',
                  up
                      ∙ ap
                          (λ b.
                            send_all (call_server (suc (suc f)) tz) n.info
                              (outgoing login_method r b) (put a n s net))
                          on
                      ∙ e,
                )
          ]
    ]
  ]

-- In a network in which the coordinator knows the cluster of each server that is up, and in which
-- none of the servers that it names to a master as counterparts takes itself for a master: the
-- calls of a login, from a client or from a server, end at a depth of three. No server that was
-- up is gone, and none has lost a user or its mark as master. The user is then at the server that
-- was called, if it is up; where that is a master, also at all its counterparts that are up; and
-- where moreover the login came from a client, at all the masters of the other clusters that the
-- coordinator names and that are up, and at the counterparts of those of them that take
-- themselves for masters.
pub login-Arrives :
    (tz : LocalTime) (f : ℕ) (r : Request) (a : Str) (net : Network)
    → IsPlaced net
    → (net' : Network) × (call_server (suc (suc (suc f))) tz login_method r a net ≡ ok net')
      × Arrives r a net net'
login-Arrives tz f r a net p =
    let (net', e) = call_server_returns tz f r net p a in
    (
      net',
      e,
      call_server-Arrives tz (suc (suc f)) (call_server-Delivers tz (suc (suc f))) r a net net' e,
    )
