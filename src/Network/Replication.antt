-- ===== src/Network/Replication.antt =====
-- A login at a master, and the servers that hear of it.
use mathlib.Core.Path.{subst}
use distributed_sns.Base.{
  ℕ, zero, suc, ◌≡◌, ◌≢◌, refl, ◌∙◌, sym, ap, inl, inr, true, false, none, some, Str, str_eq,
  ==_refl, Option-cases, Bool-cases, All,
}
use distributed_sns.Base.Result.{ok}
use distributed_sns.Base.Map.{find}
use distributed_sns.Coordinator.Servers.{get_counterparts, get_other_cluster_masters}
use distributed_sns.Server.State.{LocalTime, Request, Server, login_method}
use distributed_sns.Network.State.{Node, Network, address}
use distributed_sns.Network.Propagation.{send_all, after_handler, serve_at, call_server}
use distributed_sns.Network.Logins.{outgoing, IsAfter, handle_login}
use distributed_sns.Network.Delivery.{
  Has, Grows, Grows-refl, Grows-trans, put, find-put, put-Grows, Reached, Serves, Serves-Grows,
  Has-Grows, some_inj, All-map, Delivers,
}
use distributed_sns.Network.Sending.{ok_inj, Sends, send_all-Sends}

module _ (tz : LocalTime) (f : ℕ) (r : Request) (a : Str) (net : Network) where
  -- A call of a server that is up: the state after the login is stored, and what it sends is sent.
  pub call_server_up :
      (n : Node) (s : Server)
      → find a net.nodes ≡ some n
      → IsAfter tz r n.server s
      → call_server (suc f) tz login_method r a net
        ≡ send_all
            (call_server f tz)
            n.info
            (outgoing login_method r n.server.master)
            (put a n s net)
  unfolding call_server serve_at after_handler
  call_server_up n s h after =
      rw (h, serve_at)
        (rw (after.runs, after_handler)
          (ap (λ l. send_all (call_server f tz) n.info l (put a n s net)) after.sends))

  pub call_server_down :
      find a net.nodes ≡ none → call_server (suc f) tz login_method r a net ≡ ok net
  unfolding call_server serve_at
  call_server_down h = rw (h, serve_at) refl

  -- The server that is called has the user, and keeps it while it sends.
  has_user :
      (n : Node) (s : Server) (net' : Network)
      → find a net.nodes ≡ some n
      → IsAfter tz r n.server s
      → Grows (put a n s net) net'
      → Has net' a r.username
  has_user n s net' h after later =
      Has-Grows (put a n s net) net' a r.username later
        (record n { server = s }, find-put a a n s net h ∙ rw (==_refl a) refl, after.present)

-- All that a login at `a` leaves, for the servers that hear of it.
pub record Arrives (r : Request) (a : Str) (net net' : Network) : Type 0 where
  pub grows : Grows net net'
  pub serves : Serves net net' r.username a
  pub masters :
      (n : Node)
      → find a net.nodes ≡ some n
      → n.server.master ≡ true
      → r.from_server ≡ false
      → All
          (λ t. Serves net net' r.username (address t))
          (get_other_cluster_masters net.coordinator n.info)

same_found :
    (a : Str) (net : Network) (n m : Node)
    → find a net.nodes ≡ some n
    → find a net.nodes ≡ some m
    → n ≡ m
same_found a net n m h k = some_inj n m (sym h ∙ k)

module _ (tz : LocalTime) (f : ℕ) (d : Delivers (call_server f tz)) (r : Request) (a : Str) where
  Arrives-slave :
      (net net' : Network) (n : Node) (s : Server)
      → find a net.nodes ≡ some n
      → IsAfter tz r n.server s
      → n.server.master ≡ false
      → send_all (call_server f tz) n.info (outgoing login_method r n.server.master) (put a n s net)
        ≡ ok net'
      → Arrives r a net net'
  unfolding send_all
  Arrives-slave net net' n s h after off e =
      let last : put a n s net ≡ net' = ok_inj _ _ (rw off at e) in
      let no_master : (m : Node) → find a net.nodes ≡ some m → m.server.master ≢ true = λ m k on.
        let clash : true ≡ false =
          sym on ∙ ap (λ x. x.server.master) (same_found a net m n k h) ∙ off in
        cc in
      subst (Arrives r a net) last (record {
        grows = put-Grows tz r a n s net h after;
        serves = record {
          user =
              λ m k. has_user tz f r a net n s (put a n s net) h after (Grows-refl (put a n s net));
          slaves = λ m k on l g. absurd (no_master m k on);
        };
        masters = λ m k on outer. absurd (no_master m k on);
      })

  Arrives-master :
      (net net' : Network) (n : Node) (s : Server)
      → find a net.nodes ≡ some n
      → IsAfter tz r n.server s
      → Sends n.info r (put a n s net) net'
      → Arrives r a net net'
  Arrives-master net net' n s h after sends =
      let early = put-Grows tz r a n s net h after in
      let same : (m : Node) → find a net.nodes ≡ some m → n.info ≡ m.info =
        λ m k. ap (λ (x : Node). x.info) (same_found a net n m h k) in
      record {
        grows = Grows-trans net (put a n s net) net' early sends.grows;
        serves = record {
          user = λ m k. has_user tz f r a net n s net' h after sends.grows;
          slaves = λ m k on l g.
              All-map (λ t. Serves (put a n s net) net' r.username (address t))
                (Reached net net' r.username) l
                (λ t sv x k'. let (y, k'', _) = early.there (address t) x k' in sv.user y k'')
                (sends.slaves l (ap (get_counterparts net.coordinator) (same m k) ∙ g));
        };
        masters = λ m k on outer.
            subst
              (λ i.
                All (λ t. Serves net net' r.username (address t))
                  (get_other_cluster_masters net.coordinator i))
              (same m k)
              (All-map (λ t. Serves (put a n s net) net' r.username (address t))
                (λ t. Serves net net' r.username (address t))
                (get_other_cluster_masters net.coordinator n.info)
                (λ t.
                  Serves-Grows net (put a n s net) net' net' r.username (address t) early
                    (Grows-refl net'))
                (sends.masters outer));
      }

  Arrives-down : (net net' : Network) → find a net.nodes ≡ none → net ≡ net' → Arrives r a net net'
  Arrives-down net net' h e =
      let up : (n : Node) → find a net.nodes ≡ some n → ⊥ =
        λ n k. let clash : none ≡ some n = sym h ∙ k in cc in
      subst (Arrives r a net) e (record {
        grows = Grows-refl net;
        serves = record { user = λ n k. absurd (up n k); slaves = λ n k _ _ _. absurd (up n k) };
        masters = λ n k _ _. absurd (up n k);
      })

  pub call_server-Arrives :
      (net net' : Network)
      → call_server (suc f) tz login_method r a net ≡ ok net'
      → Arrives r a net net'
  call_server-Arrives net net' e = elim (Option-cases (find a net.nodes)) [
    | inl h ↦ Arrives-down net net' h (ok_inj net net' (sym (call_server_down tz f r a net h) ∙ e))
    | inr (n, h) ↦
        let (s, after) = handle_login tz r n.server in
        let sent = sym (call_server_up tz f r a net n s h after) ∙ e in
        elim (Bool-cases n.server.master) [
          | inr off ↦ Arrives-slave net net' n s h after off sent
          | inl on ↦ Arrives-master net net' n s h after (
              send_all-Sends (call_server f tz) d n.info r (put a n s net) net' (
                subst
                  (λ b.
                    send_all (call_server f tz) n.info (outgoing login_method r b) (put a n s net)
                    ≡ ok net')
                  on sent))
        ]
  ]

-- Servers call servers to any depth.
pub call_server-Delivers : (tz : LocalTime) (f : ℕ) → Delivers (call_server f tz)
call_server-Delivers tz zero = record {
  grows = λ r a net net' e. unfold call_server in cc;
  serves = λ r a net net' e. unfold call_server in cc;
}
call_server-Delivers tz (suc f) = record {
  grows =
      λ r a net net' e. (call_server-Arrives tz f (call_server-Delivers tz f) r a net net' e).grows;
  serves = λ r a net net' e.
      (call_server-Arrives tz f (call_server-Delivers tz f) r a net net' e).serves;
}
