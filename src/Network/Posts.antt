-- ===== src/Network/Posts.antt =====
-- Which servers a post reaches.
use mathlib.Core.Path.{subst}
use distributed_sns.Base.{
  ℕ, zero, suc, ◌≡◌, ◌≢◌, refl, ◌∙◌, sym, ap, inl, inr, true, some, List, [], ◌∷◌, Str, str_eq,
  ◌==◌, ==_ne, eq_of_==, Option-cases, Bool-cases, if◌then◌else◌, All, drop, length,
}
use distributed_sns.Base.Result.{Result, ok, err, >>=-eq-ok}
use distributed_sns.Base.Map.{find, replace, find-replace, Map}
use distributed_sns.Coordinator.State.{ServerInfo, Coordinator}
use distributed_sns.Coordinator.Servers.{get_counterparts, get_other_cluster_masters}
use distributed_sns.Server.State.{
  LocalTime, Request, Message, Server, Sent, wrote, propogated, add_post_method, Destination,
  counterparts, other_masters,
}
use distributed_sns.Server.Clients.{get_client}
use distributed_sns.Server.Posts.{timeline_message, add_post}
use distributed_sns.Network.State.{Node, Network, address, erase}
use distributed_sns.Network.Propagation.{
  Call, handle, destinations, call_each, propogate_helper, send_all, after_handler, serve_at,
  call_server, post_at,
}
use distributed_sns.Network.Sending.{ok_inj}
use distributed_sns.Network.Posting.{
  IsWrote, IsPosting, Adds, add_post_helper-Adds, timeline_message-Adds, sent_new,
}

-- The server at `b`, and what the coordinator knows, are as before.
abbrev pub Stays : Str → Network → Network → Type 0
Stays b net net' = (net'.coordinator ≡ net.coordinator) × (find b net'.nodes ≡ find b net.nodes)

Stays-trans : (b : Str) (x y z : Network) → Stays b x y → Stays b y z → Stays b x z
Stays-trans b x y z (c, f) (d, g) = (d ∙ c, g ∙ f)

find-erase : (a b : Str) (m : Map Str Node) → b ≢ a → find b (erase a m) ≡ find b m
unfolding find erase
find-erase a b [] h = refl
find-erase a b ((c, n) ∷ m) h = elim (Bool-cases (a == c)) [
  | inl e ↦ rw e (rw (==_ne b c (λ x. h (x ∙ sym (eq_of_== a c e)))) (find-erase a b m h))
  | inr e ↦ rw e (ap (λ o. if b == c then some n else o) (find-erase a b m h))
]

find-replace_ne :
    (a b : Str) (n : Node) (m : Map Str Node) → b ≢ a → find b (replace a n m) ≡ find b m
find-replace_ne a b n m h = find-replace b a n m ∙ rw (==_ne b a h) refl

-- A handler that sends to no other server changes its own server at most.
send_all-IsWrote :
    (call : Call) (info : ServerInfo) (l : List Sent) (net : Network)
    → All IsWrote l
    → send_all call info l net ≡ ok net
unfolding send_all
send_all-IsWrote call info [] net h = refl
send_all-IsWrote call info (wrote n m ∷ l) net h = send_all-IsWrote call info l net h.1
send_all-IsWrote call info (propogated m r d ∷ l) net h = absurd h.0

Stays-of_ok :
    (b : Str) (net mid net' : Network)
    → Stays b net mid
    → ◌≡◌ {A = Result Network} (ok mid) (ok net')
    → Stays b net net'
Stays-of_ok b net mid net' (c, f) h =
    let same = ok_inj mid net' h in
    (
      sym (ap (λ (x : Network). x.coordinator) same) ∙ c,
      sym (ap (λ (x : Network). find b x.nodes) same) ∙ f,
    )

add_post-Adds :
    (tz : LocalTime) (r : Request) (s s' : Server)
    → handle tz add_post_method r s ≡ ok s'
    → Adds IsWrote s s'
unfolding handle add_post
add_post-Adds tz r s s' h =
    (add_post_helper-Adds tz r.message (get_client s.clients s.client_db r.message.username) true s
      s' h).0

-- A post that comes from another server goes no further.
module _ (tz : LocalTime) (call : Call) (r : Request) (a b : Str) (other : b ≢ a) where
  after_post :
      (n : Node) (res : Result Server) (net net' : Network)
      → ((s : Server) → res ≡ ok s → Adds IsWrote n.server s)
      → after_handler call a n res net ≡ ok net'
      → Stays b net net'
  unfolding after_handler
  after_post n (err e) net net' adds h =
      Stays-of_ok b net _ net' (refl, find-erase a b net.nodes other) h
  after_post n (ok s) net net' adds h =
      Stays-of_ok b net (record net { nodes = replace a (record n { server = s }) net.nodes }) net'
        (refl, find-replace_ne a b (record n { server = s }) net.nodes other)
        (sym (send_all-IsWrote call n.info _ _ (sent_new IsWrote n.server s (adds s refl))) ∙ h)

  serve_post :
      (net net' : Network)
      → serve_at call (handle tz add_post_method r) a net ≡ ok net'
      → Stays b net net'
  unfolding serve_at
  serve_post net net' h = elim (Option-cases (find a net.nodes)) [
    | inl e ↦ Stays-of_ok b net net net' (refl, refl) (rw (e, serve_at) at h)
    | inr (n, e) ↦
        after_post n (handle tz add_post_method r n.server) net net'
          (λ s. add_post-Adds tz r n.server s) (rw (e, serve_at) at h)
  ]

call_post :
    (tz : LocalTime) (depth : ℕ) (r : Request) (a b : Str) (net net' : Network)
    → b ≢ a
    → call_server depth tz add_post_method r a net ≡ ok net'
    → Stays b net net'
unfolding call_server
call_post tz zero r a b net net' other h = cc
call_post tz (suc depth) r a b net net' other h =
    serve_post tz (call_server depth tz) r a b other net net' h

-- None of these servers is at `b`.
abbrev pub Misses : Str → List ServerInfo → Type 0
Misses b = All (λ t. b ≢ address t)

-- Neither the slaves of this server nor the other masters are at `b`.
pub record IsApart (info : ServerInfo) (b : Str) (c : Coordinator) : Type 0 where
  pub no_slave : (l : List ServerInfo) → get_counterparts c info ≡ ok l → Misses b l
  pub no_master : Misses b (get_other_cluster_masters c info)

module _ (tz : LocalTime) (depth : ℕ) (info : ServerInfo) (b : Str) where
  each_post :
      (r : Request) (l : List ServerInfo) (net net' : Network)
      → Misses b l
      → call_each (call_server depth tz) add_post_method r l net ≡ ok net'
      → Stays b net net'
  unfolding call_each
  each_post r [] net net' h e = Stays-of_ok b net net net' (refl, refl) e
  each_post r (t ∷ l) net net' h e =
      let (mid, first, rest) =
        >>=-eq-ok (call_server depth tz add_post_method r (address t) net) _ e in
      Stays-trans b net mid net' (call_post tz depth r (address t) b net mid h.0 first)
        (each_post r l mid net' h.1 rest)

  helper_post :
      (r : Request) (to : Destination) (net net' : Network)
      → IsApart info b net.coordinator
      → propogate_helper (call_server depth tz) info add_post_method r to net ≡ ok net'
      → Stays b net net'
  unfolding propogate_helper destinations
  helper_post r counterparts net net' h e =
      let (l, listed, run) = >>=-eq-ok (get_counterparts net.coordinator info) _ e in
      each_post r l net net' (h.no_slave l listed) run
  helper_post r other_masters net net' h e =
      each_post r (get_other_cluster_masters net.coordinator info) net net' h.no_master e

  send_posts :
      (l : List Sent) (net net' : Network)
      → IsApart info b net.coordinator
      → All IsPosting l
      → send_all (call_server depth tz) info l net ≡ ok net'
      → Stays b net net'
  unfolding send_all
  send_posts [] net net' h p e = Stays-of_ok b net net net' (refl, refl) e
  send_posts (wrote n m ∷ l) net net' h p e = send_posts l net net' h p.1 e
  send_posts (propogated m r to ∷ l) net net' h p e =
      let call : Call = call_server depth tz in
      let (mid, first, rest) = >>=-eq-ok (propogate_helper call info m r to net) _ e in
      let early =
        helper_post r to net mid h
          (subst (λ m. propogate_helper call info m r to net ≡ ok mid) p.0 first) in
      Stays-trans b net mid net' early
        (send_posts l mid net' (subst (IsApart info b) (sym early.0) h) p.1 rest)

  after_message :
      (a : Str) (n : Node) (res : Result Server) (net net' : Network)
      → b ≢ a
      → n.info ≡ info
      → IsApart info b net.coordinator
      → ((s : Server) → res ≡ ok s → Adds IsPosting n.server s)
      → after_handler (call_server depth tz) a n res net ≡ ok net'
      → Stays b net net'
  unfolding after_handler
  after_message a n (err e) net net' other same h adds run =
      Stays-of_ok b net _ net' (refl, find-erase a b net.nodes other) run
  after_message a n (ok s) net net' other same h adds run =
      let stored : Network = record net { nodes = replace a (record n { server = s }) net.nodes } in
      Stays-trans b net stored net'
        (refl, find-replace_ne a b (record n { server = s }) net.nodes other)
        (send_posts _ stored net' h (sent_new IsPosting n.server s (adds s refl)) (
          subst
            (λ i.
              send_all (call_server depth tz) i (drop (length n.server.sent) s.sent) stored
              ≡ ok net')
            same run))

-- A message that a client writes to its timeline, with all the calls that follow, leaves every
-- server as it was that is neither the server of the client, nor one of the counterparts of that
-- server, nor one of the masters of the other clusters that the coordinator names to it: the
-- slaves of the other clusters do not get the post.
pub post_at-Stays :
    (tz : LocalTime) (depth stream : ℕ) (m : Message) (a b : Str) (n : Node) (net net' : Network)
    → find a net.nodes ≡ some n
    → b ≢ a
    → IsApart n.info b net.coordinator
    → post_at depth tz stream m a net ≡ ok net'
    → find b net'.nodes ≡ find b net.nodes
unfolding post_at serve_at
post_at-Stays tz depth stream m a b n net net' up other h run =
    (after_message tz depth n.info b a n (timeline_message tz stream m n.server) net net' other refl
      h (λ s. timeline_message-Adds tz stream m n.server s) (rw (up, serve_at) at run)).1
