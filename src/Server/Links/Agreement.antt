-- ===== src/Server/Links/Agreement.antt =====
-- Who follows whom after a session of a server.
use distributed_sns.Base.{
  ℕ, ◌≤◌, ◌≡◌, refl, ◌≢◌, sym, ◌∙◌, inl, inr, Bool, some, List, [], ◌∷◌, arith, Str, nat_eq,
  Bool-cases, get_elem?,
}
use distributed_sns.Base.Result.{ok}
use distributed_sns.Server.Answered.{follow-both, unfollow-both}
use distributed_sns.Server.State.{
  LocalTime, Client, Server, Request, Reply, Method, new_server, propogate, follow_method,
  unfollow_method,
}
use distributed_sns.Server.Clients.{get_client, client_at}
use distributed_sns.Server.Api.{follow, unfollow}
use distributed_sns.Server.Presence.{found_client}
use distributed_sns.Server.Sync.{
  Call, login_call, follow_call, unfollow_call, Session, opened, called,
}
use distributed_sns.Server.Links.Counts.{count}
use distributed_sns.Server.Links.Fields.{of_client, following_at, followers_at}
use distributed_sns.Server.Links.Logins.{IsLinked, login-IsLinked, propogate-IsLinked}
use distributed_sns.Server.Links.Follows.{
  follow-IsLinked, unfollow-IsLinked, follow_answer-IsLinked, unfollow_answer-IsLinked,
}
use distributed_sns.Server.Sessions.{follow_answer}

new-IsLinked : (master : Bool) → IsLinked (new_server master)
unfolding of_client count
new-IsLinked master = record {
  agree = λ a b. refl;
  once = λ a b. omega arith;
  unique = λ a b u e f. absurd cc;
  known = λ a u e. absurd cc;
}

Call-IsLinked : (tz : LocalTime) (s s' : Server) → Call tz s s' → IsLinked s → IsLinked s'
Call-IsLinked tz s s' (login_call r _ reply w e) h = login-IsLinked r s s' reply e h
Call-IsLinked tz s s' (follow_call r _ reply w ws t e) h = follow-IsLinked tz r s s' reply e h
Call-IsLinked tz s s' (unfollow_call r _ reply w ws e) h = unfollow-IsLinked r s s' reply e h

Session-IsLinked : (tz : LocalTime) (master : Bool) (s : Server) → Session tz master s → IsLinked s
Session-IsLinked tz master s opened = new-IsLinked master
Session-IsLinked tz master s (called s₀ _ h c) =
    Call-IsLinked tz s₀ s c (Session-IsLinked tz master s₀ h)

-- After any sequence of logins, follows and unfollows that return, with names and times that fit
-- into the log: a client stands in the following list of another one as often as that one stands
-- in its follower list, and that is once at most.
pub following-followers :
    (tz : LocalTime) (master : Bool) (s : Server)
    → Session tz master s
    → (a b : ℕ)
    → (count b (following_at s.clients a) ≡ count a (followers_at s.clients b))
      × (count b (following_at s.clients a) ≤ 1)
following-followers tz master s session a b =
    let h = Session-IsLinked tz master s session in (h.agree a b, h.once a b)

propogate-clients : (m : Method) (r : Request) (s : Server) → (propogate m r s).clients ≡ s.clients
unfolding propogate
propogate-clients m r s = elim (Bool-cases s.master) [ inl on ↦ rw on refl | inr off ↦ rw off refl ]

at-client_at :
    (heap : List Client) (a : ℕ) (c : Client) → get_elem? heap a ≡ some c → client_at heap a ≡ ok c
unfolding client_at
at-client_at heap a c e = rw (e, client_at) refl

-- After any sequence of logins, follows and unfollows that return, with names and times that fit
-- into the log: an unfollow of one user in the database by another one, with that user as its
-- only argument, returns. No index is missing, and afterwards neither the following list of the
-- one nor the follower list of the other has the link.
pub unfollow-Ends :
    (tz : LocalTime) (master : Bool) (s : Server) (r : Request) (user : Str) (a b : ℕ)
    → Session tz master s
    → r.arguments ≡ user ∷ []
    → get_client s.clients s.client_db r.username ≡ some a
    → get_client s.clients s.client_db user ≡ some b
    → a ≢ b
    → (s' : Server) × (reply : Reply) × (unfollow r s ≡ ok (s', reply))
      × (count b (following_at s'.clients a) ≡ 0)
      × (count a (followers_at s'.clients b) ≡ 0)
unfollow-Ends tz master s r user a b session one f g n =
    let h = Session-IsLinked tz master s session in
    let (c, at, _) = found_client s.clients s.client_db r.username a f in
    let (d, at', _) = found_client s.clients s.client_db user b g in
    let (x, e, k, none_left) = unfollow_answer-IsLinked s h a b c d at at' in
    let cleared : count b (following_at (propogate unfollow_method r x.0).clients a) ≡ 0 =
      rw (propogate-clients unfollow_method r x.0) (none_left n) in
    (
      propogate unfollow_method r x.0,
      x.1,
      unfollow-both r s
          ∙ rw (one, f, g, at-client_at s.clients a c at, at-client_at s.clients b d at')
              (rw e refl),
      cleared,
      sym ((propogate-IsLinked unfollow_method r x.0 k).agree a b) ∙ cleared,
    )

-- After any sequence of logins, follows and unfollows that return, with names and times that fit
-- into the log: a follow of one user in the database by another one, with that user as its only
-- argument, returns, and afterwards the link stands exactly once in the following list of the one
-- and in the follower list of the other, whether it is new or not.
pub follow-Starts :
    (tz : LocalTime) (master : Bool) (s : Server) (r : Request) (user : Str) (a b : ℕ)
    → Session tz master s
    → r.arguments ≡ user ∷ []
    → get_client s.clients s.client_db r.username ≡ some a
    → get_client s.clients s.client_db user ≡ some b
    → a ≢ b
    → (s' : Server) × (reply : Reply) × (follow tz r s ≡ ok (s', reply))
      × (count b (following_at s'.clients a) ≡ 1)
      × (count a (followers_at s'.clients b) ≡ 1)
follow-Starts tz master s r user a b session one f g n =
    let h = Session-IsLinked tz master s session in
    let (c, at, _) = found_client s.clients s.client_db r.username a f in
    let (d, at', _) = found_client s.clients s.client_db user b g in
    let x = follow_answer tz r.timestamp s a c b d in
    let (k, linked) = follow_answer-IsLinked s h a b c d at at' tz r.timestamp in
    let there : count b (following_at (propogate follow_method r x.0).clients a) ≡ 1 =
      rw (propogate-clients follow_method r x.0) (linked n) in
    (
      propogate follow_method r x.0,
      x.1,
      follow-both tz r s
          ∙ rw (one, f, g, at-client_at s.clients a c at, at-client_at s.clients b d at') refl,
      there,
      sym ((propogate-IsLinked follow_method r x.0 k).agree a b) ∙ there,
    )
