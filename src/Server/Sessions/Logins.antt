-- ===== src/Server/Sessions/Logins.antt =====
-- `Login` with its line of the log.
use mathlib.Core.Path.{subst}
use distributed_sns.Base.{
  ℕ, ◌≡◌, refl, ◌∙◌, ◌≢◌, sym, inl, inr, true, List, [], ◌∷◌, ◌++◌, arith, Str, codes, nat_eq,
  str_eq, All-append, Option-cases, Bool-cases, length,
}
use distributed_sns.Base.Result.{ok, >>=-eq-ok}
use distributed_sns.Server.State.{LocalTime, Request, Reply, Client, new_client, Server}
use distributed_sns.Server.Text.{newline, user_line}
use distributed_sns.Server.Clients.{
  get_client, get_or_create, client_at, update, connect, login_helper,
}
use distributed_sns.Server.Replay.{process_args}
use distributed_sns.Server.Lines.{IsWord, split-user}
use distributed_sns.Server.State.{login_method}
use distributed_sns.Server.Api.{login, login_client}
use distributed_sns.Server.Replays.{replica, Logged-append, replay_user}
use distributed_sns.Server.Sessions.Answers.{
  IsLogged, answered, get_or_create_new, client_at_end, new_connected,
}

-- A client that `getClient` just made is not connected.
pub get_or_create-connected :
    (heap : List Client) (db : List ℕ) (u : Str) (c : Client)
    → client_at (get_or_create heap db u).0 (get_or_create heap db u).1 ≡ ok c
    → c.connected ≡ true
    → (get_or_create heap db u).0 ≡ heap
unfolding get_or_create
get_or_create-connected heap db u c e on = elim (Option-cases (get_client heap db u)) [
  | inr (a, found) ↦ rw (found, get_or_create) refl
  | inl new ↦
      let e' : client_at (heap ++ (new_client u ∷ [])) (length heap) ≡ ok c =
        subst (λ x. client_at x.0 x.1 ≡ ok c) (get_or_create_new heap db u new) e in
      absurd (new_connected u c (sym (client_at_end heap (new_client u)) ∙ e') on)
]

login_step :
    (tz : LocalTime) (u log : Str) (heap : List Client) (db : List ℕ)
    → process_args tz (codes "user" ∷ u ∷ []) (replica heap db log)
      ≡ ok (
          replica
            (update (get_or_create heap db u).0 (get_or_create heap db u).1 connect)
            (db ++ ((get_or_create heap db u).1 ∷ []))
            log)
unfolding login_helper
login_step tz u log heap db = replay_user tz u log heap db

login_client-IsLogged :
    (tz : LocalTime) (r : Request) (s : Server) (c : Client)
    → IsWord r.username
    → IsLogged tz s
    → client_at
        (get_or_create s.clients s.client_db r.username).0
        (get_or_create s.clients s.client_db r.username).1
      ≡ ok c
    → IsLogged tz
        (login_client r s
          (get_or_create s.clients s.client_db r.username).0
          (get_or_create s.clients s.client_db r.username).1
          c).0
unfolding login_client user_line
login_client-IsLogged tz r s c word h e = elim (Bool-cases c.connected) [
  | inl on ↦ rw on (rw (get_or_create-connected s.clients s.client_db r.username c e on) h)
  | inr off ↦ rw off (
      Logged-append tz s.clients _ s.client_db _ s.userinfo (codes "user " ++ r.username)
        (All-append (λ b. b ≢ newline) (codes "user ") r.username (omega arith) word.2) h
        (rw (split-user r.username word)
          (login_step tz r.username s.userinfo s.clients s.client_db)))
]

pub login-IsLogged :
    (tz : LocalTime) (r : Request) (s s' : Server) (reply : Reply)
    → IsWord r.username
    → IsLogged tz s
    → login r s ≡ ok (s', reply)
    → IsLogged tz s'
unfolding login
login-IsLogged tz r s s' reply word h e =
    let (c, at, rest) =
      >>=-eq-ok
        (client_at (get_or_create s.clients s.client_db r.username).0
          (get_or_create s.clients s.client_db r.username).1)
        _ e in
    answered tz login_method r _ s' reply rest (login_client-IsLogged tz r s c word h at)
