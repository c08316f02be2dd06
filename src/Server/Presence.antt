-- ===== src/Server/Presence.antt =====
-- Who is in the database of a server, before and after the calls.
use mathlib.Core.Path.{subst}
use distributed_sns.Base.{
  ℕ, ◌≡◌, refl, ◌∙◌, sym, ap, inl, inr, true, some, List, [], ◌∷◌, ◌++◌, arith, Str, ◌==◌, nat_eq,
  str_eq, ==_refl, eq_of_==, Option-cases, Bool-cases, length, get_elem?, set_elem,
  get_elem?-set_elem_self,
}
use distributed_sns.Base.Result.{ok}
use distributed_sns.Server.State.{
  Request, success, Client, new_client, Server, propogate, Method, login_method,
}
use distributed_sns.Server.Clients.{is_named, get_client, get_or_create, client_at, update, connect}
use distributed_sns.Server.Api.{Answer, login, login_client}

-- The database holds a client with this name.
abbrev pub IsPresent : Server → Str → Type 0
IsPresent s u = (a : ℕ) × (get_client s.clients s.client_db u ≡ some a)

pub get_client_last :
    (heap : List Client) (db : List ℕ) (u : Str) (a : ℕ)
    → is_named heap u a ≡ true
    → (b : ℕ) × (get_client heap (db ++ (a ∷ [])) u ≡ some b)
unfolding get_client
get_client_last heap [] u a h = (a, rw h refl)
get_client_last heap (x ∷ db) u a h = elim (Bool-cases (is_named heap u x)) [
  | inl hit ↦ (x, rw hit refl)
  | inr miss ↦ let (b, e) = get_client_last heap db u a h in (b, rw miss e)
]

named_client :
    (heap : List Client) (u : Str) (a : ℕ) (c : Client)
    → get_elem? heap a ≡ some c
    → c.username ≡ u
    → is_named heap u a ≡ true
unfolding is_named
named_client heap u a c h e = rw (h, is_named) (rw e (==_refl u))

pub update_at :
    (heap : List Client) (a : ℕ) (f : Client → Client) (c : Client)
    → get_elem? heap a ≡ some c
    → update heap a f ≡ set_elem heap a (f c)
update_at heap a f c h = rw (h, update) refl

named_connected :
    (heap : List Client) (u : Str) (a : ℕ) (c : Client)
    → get_elem? heap a ≡ some c
    → c.username ≡ u
    → is_named (update heap a connect) u a ≡ true
named_connected heap u a c h e =
    named_client (update heap a connect) u a (connect c)
      (ap (λ x. get_elem? x a) (update_at heap a connect c h)
        ∙ get_elem?-set_elem_self heap a (connect c) h)
      e

pub found_client :
    (heap : List Client) (db : List ℕ) (u : Str) (a : ℕ)
    → get_client heap db u ≡ some a
    → (c : Client) × (get_elem? heap a ≡ some c) × (c.username ≡ u)
unfolding get_client is_named
found_client heap [] u a h = absurd cc
found_client heap (x ∷ db) u a h = elim (Option-cases (get_elem? heap x)) [
  | inl out ↦ found_client heap db u a (ground arith)
  | inr (c, at) ↦ elim (Bool-cases (u == c.username)) [
    | inl hit ↦
        let same : x ≡ a = ground arith in
        (c, subst (λ k. get_elem? heap k ≡ some c) same at, sym (eq_of_== u c.username hit))
    | inr miss ↦ found_client heap db u a (ground arith)
  ]
]

end_of_heap :
    (heap : List Client) (c : Client) → get_elem? (heap ++ (c ∷ [])) (length heap) ≡ some c
end_of_heap [] c = refl
end_of_heap (x ∷ heap) c = end_of_heap heap c

-- What `getClient(username, true)` returns.
pub created_client :
    (heap : List Client) (db : List ℕ) (u : Str)
    → (c : Client) × (get_elem? (get_or_create heap db u).0 (get_or_create heap db u).1 ≡ some c)
      × (c.username ≡ u)
      × (c.connected ≡ true → (a : ℕ) × (get_client (get_or_create heap db u).0 db u ≡ some a))
unfolding get_or_create
created_client heap db u = elim (Option-cases (get_client heap db u)) [
  | inr (a, found) ↦
      let (c, at, named) = found_client heap db u a found in
      (c, rw (found, get_or_create) at, named, λ on. (a, rw (found, get_or_create) found))
  | inl new ↦ (
    new_client u,
    rw (new, get_or_create) (end_of_heap heap (new_client u)),
    refl,
    λ on. absurd cc,
  )
]

propogate-IsPresent :
    (m : Method) (r : Request) (s : Server) (u : Str)
    → IsPresent s u
    → IsPresent (propogate m r s) u
unfolding propogate
propogate-IsPresent m r s u h = elim (Bool-cases s.master) [ inl on ↦ rw on h | inr off ↦ rw off h ]

login_client-IsPresent :
    (r : Request) (s : Server) (heap : List Client) (a : ℕ) (c : Client)
    → get_elem? heap a ≡ some c
    → c.username ≡ r.username
    → (c.connected ≡ true → (b : ℕ) × (get_client heap s.client_db r.username ≡ some b))
    → IsPresent (login_client r s heap a c).0 r.username
      × ((login_client r s heap a c).1.status ≡ success)
unfolding login_client
login_client-IsPresent r s heap a c at named old = elim (Bool-cases c.connected) [
  | inl on ↦ rw on (old on, refl)
  | inr off ↦ rw off (
    get_client_last (update heap a connect) s.client_db r.username a
        (named_connected heap r.username a c at named),
    refl,
  )
]

pub client_at_found :
    (heap : List Client) (a : ℕ) (c : Client) → get_elem? heap a ≡ some c → client_at heap a ≡ ok c
unfolding client_at
client_at_found heap a c h = rw (h, client_at) refl

pub login_run :
    (r : Request) (s : Server) (c : Client)
    → client_at
        (get_or_create s.clients s.client_db r.username).0
        (get_or_create s.clients s.client_db r.username).1
      ≡ ok c
    → login r s
      ≡ ok (
        propogate login_method r
            (login_client r s
              (get_or_create s.clients s.client_db r.username).0
              (get_or_create s.clients s.client_db r.username).1
              c).0,
        (login_client r s
            (get_or_create s.clients s.client_db r.username).0
            (get_or_create s.clients s.client_db r.username).1
            c).1,
      )
unfolding login
login_run r s c h = rw h refl

-- A login returns with success whatever the state of the server and the request, and the user is
-- in the database afterwards.
pub login-IsPresent :
    (r : Request) (s : Server)
    → (x : Answer) × (login r s ≡ ok x) × (x.1.status ≡ success) × IsPresent x.0 r.username
login-IsPresent r s =
    let (c, at, named, old) = created_client s.clients s.client_db r.username in
    let (present, good) =
      login_client-IsPresent r s (get_or_create s.clients s.client_db r.username).0
        (get_or_create s.clients s.client_db r.username).1 c at named old in
    (
      _,
      login_run r s c (client_at_found _ _ c at),
      good,
      propogate-IsPresent login_method r _ r.username present,
    )
