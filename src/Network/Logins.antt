-- ===== src/Network/Logins.antt =====
-- What a login leaves in a server, and what it sends.
use distributed_sns.Base.{
  ℕ, zero, suc, ◌≡◌, refl, ◌∙◌, sym, ap, inl, inr, Bool, true, false, some, List, [], ◌∷◌, ◌++◌,
  append-nil, append_assoc, arith, Str, nat_eq, str_eq, Option-cases, Bool-cases, if◌then◌else◌,
  length, drop, get_elem?, set_elem,
}
use mathlib.Core.Path.{subst}
use distributed_sns.Base.Result.{ok}
use distributed_sns.Server.State.{
  LocalTime, Request, Client, new_client, Server, Sent, propogated, Method, login_method,
  counterparts, other_masters, propogate,
}
use distributed_sns.Server.Clients.{is_named, get_client, get_or_create, update, connect}
use distributed_sns.Server.Api.{Answer, login, login_client}
use distributed_sns.Server.Presence.{
  IsPresent, login-IsPresent, created_client, client_at_found, login_run,
}
use distributed_sns.Network.Propagation.{handle}

pub drop-append {ℓ} : {A : Type ℓ} (xs ys : List A) → drop (length xs) (xs ++ ys) ≡ ys
drop-append [] ys = refl
drop-append (x ∷ xs) ys = drop-append xs ys

-- A client keeps its name and its place.
abbrev KeepsNames : List Client → List Client → Type 0
KeepsNames heap heap' = (v : Str) (x : ℕ) → is_named heap v x ≡ true → is_named heap' v x ≡ true

get_client_kept :
    (heap heap' : List Client) (db more : List ℕ) (v : Str) (a : ℕ)
    → KeepsNames heap heap'
    → get_client heap db v ≡ some a
    → (b : ℕ) × (get_client heap' (db ++ more) v ≡ some b)
unfolding get_client
get_client_kept heap heap' [] more v a keeps h = absurd cc
get_client_kept heap heap' (x ∷ db) more v a keeps h = elim (Bool-cases (is_named heap' v x)) [
  | inl new ↦ (x, rw (new, get_client) refl)
  | inr off' ↦ elim (Bool-cases (is_named heap v x)) [
    | inl old ↦ absurd (let same : true ≡ false = sym (keeps v x old) ∙ off' in cc)
    | inr off ↦
        let (b, e) = get_client_kept heap heap' db more v a keeps (rw (off, get_client) at h) in
        (b, rw (off', get_client) e)
  ]
]

KeepsNames-append : (heap : List Client) (c : Client) → KeepsNames heap (heap ++ (c ∷ []))
unfolding is_named
KeepsNames-append [] c v x h = cc
KeepsNames-append (d ∷ heap) c v zero h = h
KeepsNames-append (d ∷ heap) c v (suc x) h = KeepsNames-append heap c v x h

KeepsNames-set_elem :
    (heap : List Client) (a : ℕ) (c d : Client)
    → get_elem? heap a ≡ some c
    → d.username ≡ c.username
    → KeepsNames heap (set_elem heap a d)
unfolding is_named
KeepsNames-set_elem [] a c d at e v x h = h
KeepsNames-set_elem (y ∷ heap) zero c d at e v zero h =
    let same : y.username ≡ d.username = ground arith in rw (← same) h
KeepsNames-set_elem (y ∷ heap) zero c d at e v (suc x) h = h
KeepsNames-set_elem (y ∷ heap) (suc a) c d at e v zero h = h
KeepsNames-set_elem (y ∷ heap) (suc a) c d at e v (suc x) h =
    KeepsNames-set_elem heap a c d at e v x h

KeepsNames-connect : (heap : List Client) (a : ℕ) → KeepsNames heap (update heap a connect)
KeepsNames-connect heap a = elim (Option-cases (get_elem? heap a)) [
  | inl e ↦ rw (e, update) (λ v x h. h)
  | inr (c, e) ↦ rw (e, update) (KeepsNames-set_elem heap a c (connect c) e refl)
]

KeepsNames-get_or_create :
    (heap : List Client) (db : List ℕ) (u : Str) → KeepsNames heap (get_or_create heap db u).0
unfolding get_or_create
KeepsNames-get_or_create heap db u = elim (Option-cases (get_client heap db u)) [
  | inl e ↦ rw (e, get_or_create) (KeepsNames-append heap (new_client u))
  | inr (a, e) ↦ rw (e, get_or_create) (λ v x h. h)
]

-- What a server sends for a request: to its slaves, and to the other masters if it comes from a client.
abbrev pub outgoing : Method → Request → Bool → List Sent
outgoing m r master =
    let new_request = record r { from_server = true } in
    if master
    then propogated m new_request counterparts
      ∷ (if r.from_server then [] else propogated m new_request other_masters ∷ [])
    else []

pub propogate-sent :
    (m : Method) (r : Request) (s : Server)
    → ((propogate m r s).sent ≡ s.sent ++ outgoing m r s.master)
      × ((propogate m r s).master ≡ s.master)
      × ((propogate m r s).clients ≡ s.clients)
      × ((propogate m r s).client_db ≡ s.client_db)
unfolding propogate
propogate-sent m r s = elim (Bool-cases s.master) [
  | inr off ↦ rw off (sym (append-nil s.sent), refl, refl, refl)
  | inl on ↦ elim (Bool-cases r.from_server) [
    | inl inner ↦ rw on (rw inner (refl, refl, refl, refl))
    | inr outer ↦ rw on (rw outer (append_assoc s.sent _ _, refl, refl, refl))
  ]
]

-- The state of a login before it is sent on.
record LoggedIn (r : Request) (s : Server) (t : Answer) : Type 0 where
  pub runs : login r s ≡ ok (propogate login_method r t.0, t.1)
  pub same_master : t.0.master ≡ s.master
  pub same_sent : t.0.sent ≡ s.sent
  pub names : KeepsNames s.clients t.0.clients
  pub more : List ℕ
  pub longer : t.0.client_db ≡ s.client_db ++ more

login_client_form :
    (r : Request) (s : Server) (heap : List Client) (a : ℕ) (c : Client)
    → KeepsNames s.clients heap
    → login r s
      ≡ ok (propogate login_method r (login_client r s heap a c).0, (login_client r s heap a c).1)
    → LoggedIn r s (login_client r s heap a c)
unfolding login_client
login_client_form r s heap a c keeps runs = elim (Bool-cases c.connected) [
  | inl on ↦ record {
    runs = runs;
    same_master = rw on refl;
    same_sent = rw on refl;
    names = rw on keeps;
    more = [];
    longer = rw on (sym (append-nil s.client_db));
  }
  | inr off ↦ record {
    runs = runs;
    same_master = rw off refl;
    same_sent = rw off refl;
    names = rw off (λ v x h. KeepsNames-connect heap a v x (keeps v x h));
    more = a ∷ [];
    longer = rw off refl;
  }
]

login_form : (r : Request) (s : Server) → (t : Answer) × LoggedIn r s t
login_form r s =
    let (heap, a) = get_or_create s.clients s.client_db r.username in
    let (c, at, named, old) = created_client s.clients s.client_db r.username in
    (
      login_client r s heap a c,
      login_client_form r s heap a c (KeepsNames-get_or_create s.clients s.client_db r.username)
          (login_run r s c (client_at_found heap a c at)),
    )

-- A server after a login.
pub record IsAfter (tz : LocalTime) (r : Request) (s s' : Server) : Type 0 where
  pub runs : handle tz login_method r s ≡ ok s'
  pub present : IsPresent s' r.username
  pub keeps : (v : Str) → IsPresent s v → IsPresent s' v
  pub same_master : s'.master ≡ s.master
  pub sends : drop (length s.sent) s'.sent ≡ outgoing login_method r s.master

IsPresent-after :
    (r : Request) (s : Server) (t : Answer)
    → LoggedIn r s t
    → IsPresent (propogate login_method r t.0) r.username
IsPresent-after r s t h =
    let (x, run, good, present) = login-IsPresent r s in
    let same : x ≡ (propogate login_method r t.0, t.1) = cc h.runs in
    subst (λ (y : Answer). IsPresent y.0 r.username) same present

IsPresent-kept :
    (r : Request) (s : Server) (t : Answer) (v : Str)
    → LoggedIn r s t
    → IsPresent s v
    → IsPresent (propogate login_method r t.0) v
IsPresent-kept r s t v h (a, found) =
    let (_, _, clients, db) = propogate-sent login_method r t.0 in
    let (b, e) = get_client_kept s.clients t.0.clients s.client_db h.more v a h.names found in
    (
      b,
      ap (λ heap. get_client heap (propogate login_method r t.0).client_db v) clients
          ∙ ap (λ l. get_client t.0.clients l v) (db ∙ h.longer)
          ∙ e,
    )

pub handle_login : (tz : LocalTime) (r : Request) (s : Server) → (s' : Server) × IsAfter tz r s s'
handle_login tz r s =
    let (t, h) = login_form r s in
    let (sent, master, _, _) = propogate-sent login_method r t.0 in
    (
      propogate login_method r t.0,
      record {
        runs = unfold handle in rw h.runs refl;
        present = IsPresent-after r s t h;
        keeps = λ v. IsPresent-kept r s t v h;
        same_master = master ∙ h.same_master;
        sends =
            ap (λ l. drop (length s.sent) l)
              (sent ∙ ap (λ l. l ++ outgoing login_method r t.0.master) h.same_sent)
            ∙ drop-append s.sent (outgoing login_method r t.0.master)
            ∙ ap (outgoing login_method r) h.same_master;
      },
    )
