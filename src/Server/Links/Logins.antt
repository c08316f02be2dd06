-- ===== src/Server/Links/Logins.antt =====
-- `Login` keeps the invariant of who follows whom.
use mathlib.Core.Path.{subst}
use distributed_sns.Base.{
  ℕ, ◌≡◌, refl, ◌≢◌, sym, ◌∙◌, ap, ◌⊎◌, inl, inr, true, none, some, List, [], ◌∷◌, ◌++◌, arith, Str,
  ◌==◌, nat_eq, str_eq, ==_refl, eq_of_==, if◌then◌else◌, is_some, Option-cases, Bool-cases, length,
  get_elem?,
}
use distributed_sns.Base.Result.{Result, ok, >>=-eq-ok}
use distributed_sns.Server.State.{
  Client, new_client, Server, Request, Reply, Method, login_method, propogate,
}
use distributed_sns.Server.Clients.{get_client, get_or_create, client_at, update, connect}
use distributed_sns.Server.Api.{Answer, login, login_client}
use distributed_sns.Server.Presence.{get_client_last}
use distributed_sns.Server.Sessions.{get_or_create-connected}
use distributed_sns.Server.Links.Fields.{
  field, following_at, followers_at, name_at, field-update_same, field-append, field_end,
  get_client_kept, get_client-append, name_at-is_named,
}
use distributed_sns.Server.Links.Counts.{count}
use distributed_sns.Server.Links.Invariant.{Linked, names_unique, names_known}

abbrev pub IsLinked : Server → Type 0
IsLinked s = Linked s.clients s.client_db

pub propogate-IsLinked :
    (m : Method) (r : Request) (s : Server) → IsLinked s → IsLinked (propogate m r s)
unfolding propogate
propogate-IsLinked m r s h = elim (Bool-cases s.master) [ inl on ↦ rw on h | inr off ↦ rw off h ]

-- What is sent to other servers changes no client.
pub sent_on :
    (m : Method) (r : Request) (x : Answer) (s' : Server) (reply : Reply)
    → ◌≡◌ {A = Result Answer} (ok (propogate m r x.0, x.1)) (ok (s', reply))
    → IsLinked x.0
    → IsLinked s'
sent_on m r x s' reply e h =
    let same : propogate m r x.0 ≡ s' = cc in subst IsLinked same (propogate-IsLinked m r x.0 h)

pub client_at-some :
    (heap : List Client) (a : ℕ) (c : Client) → client_at heap a ≡ ok c → get_elem? heap a ≡ some c
unfolding client_at
client_at-some heap a c e = elim (Option-cases (get_elem? heap a)) [
  | inl none_there ↦ absurd (ground (arith, e))
  | inr (d, at) ↦ ground (arith, e)
]

connect-Linked :
    (heap : List Client) (db : List ℕ) (a : ℕ) (c : Client)
    → get_elem? heap a ≡ some c
    → Linked heap db
    → Linked (update heap a connect) db
connect-Linked heap db a c at h =
    let names : (x : ℕ) → name_at (update heap a connect) x ≡ name_at heap x =
      λ x. field-update_same none (λ k. some k.username) heap a connect c x (λ e. refl) at in
    let fs : (x : ℕ) → following_at (update heap a connect) x ≡ following_at heap x =
      λ x. field-update_same [] (λ k. k.client_following) heap a connect c x (λ e. refl) at in
    let rs : (x : ℕ) → followers_at (update heap a connect) x ≡ followers_at heap x =
      λ x. field-update_same [] (λ k. k.client_followers) heap a connect c x (λ e. refl) at in
    record {
      agree = λ x y. ap (count y) (fs x) ∙ h.agree x y ∙ sym (ap (count x) (rs y));
      once = λ x y. rw (fs x) (h.once x y);
      unique = names_unique heap (update heap a connect) db h names;
      known = names_known heap (update heap a connect) db h names;
    }

Linked-append : (heap : List Client) (db more : List ℕ) → Linked heap db → Linked heap (db ++ more)
Linked-append heap db more h = record {
  agree = h.agree;
  once = h.once;
  unique = h.unique;
  known = λ x u e. get_client-append heap db more u (h.known x u e);
}

-- A new client follows no one and has no followers.
module _ (heap : List Client) (u : Str) where
  field_new :
      (p : Client → List ℕ)
      → p (new_client u) ≡ []
      → (x : ℕ) → field [] p (heap ++ (new_client u ∷ [])) x ≡ field [] p heap x
  field_new p e x = elim (Bool-cases (x == length heap)) [
    | inl hit ↦
        field-append [] p heap (new_client u) x
        ∙ rw hit (e ∙ rw (eq_of_== x (length heap) hit) (sym (field_end [] p heap)))
    | inr miss ↦ field-append [] p heap (new_client u) x ∙ rw miss refl
  ]

  name_new :
      (x : ℕ)
      → name_at (heap ++ (new_client u ∷ [])) x
        ≡ (if x == length heap then some u else name_at heap x)
  name_new x = field-append none (λ c. some c.username) heap (new_client u) x

  name_kept :
      (x : ℕ) (v : Str) → name_at heap x ≡ some v → name_at (heap ++ (new_client u ∷ [])) x ≡ some v
  name_kept x v e = elim (Bool-cases (x == length heap)) [
    | inl hit ↦
        absurd (ground (arith, field_end none (λ c. some c.username) heap, e, eq_of_== x _ hit))
    | inr miss ↦ name_new x ∙ rw miss e
  ]

  -- The name of a client is the new one, at the end, or it was there before.
  name_split :
      (db : List ℕ)
      → Linked heap db
      → get_client heap db u ≡ none
      → (x : ℕ) (v : Str) → name_at (heap ++ (new_client u ∷ [])) x ≡ some v
      → ((x ≡ length heap) × (u ≡ v)) ⊎ ((name_at heap x ≡ some v) × (v ≢ u))
  name_split db h new x v e = elim (Bool-cases (x == length heap)) [
    | inl hit ↦ inl (eq_of_== x _ hit, ground (arith, name_new x, e))
    | inr miss ↦
        let old : name_at heap x ≡ some v = ground (arith, name_new x, e) in
        inr (old, (λ s. absurd (ground (arith, h.known x v old, new, s))))
  ]

  -- Two clients with one name are one, whether they are new or not.
  same_client :
      (db : List ℕ)
      → Linked heap db
      → (x y : ℕ) (v : Str) → ((x ≡ length heap) × (u ≡ v)) ⊎ ((name_at heap x ≡ some v) × (v ≢ u))
      → ((y ≡ length heap) × (u ≡ v)) ⊎ ((name_at heap y ≡ some v) × (v ≢ u))
      → x ≡ y
  same_client db h x y v (inl (xn, _)) (inl (yn, _)) = xn ∙ sym yn
  same_client db h x y v (inl (_, n)) (inr (_, m)) = absurd (m (sym n))
  same_client db h x y v (inr (_, m)) (inl (_, n)) = absurd (m (sym n))
  same_client db h x y v (inr (old, _)) (inr (old', _)) = h.unique x y v old old'

  last_known :
      (db : List ℕ)
      → is_some (get_client (heap ++ (new_client u ∷ [])) (db ++ (length heap ∷ [])) u) ≡ true
  last_known db =
      let named =
        name_at-is_named (heap ++ (new_client u ∷ [])) u (length heap)
          (name_new (length heap) ∙ rw (==_refl (length heap)) refl) in
      let (b, e) = get_client_last (heap ++ (new_client u ∷ [])) db u (length heap) named in
      rw e refl

  new-Linked :
      (db : List ℕ)
      → Linked heap db
      → get_client heap db u ≡ none
      → Linked (heap ++ (new_client u ∷ [])) (db ++ (length heap ∷ []))
  new-Linked db h new = record {
    agree = λ x y.
        ap (count y) (field_new (λ c. c.client_following) refl x)
        ∙ h.agree x y
        ∙ sym (ap (count x) (field_new (λ c. c.client_followers) refl y));
    once = λ x y. rw (field_new (λ c. c.client_following) refl x) (h.once x y);
    unique =
        λ x y v e f. same_client db h x y v (name_split db h new x v e) (name_split db h new y v f);
    known = λ x v e. elim (name_split db h new x v e) [
      | inl (xn, n) ↦
          subst
            (λ w.
              is_some (get_client (heap ++ (new_client u ∷ [])) (db ++ (length heap ∷ [])) w)
              ≡ true)
            n (last_known db)
      | inr (old, _) ↦ get_client-append (heap ++ (new_client u ∷ [])) db (length heap ∷ []) v (
          get_client_kept heap (heap ++ (new_client u ∷ [])) db v (λ y f. name_kept y v f)
            (h.known x v old))
    ];
  }

get_or_create-Linked :
    (heap : List Client) (db : List ℕ) (u : Str)
    → Linked heap db
    → Linked (get_or_create heap db u).0 (db ++ ((get_or_create heap db u).1 ∷ []))
unfolding get_or_create
get_or_create-Linked heap db u h = elim (Option-cases (get_client heap db u)) [
  | inr (a, found) ↦ rw (found, get_or_create) (Linked-append heap db (a ∷ []) h)
  | inl new ↦ rw (new, get_or_create) (new-Linked heap u db h new)
]

-- The first login of a user puts it into the database, and a later one changes nothing.
login_client-IsLinked :
    (r : Request) (s : Server) (c : Client)
    → client_at
        (get_or_create s.clients s.client_db r.username).0
        (get_or_create s.clients s.client_db r.username).1
      ≡ ok c
    → IsLinked s
    → IsLinked
        (login_client r s
          (get_or_create s.clients s.client_db r.username).0
          (get_or_create s.clients s.client_db r.username).1
          c).0
unfolding login_client
login_client-IsLinked r s c e h =
    let (heap, a) = get_or_create s.clients s.client_db r.username in
    elim (Bool-cases c.connected) [
      | inl on ↦ rw on (rw (get_or_create-connected s.clients s.client_db r.username c e on) h)
      | inr off ↦ rw off (
          connect-Linked heap (s.client_db ++ (a ∷ [])) a c (client_at-some heap a c e)
            (get_or_create-Linked s.clients s.client_db r.username h))
    ]

pub login-IsLinked :
    (r : Request) (s s' : Server) (reply : Reply)
    → login r s ≡ ok (s', reply)
    → IsLinked s
    → IsLinked s'
unfolding login
login-IsLinked r s s' reply e h =
    let (c, at, rest) =
      >>=-eq-ok
        (client_at (get_or_create s.clients s.client_db r.username).0
          (get_or_create s.clients s.client_db r.username).1)
        _ e in
    sent_on login_method r _ s' reply rest (login_client-IsLinked r s c at h)
