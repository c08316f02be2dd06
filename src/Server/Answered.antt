-- ===== src/Server/Answered.antt =====
-- `Follow` and `UnFollow` that are answered: both clients are there.
use mathlib.Core.Path.{subst}
use distributed_sns.Base.{
  ℕ, ◌≡◌, refl, ◌≢◌, ◌∙◌, sym, ap, ◌⊎◌, inl, inr, Option, none, some, List, ◌∷◌, Str, codes, ◌==◌,
  nat_eq, if◌then◌else◌, Bool-cases, Option-cases, is_some, true, arith,
}
use distributed_sns.Base.Result.{Result, ok, err, ◌>>=◌, >>=-ext, >>=-eq-ok}
use distributed_sns.Server.State.{
  LocalTime, Timestamp, Request, Reply, Client, Server, Method, follow_method, unfollow_method,
  propogate, failure_invalid, failure_not_exists,
}
use distributed_sns.Server.Clients.{
  get_client, not_null, client_at, index_of_following, index_of_follower,
}
use distributed_sns.Server.Api.{
  Answer, first_argument, refuse, follow, follow_target, follow_found, follow_reply, log_names,
  unfollow, unfollow_target, unfollow_found, unfollow_reply,
}

-- What comes behind both clients have been read.
abbrev pub both_read {ℓ} :
    {A : Type ℓ} → Server → Option ℕ → Option ℕ → (ℕ → Client → ℕ → Client → Result A) → Result A
both_read s client target next = do
  a ← not_null client
  b ← not_null target
  c ← client_at s.clients a
  d ← client_at s.clients b
  next a c b d

>>=-assoc :
    {U V W : Type 0} (run : Result U) (f : U → Result V) (g : V → Result W)
    → ((run >>= f) >>= g) ≡ (run >>= λ u. f u >>= g)
>>=-assoc (err stopped) f g = refl
>>=-assoc (ok value) f g = refl

two_reads :
    {U V W : Type 0} (x : Result U) (y : Result U) (f : U → U → Result V) (g : V → Result W)
    → ((x >>= λ u. y >>= λ v. f u v) >>= g) ≡ (x >>= λ u. y >>= λ v. f u v >>= g)
two_reads (err stopped) y f g = refl
two_reads (ok u) y f g = >>=-assoc y (f u) g

abbrev pub follow_both : LocalTime → Request → Server → Result Answer
follow_both tz r s = do
  user ← first_argument r
  both_read s (get_client s.clients s.client_db r.username) (get_client s.clients s.client_db user)
      (λ a c b d.
        let x : Answer =
          if a == b
          then refuse s failure_invalid (codes "You cannot follow yourself.")
          else follow_target tz r.timestamp s a c b d in
        ok (propogate follow_method r x.0, x.1))

abbrev pub unfollow_both : Request → Server → Result Answer
unfollow_both r s = do
  user ← first_argument r
  both_read s (get_client s.clients s.client_db r.username) (get_client s.clients s.client_db user)
      (λ a c b d.
        (if a == b
          then ok (refuse s failure_invalid (codes "You cannot unfollow yourself."))
          else unfollow_target s a c b d)
        >>= λ x. ok (propogate unfollow_method r x.0, x.1))

follow_clients :
    (tz : LocalTime) (r : Request) (s : Server) (client target : Option ℕ)
    → (follow_reply tz r.timestamp s client target >>= log_names follow_method r client target)
      ≡ both_read s client target (λ a c b d.
        let x : Answer =
          if a == b
          then refuse s failure_invalid (codes "You cannot follow yourself.")
          else follow_target tz r.timestamp s a c b d in
        ok (propogate follow_method r x.0, x.1))
unfolding follow_reply follow_found log_names
follow_clients tz r s none none = refl
follow_clients tz r s none (some b) = refl
follow_clients tz r s (some a) none = refl
follow_clients tz r s (some a) (some b) =
    two_reads (client_at s.clients a) (client_at s.clients b)
      (λ c d. ok (
        if a == b
        then refuse s failure_invalid (codes "You cannot follow yourself.")
        else follow_target tz r.timestamp s a c b d))
      (log_names follow_method r (some a) (some b))

unfollow_clients :
    (r : Request) (s : Server) (client target : Option ℕ)
    → (unfollow_reply s client target >>= log_names unfollow_method r client target)
      ≡ both_read s client target (λ a c b d.
        (if a == b
          then ok (refuse s failure_invalid (codes "You cannot unfollow yourself."))
          else unfollow_target s a c b d)
        >>= λ x. ok (propogate unfollow_method r x.0, x.1))
unfolding unfollow_reply unfollow_found log_names
unfollow_clients r s none none = refl
unfollow_clients r s none (some b) = refl
unfollow_clients r s (some a) none = refl
unfollow_clients r s (some a) (some b) =
    two_reads (client_at s.clients a) (client_at s.clients b)
      (λ c d.
        if a == b
        then ok (refuse s failure_invalid (codes "You cannot unfollow yourself."))
        else unfollow_target s a c b d)
      (log_names unfollow_method r (some a) (some b))

-- A follow reads both clients, in every case.
pub follow-both : (tz : LocalTime) (r : Request) (s : Server) → follow tz r s ≡ follow_both tz r s
unfolding follow
follow-both tz r s = >>=-ext (first_argument r) _ _ (λ user.
    follow_clients tz r s (get_client s.clients s.client_db r.username)
      (get_client s.clients s.client_db user))

pub unfollow-both : (r : Request) (s : Server) → unfollow r s ≡ unfollow_both r s
unfolding unfollow
unfollow-both r s = >>=-ext (first_argument r) _ _ (λ user.
    unfollow_clients r s (get_client s.clients s.client_db r.username)
      (get_client s.clients s.client_db user))

-- No branch behind both clients has the status for a user that does not exist.
follow_target-status :
    (tz : LocalTime) (t : Timestamp) (s : Server) (a b : ℕ) (c d : Client)
    → (follow_target tz t s a c b d).1.status ≢ failure_not_exists
unfolding follow_target
follow_target-status tz t s a b c d e = elim (Option-cases (index_of_following s.clients c d)) [
  | inl new ↦ absurd (ground (arith, e))
  | inr (i, old) ↦ absurd (ground (arith, e))
]

follow_pair-status :
    (tz : LocalTime) (t : Timestamp) (s : Server) (a b : ℕ) (c d : Client)
    → (if a == b
        then refuse s failure_invalid (codes "You cannot follow yourself.")
        else follow_target tz t s a c b d).1.status
      ≢ failure_not_exists
follow_pair-status tz t s a b c d e = elim (Bool-cases (a == b)) [
  | inl self ↦ absurd (ground (arith, e))
  | inr two ↦ follow_target-status tz t s a b c d (rw two at e)
]

unfollow_target-status :
    (s : Server) (a b : ℕ) (c d : Client) (x : Answer)
    → unfollow_target s a c b d ≡ ok x
    → x.1.status ≢ failure_not_exists
unfolding unfollow_target
unfollow_target-status s a b c d x h e = elim (Option-cases (index_of_following s.clients c d)) [
  | inl new ↦ absurd (ground (arith, h, e))
  | inr (i, old) ↦ elim (Option-cases (index_of_follower s.clients d c)) [
    | inl lost ↦ absurd (ground (arith, h, e))
    | inr (j, found) ↦ absurd (ground (arith, h, e))
  ]
]

unfollow_pair-status :
    (s : Server) (a b : ℕ) (c d : Client) (x : Answer)
    → (if a == b
        then ok (refuse s failure_invalid (codes "You cannot unfollow yourself."))
        else unfollow_target s a c b d)
      ≡ ok x
    → x.1.status ≢ failure_not_exists
unfollow_pair-status s a b c d x h e = elim (Bool-cases (a == b)) [
  | inl self ↦ absurd (ground (arith, h, e))
  | inr two ↦ unfollow_target-status s a b c d x (rw two at h) e
]

same_status :
    (x : Answer) (m : Method) (r : Request) (s' : Server) (reply : Reply)
    → ◌≡◌ {A = Result Answer} (ok (propogate m r x.0, x.1)) (ok (s', reply))
    → reply.status ≡ x.1.status
same_status x m r s' reply h = let same : x.1 ≡ reply = cc in sym (ap (λ y. y.status) same)

known : (o : Option ℕ) (a : ℕ) → not_null o ≡ ok a → is_some o ≡ true
known none a h = cc
known (some b) a h = refl

first_of :
    (r : Request) (user : Str) (rest : List Str) (v : Str)
    → r.arguments ≡ user ∷ rest
    → first_argument r ≡ ok v
    → v ≡ user
first_of r user rest v args h = ground (arith, rw args at h)

-- What an answer says of the two users.
abbrev IsKnown : Server → Str → Str → Reply → Type 0
IsKnown s u v reply =
    (is_some (get_client s.clients s.client_db u) ≡ true)
    × (is_some (get_client s.clients s.client_db v) ≡ true)
    × (reply.status ≢ failure_not_exists)

follow-IsKnown :
    (tz : LocalTime) (r : Request) (s s' : Server) (reply : Reply) (user : Str) (rest : List Str)
    → r.arguments ≡ user ∷ rest
    → follow tz r s ≡ ok (s', reply)
    → IsKnown s r.username user reply
follow-IsKnown tz r s s' reply user rest args e =
    let (v, e₁, h₁) = >>=-eq-ok (first_argument r) _ (sym (follow-both tz r s) ∙ e) in
    let (a, e₂, h₂) = >>=-eq-ok (not_null (get_client s.clients s.client_db r.username)) _ h₁ in
    let (b, e₃, h₃) = >>=-eq-ok (not_null (get_client s.clients s.client_db v)) _ h₂ in
    let (c, _, h₄) = >>=-eq-ok (client_at s.clients a) _ h₃ in
    let (d, _, h₅) = >>=-eq-ok (client_at s.clients b) _ h₄ in
    (
      known _ a e₂,
      subst (λ w. is_some (get_client s.clients s.client_db w) ≡ true)
          (first_of r user rest v args e₁) (known _ b e₃),
      λ f.
          follow_pair-status tz r.timestamp s a b c d
            (sym (same_status _ follow_method r s' reply h₅) ∙ f),
    )

unfollow-IsKnown :
    (r : Request) (s s' : Server) (reply : Reply) (user : Str) (rest : List Str)
    → r.arguments ≡ user ∷ rest
    → unfollow r s ≡ ok (s', reply)
    → IsKnown s r.username user reply
unfollow-IsKnown r s s' reply user rest args e =
    let (v, e₁, h₁) = >>=-eq-ok (first_argument r) _ (sym (unfollow-both r s) ∙ e) in
    let (a, e₂, h₂) = >>=-eq-ok (not_null (get_client s.clients s.client_db r.username)) _ h₁ in
    let (b, e₃, h₃) = >>=-eq-ok (not_null (get_client s.clients s.client_db v)) _ h₂ in
    let (c, _, h₄) = >>=-eq-ok (client_at s.clients a) _ h₃ in
    let (d, _, h₅) = >>=-eq-ok (client_at s.clients b) _ h₄ in
    let (x, e₆, h₆) =
      >>=-eq-ok
        (if a == b
          then ok (refuse s failure_invalid (codes "You cannot unfollow yourself."))
          else unfollow_target s a c b d)
        _ h₅ in
    (
      known _ a e₂,
      subst (λ w. is_some (get_client s.clients s.client_db w) ≡ true)
          (first_of r user rest v args e₁) (known _ b e₃),
      λ f.
          unfollow_pair-status s a b c d x e₆
            (sym (same_status x unfollow_method r s' reply h₆) ∙ f),
    )

-- A follow or an unfollow that is answered is one between two users that both are in the
-- database, and its status is not FAILURE_NOT_EXISTS, whatever the server, the user and the first
-- argument are.
pub answered-IsKnown :
    (tz : LocalTime) (r : Request) (s s' : Server) (reply : Reply) (user : Str) (rest : List Str)
    → r.arguments ≡ user ∷ rest
    → (follow tz r s ≡ ok (s', reply)) ⊎ (unfollow r s ≡ ok (s', reply))
    → (is_some (get_client s.clients s.client_db r.username) ≡ true)
      × (is_some (get_client s.clients s.client_db user) ≡ true)
      × (reply.status ≢ failure_not_exists)
answered-IsKnown tz r s s' reply user rest args (inl e) =
    follow-IsKnown tz r s s' reply user rest args e
answered-IsKnown tz r s s' reply user rest args (inr e) =
    unfollow-IsKnown r s s' reply user rest args e
