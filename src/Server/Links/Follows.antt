-- ===== src/Server/Links/Follows.antt =====
-- `Follow` and `UnFollow` keep the invariant of who follows whom, and an `UnFollow` is answered.
use distributed_sns.Base.{
  ℕ, ◌≡◌, refl, ◌≢◌, ◌∙◌, sym, ap, inl, inr, none, some, List, arith, codes, ◌==◌, nat_eq, str_eq,
  ==_refl, eq_of_==, ne_of_==, if◌then◌else◌, Option-cases, Bool-cases, get_elem?,
}
use distributed_sns.Base.Result.{ok, >>=-eq-ok}
use distributed_sns.Server.Answered.{follow-both, unfollow-both}
use distributed_sns.Server.State.{
  LocalTime, Timestamp, Client, Server, Request, Reply, failure_invalid, failure_not_a_follower,
  follow_method, unfollow_method,
}
use distributed_sns.Server.Clients.{
  get_client, client_at, not_null, index_of_following, index_of_follower,
}
use distributed_sns.Server.Api.{
  Answer, follow, follow_target, unfollow, unfollow_target, first_argument, refuse,
}
use distributed_sns.Server.Sessions.{is_followed, not_followed, unfollowed, follow_answer}
use distributed_sns.Server.Links.Counts.{count, count-erase_at}
use distributed_sns.Server.Links.Fields.{
  of_client, following_at, followers_at, name_at, index_of-found, index_of-some,
}
use distributed_sns.Server.Links.Invariant.{Linked, link-Linked, count-link}
use distributed_sns.Server.Links.Unlinks.{unlink-Linked, count-unlink_following}
use distributed_sns.Server.Links.Logins.{IsLinked, sent_on, client_at-some}

-- A client that was found: its address, its lists and its name.
module _ (heap : List Client) (a : ℕ) (c : Client) (at : get_elem? heap a ≡ some c) where
  following_here : following_at heap a ≡ c.client_following
  unfolding of_client
  following_here = rw at refl

  followers_here : followers_at heap a ≡ c.client_followers
  unfolding of_client
  followers_here = rw at refl

  name_here : name_at heap a ≡ some c.username
  unfolding of_client
  name_here = rw at refl

module _ (heap : List Client) (db : List ℕ) (h : Linked heap db) (a b : ℕ) (c d : Client)
    (at : get_elem? heap a ≡ some c) (at' : get_elem? heap b ≡ some d) where
  -- The search by name in the list of those that a client follows finds the target.
  following-found :
      (i : ℕ) → index_of_following heap c d ≡ some i → get_elem? (following_at heap a) i ≡ some b
  unfolding index_of_following
  following-found i e = rw (following_here heap a c at) (
      index_of-found heap d.username b c.client_following i
        (λ x n. h.unique x b d.username n (name_here heap b d at')) e)

  follower-found :
      (j : ℕ) → index_of_follower heap d c ≡ some j → get_elem? (followers_at heap b) j ≡ some a
  unfolding index_of_follower
  follower-found j e = rw (followers_here heap b d at') (
      index_of-found heap c.username a d.client_followers j
        (λ x n. h.unique x a c.username n (name_here heap a c at)) e)

  -- It finds nothing only where the target is not followed.
  following_none : index_of_following heap c d ≡ none → count b (following_at heap a) ≡ 0
  unfolding index_of_following
  following_none e = elim (Bool-cases (count b (following_at heap a) == 0)) [
    | inl zero_times ↦ eq_of_== _ 0 zero_times
    | inr more ↦
        let listed : count b c.client_following ≢ 0 =
          λ z. ne_of_== _ 0 more (ap (count b) (following_here heap a c at) ∙ z) in
        let (i, f) =
          index_of-some heap d.username b c.client_following (name_here heap b d at') listed in
        absurd (ground (arith, e, f))
  ]

  -- Whoever follows is among the followers.
  follower_some :
      (i : ℕ)
      → index_of_following heap c d ≡ some i
      → (j : ℕ) × (index_of_follower heap d c ≡ some j)
  unfolding index_of_follower
  follower_some i e =
      index_of-some heap c.username a d.client_followers (name_here heap a c at) (λ z.
        let taken = count-erase_at b b i (following_at heap a) (following-found i e) in
        let none_there : count a (followers_at heap b) ≡ 0 =
          ap (count a) (followers_here heap b d at') ∙ z in
        absurd (ground (arith, taken, ==_refl b, h.agree a b, none_there)))

module _ (s : Server) (h : IsLinked s) (a b : ℕ) (c d : Client)
    (at : get_elem? s.clients a ≡ some c) (at' : get_elem? s.clients b ≡ some d) where
  -- After a follow there is one link, whether it is new or not.
  follow_target-IsLinked :
      (tz : LocalTime) (t : Timestamp)
      → IsLinked (follow_target tz t s a c b d).0
        × (count b (following_at (follow_target tz t s a c b d).0.clients a) ≡ 1)
  unfolding follow_target
  follow_target-IsLinked tz t = elim (Option-cases (index_of_following s.clients c d)) [
    | inr (i, old) ↦
        let f = following-found s.clients s.client_db h a b c d at at' i old in
        let taken = count-erase_at b b i (following_at s.clients a) f in
        let single : count b (following_at s.clients a) ≡ 1 =
          ground (arith, taken, ==_refl b, h.once a b) in
        rw (old, follow_target) (h, single)
    | inl new ↦
        let none_yet = following_none s.clients s.client_db h a b c d at at' new in
        rw (new, follow_target)
          (
            link-Linked s.clients s.client_db a b t c d at at' none_yet h,
            count-link s.clients a b t c d at at' none_yet,
          )
  ]

  pub follow_answer-IsLinked :
      (tz : LocalTime) (t : Timestamp)
      → IsLinked (follow_answer tz t s a c b d).0
        × (a ≢ b → count b (following_at (follow_answer tz t s a c b d).0.clients a) ≡ 1)
  follow_answer-IsLinked tz t = elim (Bool-cases (a == b)) [
    | inl self ↦ rw self (h, (λ n. absurd (n (eq_of_== a b self))))
    | inr two ↦ let (k, l) = follow_target-IsLinked tz t in rw two (k, (λ n. l))
  ]

  -- Taking the link away comes to its end, and then there is no link.
  unfollow_target-IsLinked :
      (x : Answer) × (unfollow_target s a c b d ≡ ok x)
      × IsLinked x.0
      × (count b (following_at x.0.clients a) ≡ 0)
  unfollow_target-IsLinked = elim (Option-cases (index_of_following s.clients c d)) [
    | inl new ↦ (
      refuse s failure_not_a_follower (codes "You already do not follow this user..."),
      not_followed s a b c d new,
      h,
      following_none s.clients s.client_db h a b c d at at' new,
    )
    | inr (i, p) ↦
        let (j, q) = follower_some s.clients s.client_db h a b c d at at' i p in
        let f = following-found s.clients s.client_db h a b c d at at' i p in
        let taken = count-unlink_following s.clients a b i j c d at at' a b f in
        (
          unfollowed s a b i j c d,
          is_followed s a b i c d p ∙ rw q refl,
          unlink-Linked s.clients s.client_db a b i j c d at at' f
              (follower-found s.clients s.client_db h a b c d at at' j q) h,
          ground (arith, taken, ==_refl a, ==_refl b, h.once a b),
        )
  ]

  pub unfollow_answer-IsLinked :
      (x : Answer) × ((if a == b
          then ok (refuse s failure_invalid (codes "You cannot unfollow yourself."))
          else unfollow_target s a c b d)
        ≡ ok x)
      × IsLinked x.0
      × (a ≢ b → count b (following_at x.0.clients a) ≡ 0)
  unfollow_answer-IsLinked = elim (Bool-cases (a == b)) [
    | inl self ↦ (
      refuse s failure_invalid (codes "You cannot unfollow yourself."),
      rw self refl,
      h,
      (λ n. absurd (n (eq_of_== a b self))),
    )
    | inr two ↦ let (x, e, k, l) = unfollow_target-IsLinked in (x, rw two e, k, (λ n. l))
  ]

pub follow-IsLinked :
    (tz : LocalTime) (r : Request) (s s' : Server) (reply : Reply)
    → follow tz r s ≡ ok (s', reply)
    → IsLinked s
    → IsLinked s'
follow-IsLinked tz r s s' reply e h =
    let (user, e₁, h₁) = >>=-eq-ok (first_argument r) _ (sym (follow-both tz r s) ∙ e) in
    let (a, e₂, h₂) = >>=-eq-ok (not_null (get_client s.clients s.client_db r.username)) _ h₁ in
    let (b, e₃, h₃) = >>=-eq-ok (not_null (get_client s.clients s.client_db user)) _ h₂ in
    let (c, e₄, h₄) = >>=-eq-ok (client_at s.clients a) _ h₃ in
    let (d, e₅, h₅) = >>=-eq-ok (client_at s.clients b) _ h₄ in
    sent_on follow_method r (follow_answer tz r.timestamp s a c b d) s' reply h₅
      (follow_answer-IsLinked s h a b c d (client_at-some s.clients a c e₄)
        (client_at-some s.clients b d e₅) tz r.timestamp).0

pub unfollow-IsLinked :
    (r : Request) (s s' : Server) (reply : Reply)
    → unfollow r s ≡ ok (s', reply)
    → IsLinked s
    → IsLinked s'
unfollow-IsLinked r s s' reply e h =
    let (user, e₁, h₁) = >>=-eq-ok (first_argument r) _ (sym (unfollow-both r s) ∙ e) in
    let (a, e₂, h₂) = >>=-eq-ok (not_null (get_client s.clients s.client_db r.username)) _ h₁ in
    let (b, e₃, h₃) = >>=-eq-ok (not_null (get_client s.clients s.client_db user)) _ h₂ in
    let (c, e₄, h₄) = >>=-eq-ok (client_at s.clients a) _ h₃ in
    let (d, e₅, h₅) = >>=-eq-ok (client_at s.clients b) _ h₄ in
    let (x, e₆, k, _) =
      unfollow_answer-IsLinked s h a b c d (client_at-some s.clients a c e₄)
        (client_at-some s.clients b d e₅) in
    sent_on unfollow_method r x s' reply (rw e₆ at h₅) k
