-- ===== src/Server/Timeline.antt =====
-- The posts that a client is shown when it enters the timeline.
use distributed_sns.Base.{
  ℕ, zero, suc, ◌<◌, ◌≡◌, refl, ◌≢◌, ap, ◌↔◌, ◌⊎◌, inl, inr, Bool, true, some, List, [], ◌∷◌, arith,
  ◌==◌, nat_eq, ==_refl, ==_ne, eq_of_==, ne_of_==, take, get_elem?, Option-cases, Bool-cases,
  if◌then◌else◌,
}
use distributed_sns.Base.Int.{ℤ, pos, negsuc, ltb_ℤ, int_eq}
use distributed_sns.Server.State.{Timestamp, later, Post, Client, Server}
use distributed_sns.Server.Clients.{get_client}
use distributed_sns.Server.Posts.{
  get_following_posts, latest_shown, is_shown, follow_time_of, reverse,
}

-- Of two integers the first is less, and of two times the first is after the second.
abbrev pub IsBelow : ℤ → ℤ → Type 0
IsBelow (pos a) (pos b) = a < b
IsBelow (pos a) (negsuc b) = ⊥
IsBelow (negsuc a) (pos b) = Unit
IsBelow (negsuc a) (negsuc b) = b < a

abbrev pub IsAfter : Timestamp → Timestamp → Type 0
IsAfter t u = IsBelow u.seconds t.seconds ⊎ ((u.seconds ≡ t.seconds) × (u.nanos < t.nanos))

-- The author of the post stands in the following list of the client, and the post is after the
-- follow time at the first place where it does.
pub record IsDue (s : Server) (c : Client) (p : Post) : Type 0 where
  pub author : ℕ
  pub index : ℕ
  pub since : Timestamp
  pub by : get_client s.clients s.client_db p.username ≡ some author
  pub follows : get_elem? c.client_following index ≡ some author
  pub first : (j : ℕ) → j < index → get_elem? c.client_following j ≢ some author
  pub follow_time : get_elem? c.follow_time index ≡ some since
  pub after : IsAfter p.timestamp since

IsBelow-of_ltb : (a b : ℤ) → ltb_ℤ a b ≡ true → IsBelow a b
IsBelow-of_ltb (pos a) (pos b) h = ground arith
IsBelow-of_ltb (pos a) (negsuc b) h = cc
IsBelow-of_ltb (negsuc a) (pos b) h = tt
IsBelow-of_ltb (negsuc a) (negsuc b) h = ground arith

ltb-of_IsBelow : (a b : ℤ) → IsBelow a b → ltb_ℤ a b ≡ true
ltb-of_IsBelow (pos a) (pos b) h = ground arith
ltb-of_IsBelow (pos a) (negsuc b) h = absurd h
ltb-of_IsBelow (negsuc a) (pos b) h = refl
ltb-of_IsBelow (negsuc a) (negsuc b) h = ground arith

IsAfter-of_later : (t u : Timestamp) → later t u ≡ true → IsAfter t u
IsAfter-of_later t u h = elim (Bool-cases (ltb_ℤ u.seconds t.seconds)) [
  | inl less ↦ inl (IsBelow-of_ltb u.seconds t.seconds less)
  | inr more ↦ inr (eq_of_== u.seconds t.seconds (ground (arith, h)), ground (arith, h))
]

later-of_IsAfter : (t u : Timestamp) → IsAfter t u → later t u ≡ true
later-of_IsAfter t u (inl less) = rw (ltb-of_IsBelow u.seconds t.seconds less) refl
later-of_IsAfter t u (inr (same, less)) = ground (arith, same, less, ==_refl u.seconds)

-- The search for the author, by places in the two lists.
follow_time_of-found :
    (author : ℕ) (bs : List ℕ) (ts : List Timestamp) (t : Timestamp)
    → follow_time_of author bs ts ≡ some t
    → (i : ℕ) × (get_elem? bs i ≡ some author)
      × ((j : ℕ) → j < i → get_elem? bs j ≢ some author)
      × (get_elem? ts i ≡ some t)
unfolding follow_time_of
follow_time_of-found author [] ts t h = absurd cc
follow_time_of-found author (b ∷ bs) [] t h = absurd cc
follow_time_of-found author (b ∷ bs) (u ∷ ts) t h = elim (Bool-cases (b == author)) [
  | inl hit ↦ (0, ap some (eq_of_== b author hit), (λ j l. absurd (omega (arith, l))), rw hit at h)
  | inr miss ↦
      let (i, at, first, time) = follow_time_of-found author bs ts t (rw miss at h) in
      (suc i, at, not_before author b bs i (ne_of_== b author miss) first, time)
]
  where
    not_before :
        (author b : ℕ) (bs : List ℕ) (i : ℕ)
        → b ≢ author
        → ((j : ℕ) → j < i → get_elem? bs j ≢ some author)
        → (j : ℕ) → j < suc i
        → get_elem? (b ∷ bs) j ≢ some author
    not_before author b bs i n first zero l e = n cc
    not_before author b bs i n first (suc j) l e = first j (omega (arith, l)) e

follow_time_of-at :
    (author : ℕ) (bs : List ℕ) (ts : List Timestamp) (t : Timestamp) (i : ℕ)
    → get_elem? bs i ≡ some author
    → ((j : ℕ) → j < i → get_elem? bs j ≢ some author)
    → get_elem? ts i ≡ some t
    → follow_time_of author bs ts ≡ some t
unfolding follow_time_of
follow_time_of-at author [] ts t i at first time = absurd cc
follow_time_of-at author (b ∷ bs) [] t i at first time = absurd cc
follow_time_of-at author (b ∷ bs) (u ∷ ts) t zero at first time =
    let same : b ≡ author = cc in rw (same, ==_refl author) time
follow_time_of-at author (b ∷ bs) (u ∷ ts) t (suc i) at first time =
    rw (==_ne b author (λ e. first 0 (omega arith) (ap some e)))
      (follow_time_of-at author bs ts t i at (λ j l. first (suc j) (omega (arith, l))) time)

IsDue-of_shown : (s : Server) (c : Client) (p : Post) → is_shown s c p ≡ true → IsDue s c p
unfolding is_shown
IsDue-of_shown s c p h = elim (Option-cases (get_client s.clients s.client_db p.username)) [
  | inl e ↦ absurd (ground (arith, h))
  | inr (a, e) ↦ elim (Option-cases (follow_time_of a c.client_following c.follow_time)) [
    | inl f ↦ absurd (ground (arith, h))
    | inr (t, f) ↦
        let (i, at, first, time) = follow_time_of-found a c.client_following c.follow_time t f in
        record {
          author = a;
          index = i;
          since = t;
          by = e;
          follows = at;
          first = first;
          follow_time = time;
          after = IsAfter-of_later p.timestamp t (rw (e, f, is_shown) at h);
        }
  ]
]

shown-of_IsDue : (s : Server) (c : Client) (p : Post) → IsDue s c p → is_shown s c p ≡ true
unfolding is_shown
shown-of_IsDue s c p d =
    rw
      (
        d.by,
        is_shown,
        follow_time_of-at d.author c.client_following c.follow_time d.since d.index d.follows
            d.first d.follow_time,
      )
      (later-of_IsAfter p.timestamp d.since d.after)

-- The posts that a test admits.
unfoldable pub filter : (Post → Bool) → List Post → List Post
filter p [] = []
filter p (x ∷ xs) = let rest = filter p xs in if p x then x ∷ rest else rest

latest_shown-filter :
    (shown : Post → Bool) (ps : List Post) (n : ℕ)
    → latest_shown shown ps n ≡ take n (filter shown ps)
unfolding latest_shown filter
latest_shown-filter shown [] zero = refl
latest_shown-filter shown [] (suc n) = refl
latest_shown-filter shown (p ∷ ps) zero = refl
latest_shown-filter shown (p ∷ ps) (suc n) = elim (Bool-cases (shown p)) [
  | inl on ↦ rw (on, latest_shown) (ap (λ r. p ∷ r) (latest_shown-filter shown ps n))
  | inr off ↦ rw (off, latest_shown) (latest_shown-filter shown ps (suc n))
]

-- The loop for the timeline gives the first `max_posts` of the posts that pass its test, from the
-- newest on; and a post passes the test exactly where its author is in the database and in the
-- following list of the client, and the post is later than the time at the same place of the list
-- of follow times, the first such place in the list.
pub get_following_posts-IsDue :
    (s : Server) (c : Client) (max_posts : ℕ) (p : Post)
    → (get_following_posts s c max_posts
        ≡ take max_posts (filter (is_shown s c) (reverse s.all_posts)))
      × ((is_shown s c p ≡ true) ↔ IsDue s c p)
unfolding get_following_posts
get_following_posts-IsDue s c max_posts p = (
  latest_shown-filter (is_shown s c) (reverse s.all_posts) max_posts,
  (IsDue-of_shown s c p, shown-of_IsDue s c p),
)
