-- ===== src/Server/Links/Unlinks.antt =====
-- Taking a link away at both ends keeps the invariant of who follows whom.
use distributed_sns.Base.{
  ℕ, ◌+◌, ◌≡◌, refl, ap, inl, inr, some, List, arith, ◌==◌, nat_eq, str_eq, eq_of_==, if◌then◌else◌,
  Bool-cases, get_elem?,
}
use distributed_sns.Server.State.{Client}
use distributed_sns.Server.Clients.{unlink, remove_following, remove_follower, erase_at}
use distributed_sns.Server.Links.Counts.{count, count-erase_at}
use distributed_sns.Server.Links.Fields.{following_at, followers_at, name_at}
use distributed_sns.Server.Links.Invariant.{
  Linked, names_unique, names_known, two_writes-following, two_writes-followers, two_writes-name,
}

module _ (heap : List Client) (a b i j : ℕ) (c d : Client) (at : get_elem? heap a ≡ some c)
    (at' : get_elem? heap b ≡ some d) where
  unlink-following :
      (x : ℕ)
      → following_at (unlink heap a b i j) x
        ≡ (if x == a then erase_at i (following_at heap x) else following_at heap x)
  unlink-following x =
      two_writes-following heap a b c d (remove_following i) (remove_follower j) (erase_at i) x at
        at' (λ e. refl) (λ e. refl)

  unlink-followers :
      (x : ℕ)
      → followers_at (unlink heap a b i j) x
        ≡ (if x == b then erase_at j (followers_at heap x) else followers_at heap x)
  unlink-followers x =
      two_writes-followers heap a b c d (remove_following i) (remove_follower j) (erase_at j) x at
        at' (λ e. refl) (λ e. refl)

  unlink-name : (x : ℕ) → name_at (unlink heap a b i j) x ≡ name_at heap x
  unlink-name x =
      two_writes-name heap a b c d (remove_following i) (remove_follower j) x at at' (λ e. refl)
        (λ e. refl)

  -- What is followed after the link is taken away, and by whom.
  pub count-unlink_following :
      (x y : ℕ)
      → get_elem? (following_at heap a) i ≡ some b
      → count y (following_at (unlink heap a b i j) x)
          + (if x == a then (if y == b then 1 else 0) else 0)
        ≡ count y (following_at heap x)
  count-unlink_following x y g = elim (Bool-cases (x == a)) [
    | inl hit ↦ ground (
      arith,
      ap (count y) (unlink-following x),
      eq_of_== x a hit,
      count-erase_at y b i (following_at heap a) g,
    )
    | inr miss ↦ ground (arith, ap (count y) (unlink-following x))
  ]

  count-unlink_followers :
      (x y : ℕ)
      → get_elem? (followers_at heap b) j ≡ some a
      → count x (followers_at (unlink heap a b i j) y)
          + (if y == b then (if x == a then 1 else 0) else 0)
        ≡ count x (followers_at heap y)
  count-unlink_followers x y g = elim (Bool-cases (y == b)) [
    | inl hit ↦ ground (
      arith,
      ap (count x) (unlink-followers y),
      eq_of_== y b hit,
      count-erase_at x a j (followers_at heap b) g,
    )
    | inr miss ↦ ground (arith, ap (count x) (unlink-followers y))
  ]

pub unlink-Linked :
    (heap : List Client) (db : List ℕ) (a b i j : ℕ) (c d : Client)
    → get_elem? heap a ≡ some c
    → get_elem? heap b ≡ some d
    → get_elem? (following_at heap a) i ≡ some b
    → get_elem? (followers_at heap b) j ≡ some a
    → Linked heap db
    → Linked (unlink heap a b i j) db
unlink-Linked heap db a b i j c d at at' f g h = record {
  agree = λ x y. ground (
    arith,
    count-unlink_following heap a b i j c d at at' x y f,
    count-unlink_followers heap a b i j c d at at' x y g,
    h.agree x y,
  );
  once = λ x y. ground (arith, count-unlink_following heap a b i j c d at at' x y f, h.once x y);
  unique = names_unique heap (unlink heap a b i j) db h (unlink-name heap a b i j c d at at');
  known = names_known heap (unlink heap a b i j) db h (unlink-name heap a b i j c d at at');
}
