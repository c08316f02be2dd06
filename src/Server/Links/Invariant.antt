-- ===== src/Server/Links/Invariant.antt =====
-- The invariant of the clients and the database of a server, and the writes that keep it.
use distributed_sns.Base.{
  ℕ, ◌+◌, ◌≤◌, ◌≡◌, refl, sym, ◌∙◌, ap, inl, inr, Bool, true, false, none, some, List, [], ◌∷◌,
  ◌++◌, arith, Str, ◌==◌, nat_eq, str_eq, eq_of_==, ==_refl, if◌then◌else◌, is_some, Bool-cases,
  get_elem?,
}
use distributed_sns.Server.State.{Client, Timestamp}
use distributed_sns.Server.Clients.{get_client, update, link, add_following, add_follower}
use distributed_sns.Server.Links.Counts.{count, count_last}
use distributed_sns.Server.Links.Fields.{
  following_at, followers_at, name_at, update-some, field-update, field-update_same,
  get_client_kept,
}

-- Of two clients one is in the list of those that the other one follows, once at most, where the
-- other one is in the list of its followers. No two clients have the same name, and each is found
-- in the database by its name.
pub record Linked (heap : List Client) (db : List ℕ) : Type 0 where
  pub agree : (a b : ℕ) → count b (following_at heap a) ≡ count a (followers_at heap b)
  pub once : (a b : ℕ) → count b (following_at heap a) ≤ 1
  pub unique : (a b : ℕ) (u : Str) → name_at heap a ≡ some u → name_at heap b ≡ some u → a ≡ b
  pub known : (a : ℕ) (u : Str) → name_at heap a ≡ some u → is_some (get_client heap db u) ≡ true

module _ (heap : List Client) (a b : ℕ) (c d : Client) where
  -- Two writes, of which the first touches only what is followed, and the second the followers.
  pub two_writes-following :
      (f g : Client → Client) (h : List ℕ → List ℕ) (x : ℕ)
      → get_elem? heap a ≡ some c
      → get_elem? heap b ≡ some d
      → ((e : Client) → (f e).client_following ≡ h e.client_following)
      → ((e : Client) → (g e).client_following ≡ e.client_following)
      → following_at (update (update heap a f) b g) x
        ≡ (if x == a then h (following_at heap x) else following_at heap x)
  two_writes-following f g h x at at' p q =
      let (e, r) = update-some heap a b f c d at at' in
      field-update_same [] (λ k. k.client_following) (update heap a f) b g e x q r
      ∙ field-update [] (λ k. k.client_following) h heap a f c x p at

  pub two_writes-followers :
      (f g : Client → Client) (h : List ℕ → List ℕ) (x : ℕ)
      → get_elem? heap a ≡ some c
      → get_elem? heap b ≡ some d
      → ((e : Client) → (f e).client_followers ≡ e.client_followers)
      → ((e : Client) → (g e).client_followers ≡ h e.client_followers)
      → followers_at (update (update heap a f) b g) x
        ≡ (if x == b then h (followers_at heap x) else followers_at heap x)
  two_writes-followers f g h x at at' p q =
      let (e, r) = update-some heap a b f c d at at' in
      field-update [] (λ k. k.client_followers) h (update heap a f) b g e x q r
      ∙ ap (λ ys. if x == b then h ys else ys)
          (field-update_same [] (λ k. k.client_followers) heap a f c x p at)

  pub two_writes-name :
      (f g : Client → Client) (x : ℕ)
      → get_elem? heap a ≡ some c
      → get_elem? heap b ≡ some d
      → ((e : Client) → (f e).username ≡ e.username)
      → ((e : Client) → (g e).username ≡ e.username)
      → name_at (update (update heap a f) b g) x ≡ name_at heap x
  two_writes-name f g x at at' p q =
      let (e, r) = update-some heap a b f c d at at' in
      field-update_same none (λ k. some k.username) (update heap a f) b g e x (λ k. ap some (q k)) r
      ∙ field-update_same none (λ k. some k.username) heap a f c x (λ k. ap some (p k)) at

-- Where the names stay, they stay unique and known.
module _ (heap after : List Client) (db : List ℕ) (h : Linked heap db)
    (same : (x : ℕ) → name_at after x ≡ name_at heap x) where
  pub names_unique :
      (x y : ℕ) (u : Str) → name_at after x ≡ some u → name_at after y ≡ some u → x ≡ y
  names_unique x y u e f = h.unique x y u (sym (same x) ∙ e) (sym (same y) ∙ f)

  pub names_known :
      (x : ℕ) (u : Str) → name_at after x ≡ some u → is_some (get_client after db u) ≡ true
  names_known x u e =
      get_client_kept heap after db u (λ y f. same y ∙ f) (h.known x u (sym (same x) ∙ e))

-- An address that is put at the end, or taken out, where a test holds.
count-grown :
    (y b : ℕ) (test : Bool) (ys : List ℕ)
    → count y (if test then ys ++ (b ∷ []) else ys)
      ≡ count y ys + (if test then (if y == b then 1 else 0) else 0)
count-grown y b true ys = count_last y b ys
count-grown y b false ys = omega arith

module _ (heap : List Client) (a b : ℕ) (t : Timestamp) (c d : Client)
    (at : get_elem? heap a ≡ some c) (at' : get_elem? heap b ≡ some d) where
  link-following :
      (x : ℕ)
      → following_at (link heap a b t) x
        ≡ (if x == a then following_at heap x ++ (b ∷ []) else following_at heap x)
  link-following x =
      two_writes-following heap a b c d (add_following b t) (add_follower a) (λ ys. ys ++ (b ∷ []))
        x at at' (λ e. refl) (λ e. refl)

  link-followers :
      (x : ℕ)
      → followers_at (link heap a b t) x
        ≡ (if x == b then followers_at heap x ++ (a ∷ []) else followers_at heap x)
  link-followers x =
      two_writes-followers heap a b c d (add_following b t) (add_follower a) (λ ys. ys ++ (a ∷ []))
        x at at' (λ e. refl) (λ e. refl)

  link-name : (x : ℕ) → name_at (link heap a b t) x ≡ name_at heap x
  link-name x =
      two_writes-name heap a b c d (add_following b t) (add_follower a) x at at' (λ e. refl)
        (λ e. refl)

  link-agree :
      ((x y : ℕ) → count y (following_at heap x) ≡ count x (followers_at heap y))
      → (x y : ℕ)
      → count y (following_at (link heap a b t) x) ≡ count x (followers_at (link heap a b t) y)
  link-agree h x y = ground (
    arith,
    ap (count y) (link-following x) ∙ count-grown y b (x == a) (following_at heap x),
    ap (count x) (link-followers y) ∙ count-grown x a (y == b) (followers_at heap y),
    h x y,
  )

  link-once :
      ((x y : ℕ) → count y (following_at heap x) ≤ 1)
      → count b (following_at heap a) ≡ 0
      → (x y : ℕ) → count y (following_at (link heap a b t) x) ≤ 1
  link-once h new x y =
      let grown =
        ap (count y) (link-following x) ∙ count-grown y b (x == a) (following_at heap x) in
      elim (Bool-cases (x == a)) [
        | inr miss ↦ ground (arith, grown, h x y)
        | inl hit ↦ elim (Bool-cases (y == b)) [
          | inr miss ↦ ground (arith, grown, h x y)
          | inl hit' ↦
              let none_yet : count y (following_at heap x) ≡ 0 =
                rw (eq_of_== x a hit, eq_of_== y b hit') new in
              ground (arith, grown, none_yet)
        ]
      ]

-- A link that was not there is there once.
pub count-link :
    (heap : List Client) (a b : ℕ) (t : Timestamp) (c d : Client)
    → get_elem? heap a ≡ some c
    → get_elem? heap b ≡ some d
    → count b (following_at heap a) ≡ 0
    → count b (following_at (link heap a b t) a) ≡ 1
count-link heap a b t c d at at' new =
    let grown =
      ap (count b) (link-following heap a b t c d at at' a)
      ∙ count-grown b b (a == a) (following_at heap a) in
    ground (arith, grown, new, ==_refl a, ==_refl b)

pub link-Linked :
    (heap : List Client) (db : List ℕ) (a b : ℕ) (t : Timestamp) (c d : Client)
    → get_elem? heap a ≡ some c
    → get_elem? heap b ≡ some d
    → count b (following_at heap a) ≡ 0
    → Linked heap db
    → Linked (link heap a b t) db
link-Linked heap db a b t c d at at' new h = record {
  agree = link-agree heap a b t c d at at' h.agree;
  once = link-once heap a b t c d at at' h.once new;
  unique = names_unique heap (link heap a b t) db h (link-name heap a b t c d at at');
  known = names_known heap (link heap a b t) db h (link-name heap a b t c d at at');
}
