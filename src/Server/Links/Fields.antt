-- ===== src/Server/Links/Fields.antt =====
-- The clients of the heap by their fields, before and after a write.
use mathlib.Core.Path.{subst}
use distributed_sns.Base.{
  ℕ, zero, suc, ◌≡◌, refl, ◌≢◌, sym, ◌∙◌, ap, inl, inr, true, false, Option, none, some, List, [],
  ◌∷◌, ◌++◌, arith, Str, ◌==◌, nat_eq, str_eq, ==_refl, ==_ne, eq_of_==, ne_of_==, if◌then◌else◌,
  is_some, Option-cases, Bool-cases, length, get_elem?, get_elem?-set_elem_self,
  get_elem?-set_elem_ne,
}
use distributed_sns.Server.State.{Client}
use distributed_sns.Server.Clients.{is_named, get_client, index_of, update}
use distributed_sns.Server.Presence.{update_at}
use distributed_sns.Server.Links.Counts.{count}

unfoldable pub of_client {ℓ} : {X : Type ℓ} → X → (Client → X) → Option Client → X
of_client x p none = x
of_client x p (some c) = p c

-- The field of the client at an address.
abbrev pub field {ℓ} : {X : Type ℓ} → X → (Client → X) → List Client → ℕ → X
field x p heap a = of_client x p (get_elem? heap a)

abbrev pub following_at : List Client → ℕ → List ℕ
following_at = field [] (λ c. c.client_following)

abbrev pub followers_at : List Client → ℕ → List ℕ
followers_at = field [] (λ c. c.client_followers)

abbrev pub name_at : List Client → ℕ → Option Str
name_at = field none (λ c. some c.username)

pub get_elem?-update :
    (heap : List Client) (a : ℕ) (f : Client → Client) (c : Client) (x : ℕ)
    → get_elem? heap a ≡ some c
    → get_elem? (update heap a f) x ≡ (if x == a then some (f c) else get_elem? heap x)
get_elem?-update heap a f c x h =
    ap (λ m. get_elem? m x) (update_at heap a f c h) ∙ elim (Bool-cases (x == a)) [
      | inl hit ↦ rw (hit, eq_of_== x a hit) (get_elem?-set_elem_self heap a (f c) h)
      | inr miss ↦ rw miss (get_elem?-set_elem_ne heap a x (f c) (λ e. ne_of_== x a miss (sym e)))
    ]

pub update-some :
    (heap : List Client) (a b : ℕ) (f : Client → Client) (c d : Client)
    → get_elem? heap a ≡ some c
    → get_elem? heap b ≡ some d
    → (e : Client) × (get_elem? (update heap a f) b ≡ some e)
update-some heap a b f c d h k = elim (Bool-cases (b == a)) [
  | inl hit ↦ (f c, get_elem?-update heap a f c b h ∙ rw hit refl)
  | inr miss ↦ (d, get_elem?-update heap a f c b h ∙ rw miss k)
]

-- A write changes a field at its address, and at no other.
pub field-update {ℓ} :
    {X : Type ℓ} (x : X) (p : Client → X) (g : X → X) (heap : List Client) (a : ℕ)
    (f : Client → Client) (c : Client) (y : ℕ)
    → ((d : Client) → p (f d) ≡ g (p d))
    → get_elem? heap a ≡ some c
    → field x p (update heap a f) y ≡ (if y == a then g (field x p heap y) else field x p heap y)
unfolding of_client
field-update x p g heap a f c y s h = elim (Bool-cases (y == a)) [
  | inl hit ↦
      ap (of_client x p) (get_elem?-update heap a f c y h) ∙ rw (hit, eq_of_== y a hit, h) (s c)
  | inr miss ↦ ap (of_client x p) (get_elem?-update heap a f c y h) ∙ rw miss refl
]

-- A write that keeps a field keeps it everywhere.
pub field-update_same {ℓ} :
    {X : Type ℓ} (x : X) (p : Client → X) (heap : List Client) (a : ℕ) (f : Client → Client)
    (c : Client) (y : ℕ)
    → ((d : Client) → p (f d) ≡ p d)
    → get_elem? heap a ≡ some c
    → field x p (update heap a f) y ≡ field x p heap y
field-update_same x p heap a f c y s h = field-update x p (λ v. v) heap a f c y s h ∙ ground arith

pub field-append {ℓ} :
    {X : Type ℓ} (x : X) (p : Client → X) (heap : List Client) (c : Client) (y : ℕ)
    → field x p (heap ++ (c ∷ [])) y ≡ (if y == length heap then p c else field x p heap y)
unfolding of_client
field-append x p [] c zero = ground arith
field-append x p [] c (suc y) = ground arith
field-append x p (d ∷ heap) c zero = ground arith
field-append x p (d ∷ heap) c (suc y) = ground (arith, field-append x p heap c y)

-- No client is at the address behind the last.
pub field_end {ℓ} :
    {X : Type ℓ} (x : X) (p : Client → X) (heap : List Client) → field x p heap (length heap) ≡ x
unfolding of_client
field_end x p [] = refl
field_end x p (c ∷ heap) = field_end x p heap

-- The name test reads only the name.
is_named-name_at :
    (heap : List Client) (u : Str) (a : ℕ) → is_named heap u a ≡ true → name_at heap a ≡ some u
unfolding is_named of_client
is_named-name_at heap u a h = elim (Option-cases (get_elem? heap a)) [
  | inl e ↦ absurd (ground (arith, h))
  | inr (c, e) ↦ rw e (ap some (sym (eq_of_== u c.username (rw (e, is_named) at h))))
]

pub name_at-is_named :
    (heap : List Client) (u : Str) (a : ℕ) → name_at heap a ≡ some u → is_named heap u a ≡ true
unfolding is_named of_client
name_at-is_named heap u a h = elim (Option-cases (get_elem? heap a)) [
  | inl e ↦ absurd (ground (arith, h))
  | inr (c, e) ↦
      let same : c.username ≡ u = ground (arith, h) in rw (e, is_named) (rw same (==_refl u))
]

pub get_client-name_at :
    (heap : List Client) (db : List ℕ) (u : Str) (a : ℕ)
    → get_client heap db u ≡ some a
    → name_at heap a ≡ some u
unfolding get_client
get_client-name_at heap [] u a h = cc
get_client-name_at heap (x ∷ db) u a h = elim (Bool-cases (is_named heap u x)) [
  | inl hit ↦ let same : x ≡ a = ground arith in is_named-name_at heap u a (rw same at hit)
  | inr miss ↦ get_client-name_at heap db u a (rw miss at h)
]

-- A name that is found stays found, with more clients and a longer database.
pub get_client_kept :
    (heap after : List Client) (db : List ℕ) (u : Str)
    → ((a : ℕ) → name_at heap a ≡ some u → name_at after a ≡ some u)
    → is_some (get_client heap db u) ≡ true
    → is_some (get_client after db u) ≡ true
unfolding get_client
get_client_kept heap after [] u k h = h
get_client_kept heap after (x ∷ db) u k h = elim (Bool-cases (is_named heap u x)) [
  | inl hit ↦ rw (name_at-is_named after u x (k x (is_named-name_at heap u x hit))) refl
  | inr miss ↦
      let rest = get_client_kept heap after db u k (rw miss at h) in
      elim (Bool-cases (is_named after u x)) [ inl on ↦ rw on refl | inr off ↦ rw off rest ]
]

pub get_client-append :
    (heap : List Client) (db more : List ℕ) (u : Str)
    → is_some (get_client heap db u) ≡ true
    → is_some (get_client heap (db ++ more) u) ≡ true
unfolding get_client
get_client-append heap [] more u h = cc
get_client-append heap (x ∷ db) more u h = elim (Bool-cases (is_named heap u x)) [
  | inl hit ↦ rw hit refl
  | inr miss ↦ rw miss (get_client-append heap db more u (rw miss at h))
]

-- Where names are unique, the search in a list finds the client of that name.
pub index_of-found :
    (heap : List Client) (u : Str) (b : ℕ) (xs : List ℕ) (i : ℕ)
    → ((a : ℕ) → name_at heap a ≡ some u → a ≡ b)
    → index_of heap u xs ≡ some i
    → get_elem? xs i ≡ some b
unfolding index_of
index_of-found heap u b [] i only h = cc
index_of-found heap u b (x ∷ xs) i only h = elim (Bool-cases (is_named heap u x)) [
  | inl hit ↦
      let same : 0 ≡ i = ground (arith, h) in
      subst (λ k. get_elem? (x ∷ xs) k ≡ some b) same
        (ap some (only x (is_named-name_at heap u x hit)))
  | inr miss ↦ elim (Option-cases (index_of heap u xs)) [
    | inl none_left ↦ absurd (ground (arith, h))
    | inr (j, e) ↦
        let same : suc j ≡ i = ground (arith, h) in
        subst (λ k. get_elem? (x ∷ xs) k ≡ some b) same (index_of-found heap u b xs j only e)
  ]
]

pub index_of-some :
    (heap : List Client) (u : Str) (b : ℕ) (xs : List ℕ)
    → name_at heap b ≡ some u
    → count b xs ≢ 0
    → (i : ℕ) × (index_of heap u xs ≡ some i)
unfolding index_of count
index_of-some heap u b [] n h = absurd (h refl)
index_of-some heap u b (x ∷ xs) n h = elim (Bool-cases (is_named heap u x)) [
  | inl hit ↦ (0, rw hit refl)
  | inr miss ↦
      let other : (b == x) ≡ false =
        ==_ne b x (λ e. absurd (ground (arith, name_at-is_named heap u b n))) in
      let (i, e) = index_of-some heap u b xs n (λ z. h (rw other (omega (arith, z)))) in
      (suc i, rw (miss, e) refl)
]
