-- ===== src/Base/Map.antt =====
-- `std::map`: the list of its pairs, in key order.
use Prim.Native.Nat.{ℕ, suc, ◌+◌}
use mathlib.Core.Path.{◌≡◌, refl, subst}
use mathlib.Core.Logic.{inl, inr}
use mathlib.Core.Bool.{Bool}
use mathlib.Core.Option.{Option, none, some}
use mathlib.Core.List.{List, [], ◌∷◌}
use native.Mathlib.Omega.{arith}
use distributed_sns.Base.Equality.{
  Eq, ◌==◌, if◌then◌else◌, is_some, Option-cases, Bool-cases, eq_of_==,
}
use distributed_sns.Base.Lists.{length, All}

-- `operator<` on the keys.
pub record Order (K : Type 0) : Type 0 where
  pub lt : K → K → Bool

abbrev pub Map {ℓ} : Type 0 → Type ℓ → Type ℓ
Map K V = List (K × V)

module _ {ℓ} {K : Type 0} {V : Type ℓ} ⦃e : Eq K⦄ where
  unfoldable pub find : K → Map K V → Option V
  find k [] = none
  find k ((j, v) ∷ m) = if k == j then some v else find k m

  unfoldable pub replace : K → V → Map K V → Map K V
  replace k v [] = []
  replace k v ((j, w) ∷ m) =
      let rest = replace k v m in if k == j then (j, v) ∷ m else (j, w) ∷ rest

  pub find-replace :
      (j k : K) (v : V) (m : Map K V)
      → find j (replace k v m)
        ≡ (if j == k then (if is_some (find k m) then some v else none) else find j m)
  unfolding find replace
  find-replace j k v [] = ground arith
  find-replace j k v ((i, w) ∷ m) = ground (arith, find-replace j k v m)

  pub All-replace {κ} :
      (P : K × V → Type κ) (k : K) (v : V) (m : Map K V)
      → P (k, v)
      → All P m
      → All P (replace k v m)
  unfolding replace
  All-replace P k v [] p h = tt
  All-replace P k v ((j, w) ∷ m) p h = elim (Bool-cases (k == j)) [
    | inl hit ↦ rw hit (subst (λ i. P (i, v)) (eq_of_== k j hit) p, h.1)
    | inr miss ↦ rw miss (h.0, All-replace P k v m p h.1)
  ]

  -- The value that is found is one of the values.
  pub All-find {κ} :
      (P : K × V → Type κ) (k : K) (m : Map K V) {v : V} → find k m ≡ some v → All P m → P (k, v)
  unfolding find
  All-find P k [] e h = cc
  All-find P k ((j, w) ∷ m) {v} e h = elim (Bool-cases (k == j)) [
    | inl hit ↦ subst P (ground arith) h.0
    | inr miss ↦ All-find P k m (rw miss at e) h.1
  ]

  abbrev pub total : (K × V → ℕ) → Map K V → ℕ
  total f [] = 0
  total f (x ∷ m) = f x + total f m

  total-replace :
      (f : K × V → ℕ) (k : K) (v : V) (m : Map K V) {w : V}
      → find k m ≡ some w
      → total f (replace k v m) + f (k, w) ≡ total f m + f (k, v)
  unfolding find replace
  total-replace f k v [] h = cc
  total-replace f k v ((j, u) ∷ m) {w} h = ground (arith, total-replace f k v m {w = w})

  length-replace : (k : K) (v : V) (m : Map K V) → length (replace k v m) ≡ length m
  unfolding replace
  length-replace k v [] = refl
  length-replace k v ((j, u) ∷ m) = ground (arith, length-replace k v m)

module _ {ℓ} {K : Type 0} {V : Type ℓ} ⦃e : Eq K⦄ ⦃o : Order K⦄ where
  unfoldable pub insert : K → V → Map K V → Map K V
  insert k v [] = (k, v) ∷ []
  insert k v ((j, w) ∷ m) =
      let rest = insert k v m in if o.lt k j then (k, v) ∷ (j, w) ∷ m else (j, w) ∷ rest

  All-insert {κ} :
      (P : K × V → Type κ) (k : K) (v : V) (m : Map K V) → P (k, v) → All P m → All P (insert k v m)
  unfolding insert
  All-insert P k v [] p h = (p, tt)
  All-insert P k v ((j, w) ∷ m) p h = elim (Bool-cases (o.lt k j)) [
    | inl less ↦ rw less (p, h)
    | inr more ↦ rw more (h.0, All-insert P k v m p h.1)
  ]

  total-insert :
      (f : K × V → ℕ) (k : K) (v : V) (m : Map K V) → total f (insert k v m) ≡ f (k, v) + total f m
  unfolding insert
  total-insert f k v [] = refl
  total-insert f k v ((j, w) ∷ m) = ground (arith, total-insert f k v m)

  length-insert : (k : K) (v : V) (m : Map K V) → length (insert k v m) ≡ suc (length m)
  unfolding insert
  length-insert k v [] = refl
  length-insert k v ((j, w) ∷ m) = ground (arith, length-insert k v m)

  -- `m[k] = v`
  unfoldable pub set : K → V → Map K V → Map K V
  set k v m = elim (find k m) [ some _ ↦ replace k v m | none ↦ insert k v m ]

  pub find-insert :
      (j k : K) (v : V) (m : Map K V)
      → find k m ≡ none
      → find j (insert k v m) ≡ (if j == k then some v else find j m)
  unfolding find insert
  find-insert j k v [] h = refl
  find-insert j k v ((i, w) ∷ m) h = ground (arith, find-insert j k v m)

  pub set_found :
      (k : K) (v : V) (m : Map K V) {w : V} → find k m ≡ some w → set k v m ≡ replace k v m
  unfolding set
  set_found k v m h = rw (h, set)

  pub set_new : (k : K) (v : V) (m : Map K V) → find k m ≡ none → set k v m ≡ insert k v m
  unfolding set
  set_new k v m h = rw (h, set)

  pub find-set :
      (j k : K) (v : V) (m : Map K V) → find j (set k v m) ≡ (if j == k then some v else find j m)
  find-set j k v m = elim (Option-cases (find k m)) [
    | inl h ↦ rw (set_new k v m h) (find-insert j k v m h)
    | inr (w, h) ↦ rw (set_found k v m h) (ground (arith, find-replace j k v m))
  ]

  -- What holds of every value still holds where the new one has it too.
  pub All-set {κ} :
      (P : K × V → Type κ) (k : K) (v : V) (m : Map K V) → P (k, v) → All P m → All P (set k v m)
  All-set P k v m p h = elim (Option-cases (find k m)) [
    | inl e ↦ rw (set_new k v m e) (All-insert P k v m p h)
    | inr (w, e) ↦ rw (set_found k v m e) (All-replace P k v m p h)
  ]

  -- A sum over the values, before and after a write.
  pub total-set_new :
      (f : K × V → ℕ) (k : K) (v : V) (m : Map K V)
      → find k m ≡ none
      → total f (set k v m) ≡ f (k, v) + total f m
  total-set_new f k v m e = rw (set_new k v m e) (total-insert f k v m)

  pub total-set_found :
      (f : K × V → ℕ) (k : K) (v : V) (m : Map K V) {w : V}
      → find k m ≡ some w
      → total f (set k v m) + f (k, w) ≡ total f m + f (k, v)
  total-set_found f k v m e = rw (set_found k v m e) (total-replace f k v m e)

  pub length-set :
      (k : K) (v : V) (m : Map K V)
      → length (set k v m) ≡ (if is_some (find k m) then length m else suc (length m))
  length-set k v m = elim (Option-cases (find k m)) [
    | inl e ↦ rw (set_new k v m e) (rw e (length-insert k v m))
    | inr (w, e) ↦ rw (set_found k v m e) (rw e (length-replace k v m))
  ]
