-- ===== src/Base/Lists.antt =====
-- Lists measured by native numbers, and predicates over lists by recursion.
use Prim.Native.Nat.{ℕ, zero, suc, ◌+◌, ◌<◌}
use mathlib.Core.Path.{◌≡◌, refl, ap}
use mathlib.Core.Option.{Option, none, some}
use mathlib.Core.List.{List, [], ◌∷◌, ◌++◌}
use mathlib.Core.Logic.{◌≢◌}
use native.Mathlib.Omega.{arith}

module _ {ℓ} {A : Type ℓ} where
  abbrev pub length : List A → ℕ
  length [] = 0
  length (x ∷ xs) = suc (length xs)

  abbrev pub get_elem? : List A → ℕ → Option A
  get_elem? [] i = none
  get_elem? (x ∷ xs) zero = some x
  get_elem? (x ∷ xs) (suc i) = get_elem? xs i

  -- A write out of bounds changes nothing.
  abbrev pub set_elem : List A → ℕ → A → List A
  set_elem [] i v = []
  set_elem (x ∷ xs) zero v = v ∷ xs
  set_elem (x ∷ xs) (suc i) v = x ∷ set_elem xs i v

  abbrev pub replicate : ℕ → A → List A
  replicate zero a = []
  replicate (suc n) a = a ∷ replicate n a

  abbrev pub take : ℕ → List A → List A
  take zero xs = []
  take (suc n) [] = []
  take (suc n) (x ∷ xs) = x ∷ take n xs

  abbrev pub drop : ℕ → List A → List A
  drop zero xs = xs
  drop (suc n) [] = []
  drop (suc n) (x ∷ xs) = drop n xs

  pub length-append : (xs ys : List A) → length (xs ++ ys) ≡ length xs + length ys
  length-append [] ys = omega arith
  length-append (x ∷ xs) ys = omega (arith, length-append xs ys)

module _ {ℓ} {A : Type ℓ} where
  pub length-set_elem : (xs : List A) (i : ℕ) (v : A) → length (set_elem xs i v) ≡ length xs
  length-set_elem [] i v = refl
  length-set_elem (x ∷ xs) zero v = refl
  length-set_elem (x ∷ xs) (suc i) v = ap suc (length-set_elem xs i v)

  -- Of two writes to one place the second stays.
  pub set_elem-set_elem :
      (xs : List A) (i : ℕ) (x y : A) → set_elem (set_elem xs i x) i y ≡ set_elem xs i y
  set_elem-set_elem [] i x y = refl
  set_elem-set_elem (z ∷ xs) zero x y = refl
  set_elem-set_elem (z ∷ xs) (suc i) x y = ap (λ r. z ∷ r) (set_elem-set_elem xs i x y)

  pub get_elem?-set_elem_self :
      (xs : List A) (i : ℕ) (v : A) {w : A}
      → get_elem? xs i ≡ some w
      → get_elem? (set_elem xs i v) i ≡ some v
  get_elem?-set_elem_self [] i v h = cc
  get_elem?-set_elem_self (x ∷ xs) zero v h = refl
  get_elem?-set_elem_self (x ∷ xs) (suc i) v h = get_elem?-set_elem_self xs i v h

  pub get_elem?-set_elem_ne :
      (xs : List A) (i j : ℕ) (v : A) → i ≢ j → get_elem? (set_elem xs i v) j ≡ get_elem? xs j
  get_elem?-set_elem_ne [] i j v h = refl
  get_elem?-set_elem_ne (x ∷ xs) zero zero v h = absurd (h refl)
  get_elem?-set_elem_ne (x ∷ xs) zero (suc j) v h = refl
  get_elem?-set_elem_ne (x ∷ xs) (suc i) zero v h = refl
  get_elem?-set_elem_ne (x ∷ xs) (suc i) (suc j) v h =
      get_elem?-set_elem_ne xs i j v (λ e. h (ap suc e))

  pub get_elem?-lt : (xs : List A) (i : ℕ) → i < length xs → (x : A) × (get_elem? xs i ≡ some x)
  get_elem?-lt [] i h = elim h [ ]
  get_elem?-lt (x ∷ xs) zero h = (x, refl)
  get_elem?-lt (x ∷ xs) (suc i) h = get_elem?-lt xs i (omega arith)

  pub get_elem?-replicate :
      (n : ℕ) (a : A) (i : ℕ) {x : A} → get_elem? (replicate n a) i ≡ some x → x ≡ a
  get_elem?-replicate zero a i h = cc
  get_elem?-replicate (suc n) a zero h = ground arith
  get_elem?-replicate (suc n) a (suc i) h = get_elem?-replicate n a i h

module _ {ℓ κ} {A : Type ℓ} (P : A → Type κ) where
  abbrev pub All : List A → Type κ
  All [] = Unit
  All (x ∷ xs) = P x × All xs

  pub All-append : (xs ys : List A) → All xs → All ys → All (xs ++ ys)
  All-append [] ys _ hy = hy
  All-append (x ∷ xs) ys (px, hx) hy = (px, All-append xs ys hx hy)
