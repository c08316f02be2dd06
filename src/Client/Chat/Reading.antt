-- ===== src/Client/Chat/Reading.antt =====
-- What one read of the chat takes from standard input.
use distributed_sns.Base.{
  ℕ, zero, suc, ◌≤◌, ◌<◌, ◌≡◌, refl, ap, ◌≢◌, ◌⊎◌, inl, inr, [], ◌∷◌, ◌++◌, arith, Str, ◌==◌,
  nat_eq, ==_refl, ==_ne, eq_of_==, ne_of_==, Bool-cases, length,
}
use distributed_sns.FsUtils.Paths.{Lacks}
use distributed_sns.Client.Text.{fgets, before_byte}
use distributed_sns.Client.Chat.{message_in}

-- A buffer ends with the newline of its line, or has none: it is full, or the input ends.
abbrev pub Ends : ℕ → Str → Str → Type 0
Ends n buf left =
    ((t : Str) × (buf ≡ t ++ (10 ∷ [])) × Lacks 10 t)
    ⊎ (Lacks 10 buf × ((length buf ≡ n) ⊎ (left ≡ [])))

Ends-cons : (n c : ℕ) (buf left : Str) → c ≢ 10 → Ends n buf left → Ends (suc n) (c ∷ buf) left
Ends-cons n c buf left h (inl (t, e, l)) = inl (c ∷ t, ap (λ r. c ∷ r) e, (h, l))
Ends-cons n c buf left h (inr (l, inl e)) = inr ((h, l), inl (ap suc e))
Ends-cons n c buf left h (inr (l, inr e)) = inr ((h, l), inr e)

pub fgets-Ends :
    (n : ℕ) (s : Str)
    → (s ≡ (fgets n s).0 ++ (fgets n s).1)
      × (length (fgets n s).0 ≤ n)
      × Ends n (fgets n s).0 (fgets n s).1
unfolding fgets
fgets-Ends zero s = (refl, omega arith, inr (tt, inl refl))
fgets-Ends (suc n) [] = (refl, omega arith, inr (tt, inr refl))
fgets-Ends (suc n) (c ∷ s) = elim (Bool-cases (c == 10)) [
  | inl e ↦ rw (e, fgets) (refl, omega arith, inl ([], ap (λ d. d ∷ []) (eq_of_== c 10 e), tt))
  | inr e ↦
      let (splits, short, ends) = fgets-Ends n s in
      rw (e, fgets) (ap (λ r. c ∷ r) splits, omega arith, Ends-cons n c _ _ (ne_of_== c 10 e) ends)
]

-- A line that fits is read whole.
pub fgets_line :
    (n : ℕ) (p rest : Str)
    → length p < n
    → Lacks 10 p
    → fgets n (p ++ (10 ∷ rest)) ≡ (p ++ (10 ∷ []), rest)
unfolding fgets nat_eq
fgets_line zero p rest h l = elim h [ ]
fgets_line (suc n) [] rest h l = refl
fgets_line (suc n) (c ∷ p) rest h l =
    rw (==_ne c 10 l.0, fgets) (rw (fgets_line n p rest (omega arith) l.1) refl)

module _ (c : ℕ) where
  before_byte_whole : (s : Str) → Lacks c s → before_byte c s ≡ s
  unfolding before_byte
  before_byte_whole [] h = refl
  before_byte_whole (x ∷ s) h =
      rw (==_ne x c h.0, before_byte) (ap (λ r. x ∷ r) (before_byte_whole s h.1))

  before_byte_first : (t s : Str) → Lacks c t → before_byte c (t ++ (c ∷ s)) ≡ t
  unfolding before_byte
  before_byte_first [] s h = rw (==_refl c, before_byte) refl
  before_byte_first (x ∷ t) s h =
      rw (==_ne x c h.0, before_byte) (ap (λ r. x ∷ r) (before_byte_first t s h.1))

-- The message in a buffer that ends with a newline, and in one without.
pub message_in_line : (t : Str) → Lacks 10 t → Lacks 0 t → message_in (t ++ (10 ∷ [])) ≡ t
unfolding message_in
message_in_line t l z = rw (before_byte_first 10 t [] l) (before_byte_whole 0 t z)

pub message_in_piece : (t : Str) → Lacks 10 t → Lacks 0 t → message_in t ≡ t
unfolding message_in
message_in_piece t l z = rw (before_byte_whole 10 t l) (before_byte_whole 0 t z)

pub Lacks-split : (c : ℕ) (s t : Str) → Lacks c (s ++ t) → Lacks c s × Lacks c t
Lacks-split c [] t h = (tt, h)
Lacks-split c (x ∷ s) t h = let (a, b) = Lacks-split c s t h.1 in ((h.0, a), b)
