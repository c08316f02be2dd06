-- ===== src/Base/Decimal.antt =====
-- `std::to_string` of an `int`.
use Prim.Native.Nat.{ℕ, zero, suc, ◌+◌, ◌-◌, ◌*◌, ◌/◌, ◌%◌, ◌≤◌, ◌<◌}
use mathlib.Core.Path.{◌≡◌, refl, sym, ap, ◌∙◌}
use mathlib.Core.Logic.{◌≢◌, inl, inr}
use mathlib.Core.List.{[], ◌∷◌, ◌++◌}
use native.Mathlib.Omega.{arith}
use distributed_sns.Base.Equality.{Str, ltb, if◌then◌else◌, Bool-cases}
use distributed_sns.Base.Int.{ℤ, pos, negsuc}
use distributed_sns.Base.Lists.{All, All-append}

-- The digits of `n`, most significant first, on enough fuel.
digits : ℕ → ℕ → Str
digits zero n = []
digits (suc f) n =
    let more = digits f (n / 10) ++ ((b'0' + n % 10) ∷ []) in
    if ltb n 10 then (b'0' + n) ∷ [] else more

unfoldable pub to_string : ℤ → Str
unfolding digits
to_string (pos n) = digits (suc n) n
to_string (negsuc n) = b'-' ∷ digits (suc (suc n)) (suc n)

-- Reads the digits back.
value : ℕ → Str → ℕ
value acc [] = acc
value acc (c ∷ s) = value (acc * 10 + (c - b'0')) s

value-append :
    (acc : ℕ) (s : Str) (c : ℕ) → value acc (s ++ (c ∷ [])) ≡ value acc s * 10 + (c - b'0')
unfolding value
value-append acc [] c = refl
value-append acc (d ∷ s) c = value-append (acc * 10 + (d - b'0')) s c

value-digits : (f n : ℕ) → n < f → value 0 (digits f n) ≡ n
unfolding digits value
value-digits zero n h = elim h [ ]
value-digits (suc f) n h = elim (Bool-cases (ltb n 10)) [
  | inl small ↦ rw small (omega arith)
  | inr big ↦
      rw (big, value-append 0 (digits f (n / 10)), value-digits f (n / 10) (ground arith))
        (omega arith)
]

abbrev IsDigit : ℕ → Type 0
IsDigit c = (b'0' ≤ c) × (c ≤ b'9')

digits-All : (f n : ℕ) → All IsDigit (digits f n)
unfolding digits
digits-All zero n = tt
digits-All (suc f) n = elim (Bool-cases (ltb n 10)) [
  | inl small ↦ rw small (ground arith, tt)
  | inr big ↦
      rw big (All-append IsDigit (digits f (n / 10)) _ (digits-All f (n / 10)) (omega arith, tt))
]

digits-ne-minus : (f n : ℕ) (s : Str) → digits f n ≢ b'-' ∷ s
digits-ne-minus f n s e = absurd (omega (arith, (rw e at (digits-All f n)).0.0))

-- Different numbers have different decimals.
pub to_string_inj : (a b : ℤ) → to_string a ≡ to_string b → a ≡ b
unfolding to_string
to_string_inj (pos m) (pos n) e = ap pos (
    sym (value-digits (suc m) m (omega arith))
    ∙ ap (value 0) e
    ∙ value-digits (suc n) n (omega arith))
to_string_inj (pos m) (negsuc n) e = absurd (digits-ne-minus (suc m) m _ e)
to_string_inj (negsuc m) (pos n) e = absurd (digits-ne-minus (suc n) n _ (sym e))
to_string_inj (negsuc m) (negsuc n) e =
    let tails : digits (suc (suc m)) (suc m) ≡ digits (suc (suc n)) (suc n) = cc in
    let same : suc m ≡ suc n =
      sym (value-digits (suc (suc m)) (suc m) (omega arith))
      ∙ ap (value 0) tails
      ∙ value-digits (suc (suc n)) (suc n) (omega arith) in
    ap negsuc (omega arith)

-- The bytes that a decimal may hold.
abbrev pub IsDecimal : ℕ → Type 0
IsDecimal c = (b'-' ≤ c) × (c ≤ b'9') × (c ≢ b'/')

IsDecimal-of_digits : (s : Str) → All IsDigit s → All IsDecimal s
IsDecimal-of_digits [] h = tt
IsDecimal-of_digits (c ∷ s) h = ((omega arith, omega arith, omega arith), IsDecimal-of_digits s h.1)

pub to_string-All : (a : ℤ) → All IsDecimal (to_string a)
unfolding to_string
to_string-All (pos n) = IsDecimal-of_digits _ (digits-All (suc n) n)
to_string-All (negsuc n) = (
  (omega arith, omega arith, omega arith),
  IsDecimal-of_digits _ (digits-All (suc (suc n)) (suc n)),
)
