-- ===== src/Server/Links/Counts.antt =====
-- How often an address stands in a list of addresses.
use distributed_sns.Base.{
  ℕ, zero, suc, ◌+◌, ◌≡◌, some, List, [], ◌∷◌, ◌++◌, arith, ◌==◌, nat_eq, if◌then◌else◌, get_elem?,
}
use distributed_sns.Server.Clients.{erase_at}

unfoldable pub count : ℕ → List ℕ → ℕ
count y [] = 0
count y (x ∷ xs) = (if y == x then 1 else 0) + count y xs

pub count_last :
    (y z : ℕ) (xs : List ℕ) → count y (xs ++ (z ∷ [])) ≡ count y xs + (if y == z then 1 else 0)
unfolding count
count_last y z [] = ground arith
count_last y z (x ∷ xs) = omega (arith, count_last y z xs)

-- Taking an address out of the list.
pub count-erase_at :
    (y z i : ℕ) (xs : List ℕ)
    → get_elem? xs i ≡ some z
    → count y (erase_at i xs) + (if y == z then 1 else 0) ≡ count y xs
unfolding count
count-erase_at y z i [] h = cc
count-erase_at y z zero (x ∷ xs) h = ground arith
count-erase_at y z (suc i) (x ∷ xs) h = omega (arith, count-erase_at y z i xs h)
