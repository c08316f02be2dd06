-- ===== src/FsUtils/Blocks.antt =====
-- A string of blocks, each with two equal bytes behind it, as `splitString` takes it apart: the
-- search goes on one byte after an occurrence, so the second of the two bytes stays with the next
-- block.
use distributed_sns.Base.{
  ℕ, zero, suc, ◌<◌, ◌≤◌, ◌≡◌, refl, ◌≢◌, sym, ◌∙◌, ap, ◌⊎◌, inl, inr, false, none, some, List, [],
  ◌∷◌, ◌++◌, arith, Str, nat_eq, str_eq, ==_refl, ==_ne, length, take, drop, All, length-append,
}
use distributed_sns.FsUtils.{starts_with, map_suc, find, push_token, split_loop, split_string}
use distributed_sns.FsUtils.Paths.{Lacks}

take-append : {A : Type 0} (xs ys : List A) → take (length xs) (xs ++ ys) ≡ xs
take-append [] ys = refl
take-append (x ∷ xs) ys = ap (λ r. x ∷ r) (take-append xs ys)

drop-append :
    {A : Type 0} (xs : List A) (y : A) (ys : List A) → drop (suc (length xs)) (xs ++ (y ∷ ys)) ≡ ys
drop-append [] y ys = refl
drop-append (x ∷ xs) y ys = drop-append xs y ys

module _ (c : ℕ) where
  -- The byte and the one behind it are not both `c`, and the last is not `c`.
  IsApart : ℕ → Str → Type 0
  IsApart x [] = x ≢ c
  IsApart x (y ∷ s) = (x ≢ c) ⊎ (y ≢ c)

  unfoldable pub IsTight : Str → Type 0
  unfolding IsApart
  IsTight [] = Unit
  IsTight (x ∷ s) = IsApart x s × IsTight s

  apart : (x : ℕ) (s : Str) → x ≢ c → IsApart x s
  unfolding IsApart
  apart x [] n = n
  apart x (y ∷ s) n = inl n

  pub line-IsTight : (t : Str) → Lacks c t → IsTight t
  unfolding IsTight
  line-IsTight [] h = tt
  line-IsTight (x ∷ t) h = (apart x t h.0, line-IsTight t h.1)

  pub lines-IsTight :
      (t : Str) (x : ℕ) (s : Str) → Lacks c t → x ≢ c → IsTight (x ∷ s) → IsTight (t ++ (c ∷ x ∷ s))
  unfolding IsTight
  lines-IsTight [] x s h n k = (inr n, k)
  lines-IsTight (y ∷ t) x s h n k = (apart y _ h.0, lines-IsTight t x s h.1 n k)

  starts_apart :
      (x : ℕ) (b rest : Str)
      → IsApart x b
      → starts_with (c ∷ c ∷ []) (x ∷ (b ++ (c ∷ c ∷ rest))) ≡ false
  unfolding starts_with IsApart
  starts_apart x [] rest h = rw (==_ne c x (λ e. h (sym e))) refl
  starts_apart x (y ∷ b) rest (inl n) = rw (==_ne c x (λ e. n (sym e))) refl
  starts_apart x (y ∷ b) rest (inr n) = ground (arith, ==_ne c y (λ e. n (sym e)))

  find-block :
      (b rest : Str) → IsTight b → find (b ++ (c ∷ c ∷ rest)) (c ∷ c ∷ []) ≡ some (length b)
  unfolding find IsTight map_suc starts_with
  find-block [] rest h = ground (arith, ==_refl c)
  find-block (x ∷ b) rest h = rw (starts_apart x b rest h.0) (rw (find-block b rest h.1) refl)

  -- The blocks, each with the two bytes behind it.
  unfoldable pub blocks : List Str → Str
  blocks [] = []
  blocks (b ∷ bs) = b ++ (c ∷ c ∷ blocks bs)

  abbrev pub IsBlock : Str → Type 0
  IsBlock b = (x : ℕ) × (s : Str) × (b ≡ x ∷ s) × (x ≢ c) × IsTight b

  -- What is behind the first of the two bytes.
  unfoldable pub later_tokens : List Str → List Str
  later_tokens [] = (c ∷ []) ∷ []
  later_tokens (b ∷ bs) = (c ∷ b) ∷ later_tokens bs

  unfoldable pub tokens_of : List Str → List Str
  unfolding later_tokens
  tokens_of [] = []
  tokens_of (b ∷ bs) = b ∷ later_tokens bs

  push_some : (x : ℕ) (t : Str) (ts : List Str) → push_token (x ∷ t) ts ≡ (x ∷ t) ∷ ts
  unfolding push_token
  push_some x t ts = rw (==_ne {A = Str} (x ∷ t) [] (λ e. cc)) refl

  -- One round of the loop, at a block.
  split_round :
      (f x : ℕ) (s rest : Str)
      → IsTight (x ∷ s)
      → split_loop (suc f) ((x ∷ s) ++ (c ∷ c ∷ rest)) (c ∷ c ∷ [])
        ≡ (x ∷ s) ∷ split_loop f (c ∷ rest) (c ∷ c ∷ [])
  unfolding split_loop
  split_round f x s rest h =
      rw (find-block (x ∷ s) rest h, split_loop)
        (rw (take-append (x ∷ s) (c ∷ c ∷ rest), drop-append (x ∷ s) c (c ∷ rest))
          (push_some x s _))

  find_last : find (c ∷ []) (c ∷ c ∷ []) ≡ none
  unfolding find starts_with map_suc
  find_last = ground (arith, ==_refl c)

  behind-IsTight : (b : Str) → IsBlock b → IsTight (c ∷ b)
  unfolding IsTight IsApart
  behind-IsTight [] (x, s, e, n, k) = absurd cc
  behind-IsTight (y ∷ b) (x, s, e, n, k) = let same : x ≡ y = cc in (inr (λ z. n (same ∙ z)), k)

  split_later :
      (f : ℕ) (bs : List Str)
      → All IsBlock bs
      → length bs < f
      → split_loop f (c ∷ blocks bs) (c ∷ c ∷ []) ≡ later_tokens bs
  unfolding blocks later_tokens split_loop
  split_later zero bs h l = absurd (omega (arith, l))
  split_later (suc f) [] h l = rw (find_last, split_loop) (push_some c [] [])
  split_later (suc f) (b ∷ bs) ((x, s, e, n, k), h) l =
      split_round f c b (blocks bs) (behind-IsTight b (x, s, e, n, k))
      ∙ ap (λ ts. (c ∷ b) ∷ ts) (split_later f bs h (omega (arith, l)))

  block_count : (bs : List Str) → length bs ≤ length (blocks bs)
  unfolding blocks
  block_count [] = omega arith
  block_count (b ∷ bs) = omega (arith, length-append b (c ∷ c ∷ blocks bs), block_count bs)

  -- The first block is a token, and each later one has one of the two bytes in front of it. Behind
  -- the last block that byte is a token of its own.
  pub split_string-blocks :
      (bs : List Str) → All IsBlock bs → split_string (blocks bs) (c ∷ c ∷ []) ≡ tokens_of bs
  unfolding split_string tokens_of blocks split_loop find starts_with push_token
  split_string-blocks [] h = rw (==_refl {A = Str} []) refl
  split_string-blocks ([] ∷ bs) ((x, s, e, n, k), h) = absurd cc
  split_string-blocks ((y ∷ t) ∷ bs) ((x, s, e, n, k), h) =
      split_round (length ((y ∷ t) ++ (c ∷ c ∷ blocks bs))) y t (blocks bs) k
      ∙ ap (λ ts. (y ∷ t) ∷ ts)
          (split_later (length ((y ∷ t) ++ (c ∷ c ∷ blocks bs))) bs h
            (omega (arith, length-append (y ∷ t) (c ∷ c ∷ blocks bs), block_count bs)))
