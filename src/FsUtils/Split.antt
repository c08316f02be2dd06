-- ===== src/FsUtils/Split.antt =====
-- What `splitString` computes for a delimiter of one byte.
use distributed_sns.Base.{
  ℕ, zero, suc, ◌<◌, ◌≡◌, refl, ap, inl, inr, none, some, List, [], ◌∷◌, arith, Str, ◌==◌, nat_eq,
  str_eq, ==_refl, ==_ne, ◌∙◌, if◌then◌else◌, length, take, drop, Option-cases,
}
use distributed_sns.FsUtils.{find, push_token, split_loop, split_string}

-- The fields between the delimiters, the empty ones too.
unfoldable pub cons_head : ℕ → List Str → List Str
cons_head x [] = (x ∷ []) ∷ []
cons_head x (f ∷ fs) = (x ∷ f) ∷ fs

unfoldable pub fields : ℕ → Str → List Str
unfolding cons_head
fields c [] = [] ∷ []
fields c (x ∷ s) = let rest = fields c s in if c == x then [] ∷ rest else cons_head x rest

-- The list without the empty strings.
unfoldable pub nonempty : List Str → List Str
nonempty [] = []
nonempty ([] ∷ ts) = nonempty ts
nonempty ((x ∷ t) ∷ ts) = (x ∷ t) ∷ nonempty ts

push_token-nonempty : (t : Str) (ts : List Str) → push_token t (nonempty ts) ≡ nonempty (t ∷ ts)
unfolding push_token nonempty
push_token-nonempty [] ts = rw (==_refl {A = Str} []) refl
push_token-nonempty (x ∷ t) ts = rw (==_ne {A = Str} (x ∷ t) [] (λ e. cc)) refl

find-none : (c : ℕ) (s : Str) → find s (c ∷ []) ≡ none → fields c s ≡ s ∷ []
unfolding find fields
find-none c [] h = refl
find-none c (x ∷ s) h = ground (arith, find-none c s)

find-some :
    (c : ℕ) (s : Str) (k : ℕ)
    → find s (c ∷ []) ≡ some k
    → (fields c s ≡ take k s ∷ fields c (drop (suc k) s)) × (length (drop (suc k) s) < length s)
unfolding find fields
find-some c [] k h = ground arith
find-some c (x ∷ s) zero h = ground (arith, Option-cases (find s (c ∷ [])))
find-some c (x ∷ s) (suc k) h = ground (arith, Option-cases (find s (c ∷ [])), find-some c s k)

split_loop_lem :
    (f c : ℕ) (s : Str) → length s < f → split_loop f s (c ∷ []) ≡ nonempty (fields c s)
unfolding split_loop nonempty
split_loop_lem zero c s h = elim h [ ]
split_loop_lem (suc f) c s h = elim (Option-cases (find s (c ∷ []))) [
  | inl e ↦ rw (e, split_loop) (rw (find-none c s e) (push_token-nonempty s []))
  | inr (k, e) ↦
      let (parts, shorter) = find-some c s k e in
      rw (e, split_loop)
        (rw parts (
          ap (push_token (take k s)) (split_loop_lem f c (drop (suc k) s) (omega arith))
          ∙ push_token-nonempty (take k s) (fields c (drop (suc k) s))))
]

-- For a delimiter of one byte, the loop that searches for the next delimiter gives the fields
-- between the delimiters, without the empty ones.
pub split_string-fields : (c : ℕ) (s : Str) → split_string s (c ∷ []) ≡ nonempty (fields c s)
unfolding split_string
split_string-fields c s = split_loop_lem (suc (length s)) c s (omega arith)
