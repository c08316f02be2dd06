-- ===== src/Coordinator/Masters.antt =====
-- The search of `getActiveMaster` round the clusters.
use native.Mathlib.Nat.{mod-lt, mod-eq_of_lt, mod-add-mod, add-mod_right}
use distributed_sns.Base.{
  ℕ, zero, suc, ◌+◌, ◌-◌, ◌%◌, ◌≤◌, ◌<◌, ◌≡◌, refl, ◌∙◌, ◌≢◌, sym, ap, Option, none, some, List, [],
  ◌∷◌, arith, nat_eq, ==_ne, get_elem?, get_elem?-lt, length, Option-cases, inl, inr, ◌⊎◌,
}
use distributed_sns.Base.Int.{ℤ, pos, int_eq}
use distributed_sns.Base.Result.{ok}
use distributed_sns.Coordinator.State.{ZNode, Cluster, ServerRef}
use distributed_sns.Coordinator.Servers.{first_master, active_master_loop, get_active_master}

-- The first master of the cluster at an index.
unfoldable pub master_in : List Cluster → ℕ → Option (ℤ × ZNode)
master_in cs i = elim (get_elem? cs i) [ none ↦ none | some m ↦ first_master m ]

-- A search through so many clusters, from index `i` on, that ends with this result.
abbrev pub Searched : List Cluster → ℕ → ℕ → Option (ServerRef × ZNode) → Type 0
Searched cs i r none = (e : ℕ) → e < r → master_in cs ((i + e) % length cs) ≡ none
Searched cs i r (some ((j, id), z)) =
    (d : ℕ) × (d < r)
    × ((i + d) % length cs ≡ j)
    × (master_in cs j ≡ some (id, z))
    × ((e : ℕ) → e < d → master_in cs ((i + e) % length cs) ≡ none)

pub here_none :
    (cs : List Cluster) (i : ℕ) (m : Cluster)
    → get_elem? cs i ≡ some m
    → master_in cs i ≡ first_master m
unfolding master_in
here_none cs i m h = rw (h, master_in) refl

loop_miss :
    (r : ℕ) (cs : List Cluster) (i : ℕ) (m : Cluster)
    → get_elem? cs i ≡ some m
    → first_master m ≡ none
    → active_master_loop (suc r) cs (pos i) ≡ active_master_loop r cs (pos ((i + 1) % length cs))
unfolding active_master_loop
loop_miss r cs i m h e = rw (h, active_master_loop) (rw (e, active_master_loop) refl)

loop_hit :
    (r : ℕ) (cs : List Cluster) (i : ℕ) (m : Cluster) (id : ℤ) (z : ZNode)
    → get_elem? cs i ≡ some m
    → first_master m ≡ some (id, z)
    → active_master_loop (suc r) cs (pos i) ≡ ok (some ((i, id), z))
unfolding active_master_loop
loop_hit r cs i m id z h e = rw (h, active_master_loop) (rw (e, active_master_loop) refl)

loop_end : (cs : List Cluster) (i : ℕ) → active_master_loop zero cs (pos i) ≡ ok none
unfolding active_master_loop
loop_end cs i = refl

next_index : (i e n : ℕ) → ((i + 1) % n + e) % n ≡ (i + suc e) % n
next_index i e n = mod-add-mod (i + 1) n e ∙ ap (λ x. x % n) (omega arith)

own_index : (i n : ℕ) → i < n → (i + 0) % n ≡ i
own_index i n h = ap (λ x. x % n) (omega arith) ∙ mod-eq_of_lt h

module _ (cs : List Cluster) (i : ℕ) (inside : i < length cs) where
  none_before :
      (d : ℕ)
      → master_in cs i ≡ none
      → ((e : ℕ) → e < d → master_in cs (((i + 1) % length cs + e) % length cs) ≡ none)
      → (e : ℕ) → e < suc d
      → master_in cs ((i + e) % length cs) ≡ none
  none_before d h rest zero l = ap (master_in cs) (own_index i (length cs) inside) ∙ h
  none_before d h rest (suc e) l =
      ap (master_in cs) (sym (next_index i e (length cs))) ∙ rest e (omega arith)

  Searched-next :
      (r : ℕ) (found : Option (ServerRef × ZNode))
      → master_in cs i ≡ none
      → Searched cs ((i + 1) % length cs) r found
      → Searched cs i (suc r) found
  Searched-next r none h rest = none_before r h rest
  Searched-next r (some ((j, id), z)) h (d, l, at, there, before) =
      (suc d, omega arith, sym (next_index i d (length cs)) ∙ at, there, none_before d h before)

loop-Searched :
    (r : ℕ) (cs : List Cluster) (i : ℕ)
    → i < length cs
    → (found : Option (ServerRef × ZNode)) × (active_master_loop r cs (pos i) ≡ ok found)
      × Searched cs i r found
loop-Searched zero cs i l = (none, loop_end cs i, λ e few. absurd (omega arith))
loop-Searched (suc r) cs i l =
    let (m, there) = get_elem?-lt cs i l in
    elim (Option-cases (first_master m)) [
      | inr ((id, z), hit) ↦ (
        some ((i, id), z),
        loop_hit r cs i m id z there hit,
        (
          0,
          omega arith,
          own_index i (length cs) l,
          here_none cs i m there ∙ hit,
          λ e few. absurd (omega arith),
        ),
      )
      | inl miss ↦
          let (found, run, rest) =
            loop-Searched r cs ((i + 1) % length cs) (mod-lt (i + 1) (omega arith)) in
          (
            found,
            loop_miss r cs i m there miss ∙ run,
            Searched-next cs i l r found (here_none cs i m there ∙ miss) rest,
          )
    ]

less_or_not : (i j : ℕ) → (i ≤ j) ⊎ (j < i)
less_or_not zero j = inl (omega arith)
less_or_not (suc i) zero = inr (omega arith)
less_or_not (suc i) (suc j) = elim (less_or_not i j) [
  | inl h ↦ inl (omega arith)
  | inr h ↦ inr (omega arith)
]

-- Every index is met on a round.
round : (i j n : ℕ) → i < n → j < n → (e : ℕ) × (e < n) × ((i + e) % n ≡ j)
round i j n h k = elim (less_or_not i j) [
  | inl up ↦ (j - i, omega arith, ap (λ x. x % n) (omega arith) ∙ mod-eq_of_lt k)
  | inr down ↦
      ((j + n) - i, omega arith, ap (λ x. x % n) (omega arith) ∙ add-mod_right j n ∙ mod-eq_of_lt k)
]

-- Where the search finds no master, there is none; what it finds is the first one on the round.
abbrev pub IsActiveMaster : List Cluster → ℕ → Option (ServerRef × ZNode) → Type 0
IsActiveMaster cs k none = (j : ℕ) (m : Cluster) → get_elem? cs j ≡ some m → first_master m ≡ none
IsActiveMaster cs k (some x) = Searched cs (k % length cs) (length cs) (some x)

index_lt : (cs : List Cluster) (j : ℕ) (m : Cluster) → get_elem? cs j ≡ some m → j < length cs
index_lt [] j m h = absurd cc
index_lt (x ∷ cs) zero m h = omega arith
index_lt (x ∷ cs) (suc j) m h = let l = index_lt cs j m h in omega arith

round-IsActiveMaster :
    (cs : List Cluster) (k : ℕ) (found : Option (ServerRef × ZNode))
    → length cs ≢ 0
    → Searched cs (k % length cs) (length cs) found
    → IsActiveMaster cs k found
round-IsActiveMaster cs k (some x) some_cluster h = h
round-IsActiveMaster cs k none some_cluster h = λ j m there.
    let (e, l, at) =
      round (k % length cs) j (length cs) (mod-lt k (omega arith)) (index_lt cs j m there) in
    sym (here_none cs j m there) ∙ ap (master_in cs) (sym at) ∙ h e l

active_master_run :
    (cs : List Cluster) (k : ℕ)
    → length cs ≢ 0
    → get_active_master cs (pos k) ≡ active_master_loop (length cs) cs (pos (k % length cs))
unfolding get_active_master
active_master_run cs k h = rw (==_ne (length cs) 0 h) refl

-- With at least one cluster and an id that is not negative, the search for an active master comes
-- to its end: it finds the first master of the first cluster that has one, going round from the
-- cluster at the id modulo the number of clusters, and finds none only where no cluster has a
-- master.
pub get_active_master-IsActiveMaster :
    (cs : List Cluster) (k : ℕ)
    → length cs ≢ 0
    → (found : Option (ServerRef × ZNode)) × (get_active_master cs (pos k) ≡ ok found)
      × IsActiveMaster cs k found
get_active_master-IsActiveMaster cs k h =
    let (found, run, searched) =
      loop-Searched (length cs) cs (k % length cs) (mod-lt k (omega arith)) in
    (found, active_master_run cs k h ∙ run, round-IsActiveMaster cs k found h searched)
