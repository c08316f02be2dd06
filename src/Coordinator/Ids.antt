-- ===== src/Coordinator/Ids.antt =====
-- The ids that `GetUniqueClientID` gives.
use distributed_sns.Base.{
  ℕ, suc, ◌<◌, ◌≡◌, refl, ◌∙◌, ◌≢◌, sym, ap, true, false, Option, none, some, arith, ◌==◌, ==_refl,
  eq_of_==, ne_of_==, ltb, is_some, length, Bool-cases, Option-cases, inl, inr, if◌then◌else◌,
}
use mathlib.Core.Path.{subst}
use distributed_sns.Base.Int.{ℤ, pos, int_eq, int_order}
use distributed_sns.Base.Map.{Map, find, set, find-set, length-set}
use distributed_sns.Base.Result.{Result, ok, >>=-eq-ok}
use distributed_sns.Coordinator.State.{ZNode, ServerRef, Coordinator}
use distributed_sns.Coordinator.Servers.{get_active_master}
use distributed_sns.Coordinator.Clients.{
  get_unique_client_id, get_server, Served, assign_new, assignment, server_of, still_master,
}
use distributed_sns.Coordinator.Assign.{touched, get_server_kept, get_server_new}

abbrev Assignments : Type 0
Assignments = Map ℤ (Option ServerRef)

-- The ids with an assignment are those below their number.
abbrev pub AreIssued : Assignments → Type 0
AreIssued a = (k : ℕ) → is_some (find (pos k) a) ≡ ltb k (length a)

found_after :
    (j k : ℤ) (x : Option ServerRef) (a : Assignments)
    → is_some (find j (set k x a)) ≡ (if j == k then true else is_some (find j a))
found_after j k x a =
    ap is_some (find-set j k x a)
    ∙ elim (Bool-cases (j == k)) [ inl hit ↦ rw hit refl | inr miss ↦ rw miss refl ]

-- The tests on numbers, over variables.
pos_inj : (k n : ℕ) → pos k ≡ pos n → k ≡ n
pos_inj k n h = cc

same_below : (k n : ℕ) → (pos k == pos n) ≡ true → k < suc n
same_below k n e = let same = pos_inj k n (eq_of_== (pos k) (pos n) e) in omega arith

below_too : (k n m : ℕ) → (pos k == pos n) ≡ true → n < m → k < m
below_too k n m e l = let same = pos_inj k n (eq_of_== (pos k) (pos n) e) in omega arith

later_test : (k n : ℕ) → (pos k == pos n) ≡ false → ltb k n ≡ ltb k (suc n)
later_test k n e = let other : k ≢ n = λ h. ne_of_== (pos k) (pos n) e (ap pos h) in ground arith

not_below : (n : ℕ) → ltb n n ≡ false
not_below n = ground arith

below : (k n : ℕ) → k < n → ltb k n ≡ true
below k n h = ground arith

length-next :
    (a : Assignments) (x : Option ServerRef)
    → AreIssued a
    → length (set (pos (length a)) x a) ≡ suc (length a)
length-next a x h =
    let new : is_some (find (pos (length a)) a) ≡ false = h (length a) ∙ not_below (length a) in
    length-set (pos (length a)) x a ∙ rw new refl

AreIssued-next :
    (a : Assignments) (x : Option ServerRef) → AreIssued a → AreIssued (set (pos (length a)) x a)
AreIssued-next a x h k =
    let longer = length-next a x h in
    found_after (pos k) (pos (length a)) x a ∙ elim (Bool-cases (pos k == pos (length a))) [
      | inl hit ↦ rw (hit, longer) (sym (below k (suc (length a)) (same_below k (length a) hit)))
      | inr miss ↦ rw (miss, longer) (h k ∙ later_test k (length a) miss)
    ]

AreIssued-again :
    (a : Assignments) (n : ℕ) (x : Option ServerRef)
    → n < length a
    → AreIssued a
    → AreIssued (set (pos n) x a)
AreIssued-again a n x l h k =
    let old : is_some (find (pos n) a) ≡ true = h n ∙ below n (length a) l in
    let same : length (set (pos n) x a) ≡ length a = length-set (pos n) x a ∙ rw old refl in
    found_after (pos k) (pos n) x a ∙ elim (Bool-cases (pos k == pos n)) [
      | inl hit ↦ rw (hit, same) (sym (below k (length a) (below_too k n (length a) hit l)))
      | inr miss ↦ rw (miss, same) (h k)
    ]

none_of : (o : Option (Option ServerRef)) → is_some o ≡ false → o ≡ none
none_of none h = refl
none_of (some x) h = cc

-- Where the client ids from 0 on that have an entry are exactly those below the number of
-- assignments, the id that `GetUniqueClientID` gives has no entry before the call and an empty
-- one after it, there is one assignment more, the next call gives another id, and the entries
-- after the call are again those of the ids below the number of assignments.
pub get_unique_client_id-AreIssued :
    (c : Coordinator)
    → AreIssued c.client_assignments
    → (find (get_unique_client_id c).1 c.client_assignments ≡ none)
      × (find (get_unique_client_id c).1 (get_unique_client_id c).0.client_assignments ≡ some none)
      × (length (get_unique_client_id c).0.client_assignments ≡ suc (length c.client_assignments))
      × ((get_unique_client_id (get_unique_client_id c).0).1 ≢ (get_unique_client_id c).1)
      × AreIssued (get_unique_client_id c).0.client_assignments
unfolding get_unique_client_id
get_unique_client_id-AreIssued c h =
    let n : ℕ = length c.client_assignments in
    let longer = length-next c.client_assignments none h in
    (
      none_of _ (h n ∙ not_below n),
      find-set (pos n) (pos n) none c.client_assignments ∙ rw (==_refl (pos n)) refl,
      longer,
      λ e. absurd (omega (arith, pos_inj _ n e, longer)),
      AreIssued-next c.client_assignments none h,
    )

assign_new-AreIssued :
    (c : Coordinator) (k : ℕ) (found : Option (ServerRef × ZNode))
    → k < length c.client_assignments
    → AreIssued c.client_assignments
    → AreIssued (assign_new c (pos k) found).0.client_assignments
unfolding assign_new
assign_new-AreIssued c k none l h = h
assign_new-AreIssued c k (some (r, z)) l h = AreIssued-again c.client_assignments k (some r) l h

length-touched :
    (a : Assignments) (k : ℕ) (x : Option ServerRef)
    → k < length a
    → AreIssued a
    → length (set (pos k) x a) ≡ length a
length-touched a k x l h =
    let old : is_some (find (pos k) a) ≡ true = h k ∙ below k (length a) l in
    length-set (pos k) x a ∙ rw old refl

served_assignments :
    (x r : Served)
    → ◌≡◌ {A = Result Served} (ok x) (ok r)
    → AreIssued x.0.client_assignments
    → AreIssued r.0.client_assignments
served_assignments x r e h =
    let same : x ≡ r = cc in subst (λ y. AreIssued y.0.client_assignments) same h

-- Where the client ids from 0 on that have an entry are exactly those below the number of
-- assignments, a `GetServer` for one of these ids that returns leaves it so.
pub get_server-AreIssued :
    (c : Coordinator) (k : ℕ) (r : Served)
    → k < length c.client_assignments
    → AreIssued c.client_assignments
    → get_server c (pos k) ≡ ok r
    → AreIssued r.0.client_assignments
get_server-AreIssued c k r l h e =
    let again = AreIssued-again c.client_assignments k (assignment c (pos k)) l h in
    elim (Option-cases (still_master (server_of c.clusters (assignment c (pos k))))) [
      | inr (z, kept) ↦ served_assignments _ r (sym (get_server_kept c (pos k) z kept) ∙ e) again
      | inl lost ↦
          let (found, _, f) =
            >>=-eq-ok (get_active_master c.clusters (pos k)) _
              (sym (get_server_new c (pos k) lost) ∙ e) in
          served_assignments _ r f (
            assign_new-AreIssued (touched c (pos k)) k found
              (subst (λ n. k < n)
                (sym (length-touched c.client_assignments k (assignment c (pos k)) l h)) l)
              again)
    ]

served_length :
    (x r : Served) (n : ℕ)
    → ◌≡◌ {A = Result Served} (ok x) (ok r)
    → length x.0.client_assignments ≡ n
    → length r.0.client_assignments ≡ n
served_length x r n e h =
    let same : x ≡ r = cc in ap (λ y. length y.0.client_assignments) (sym same) ∙ h

length-set_again :
    (a : Assignments) (k : ℤ) (x y : Option ServerRef)
    → length (set k y (set k x a)) ≡ length (set k x a)
length-set_again a k x y =
    let there : is_some (find k (set k x a)) ≡ true = found_after k k x a ∙ rw (==_refl k) refl in
    length-set k y (set k x a) ∙ rw there refl

length-assign_new :
    (c : Coordinator) (k : ℤ) (x : Option ServerRef) (found : Option (ServerRef × ZNode))
    → length
        (assign_new
          (record c { client_assignments = set k x c.client_assignments })
          k
          found).0.client_assignments
      ≡ length (set k x c.client_assignments)
unfolding assign_new
length-assign_new c k x none = refl
length-assign_new c k x (some (r, z)) = length-set_again c.client_assignments k x (some r)

not_issued : (n : ℕ) → ltb (suc n) n ≡ false
not_issued n = ground arith

id_of_length :
    (c : Coordinator) (n : ℕ) → length c.client_assignments ≡ n → (get_unique_client_id c).1 ≡ pos n
unfolding get_unique_client_id
id_of_length c n h = ap pos h

-- Where the client ids from 0 on that have an entry are exactly those below the number n of
-- assignments, a `GetServer` for the id n + 1, which was not given to any client, makes the next
-- `GetUniqueClientID` give that same id n + 1, if it returns.
pub get_server-collides :
    (c : Coordinator) (r : Served)
    → AreIssued c.client_assignments
    → get_server c (pos (suc (length c.client_assignments))) ≡ ok r
    → (get_unique_client_id r.0).1 ≡ pos (suc (length c.client_assignments))
get_server-collides c r h e =
    let n : ℕ = length c.client_assignments in
    let k : ℤ = pos (suc n) in
    let new : is_some (find k c.client_assignments) ≡ false = h (suc n) ∙ not_issued n in
    let longer : length (set k (assignment c k) c.client_assignments) ≡ suc n =
      length-set k (assignment c k) c.client_assignments ∙ rw new refl in
    id_of_length r.0 (suc n)
      (elim (Option-cases (still_master (server_of c.clusters (assignment c k)))) [
        | inr (z, kept) ↦ served_length _ r (suc n) (sym (get_server_kept c k z kept) ∙ e) longer
        | inl lost ↦
            let (found, _, f) =
              >>=-eq-ok (get_active_master c.clusters k) _ (sym (get_server_new c k lost) ∙ e) in
            served_length _ r (suc n) f (length-assign_new c k (assignment c k) found ∙ longer)
      ])
