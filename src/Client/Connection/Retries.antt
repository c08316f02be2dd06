-- ===== src/Client/Connection/Retries.antt =====
-- When the client gives up: the answers of the coordinator to `refreshServer`, one after the other.
use distributed_sns.Base.{
  ℕ, zero, suc, ◌+◌, ◌<◌, ◌≡◌, refl, ◌∙◌, sym, ap, ◌≤◌, ◌↔◌, ◌⊎◌, inl, inr, Option, none, some,
  List, [], ◌∷◌, arith, Option-cases,
}
use distributed_sns.Base.Int.{ℤ}
use distributed_sns.Coordinator.State.{ServerInfo}
use distributed_sns.Client.State.{
  unavailable_code, invalid_argument_code, already_exists_code, other_code, GrpcStatus, grpc_ok,
  grpc_failed, ClientState, Services,
}
use distributed_sns.Client.Connection.{take_answer, make_stub, get_server_info, refresh_server}

pub data Kind : Type 0 where
  served down refused : Kind

abbrev pub Answered : Type 0
Answered = GrpcStatus × ServerInfo

-- The coordinator gives a server, has none (or cannot be reached), or refuses the call.
abbrev pub kind : Answered → Kind
kind (grpc_ok, _) = served
kind (grpc_failed unavailable_code _, _) = down
kind (grpc_failed _ _, _) = refused

-- The first `n` answers are there and say that no server is available.
abbrev pub StartsDown : ℕ → List Answered → Type 0
StartsDown zero answers = Unit
StartsDown (suc n) [] = ⊥
StartsDown (suc n) (a ∷ answers) = (kind a ≡ down) × StartsDown n answers

-- Somewhere in the answers a call is refused, or four in a row say that no server is available.
abbrev pub GivesUp : List Answered → Type 0
GivesUp [] = ⊥
GivesUp (a ∷ answers) = (kind a ≡ refused) ⊎ StartsDown 4 (a ∷ answers) ⊎ GivesUp answers

-- What is answered to so many calls of `GetServer`.
pub answers : {W : Type 0} → Services W → ℕ → ℤ → W → List Answered
answers services zero id w = []
answers services (suc n) id w =
    let (w, status, info) = services.get_server_rpc id w in (status, info) ∷ answers services n id w

after : List Answered → ClientState → Option ClientState
after [] c = some c
after (a ∷ rest) c = elim (take_answer a c).0 [ none ↦ none | some c ↦ after rest c ]

-- The client goes on after this answer, with so many retries.
abbrev GoesOn : Answered → ClientState → ℕ → Type 0
GoesOn a c r = (d : ClientState) × ((take_answer a c).0 ≡ some d) × (d.retries ≡ r) × (d.id ≡ c.id)

take_served : (a : Answered) (c : ClientState) → kind a ≡ served → GoesOn a c 0
unfolding take_answer make_stub
take_served (grpc_ok, info) c h = (_, refl, refl, refl)
take_served (grpc_failed unavailable_code m, info) c h = cc
take_served (grpc_failed invalid_argument_code m, info) c h = cc
take_served (grpc_failed already_exists_code m, info) c h = cc
take_served (grpc_failed (other_code n) m, info) c h = cc

take_down :
    (a : Answered) (c : ClientState) → kind a ≡ down → c.retries < 3 → GoesOn a c (suc c.retries)
unfolding take_answer make_stub
take_down (grpc_ok, info) c h l = cc
take_down (grpc_failed unavailable_code m, info) c h l =
    ((make_stub (record c { retries = suc c.retries })).0, ground arith, refl, refl)
take_down (grpc_failed invalid_argument_code m, info) c h l = cc
take_down (grpc_failed already_exists_code m, info) c h l = cc
take_down (grpc_failed (other_code n) m, info) c h l = cc

take_last :
    (a : Answered) (c : ClientState) → kind a ≡ down → c.retries ≡ 3 → (take_answer a c).0 ≡ none
unfolding take_answer make_stub
take_last (grpc_ok, info) c h l = cc
take_last (grpc_failed unavailable_code m, info) c h l = ground arith
take_last (grpc_failed invalid_argument_code m, info) c h l = cc
take_last (grpc_failed already_exists_code m, info) c h l = cc
take_last (grpc_failed (other_code n) m, info) c h l = cc

take_refused : (a : Answered) (c : ClientState) → kind a ≡ refused → (take_answer a c).0 ≡ none
unfolding take_answer make_stub
take_refused (grpc_ok, info) c h = cc
take_refused (grpc_failed unavailable_code m, info) c h = cc
take_refused (grpc_failed invalid_argument_code m, info) c h = refl
take_refused (grpc_failed already_exists_code m, info) c h = refl
take_refused (grpc_failed (other_code n) m, info) c h = refl

kind-cases : (a : Answered) → (kind a ≡ served) ⊎ (kind a ≡ down) ⊎ (kind a ≡ refused)
kind-cases (grpc_ok, info) = inl refl
kind-cases (grpc_failed unavailable_code m, info) = inr (inl refl)
kind-cases (grpc_failed invalid_argument_code m, info) = inr (inr refl)
kind-cases (grpc_failed already_exists_code m, info) = inr (inr refl)
kind-cases (grpc_failed (other_code n) m, info) = inr (inr refl)

after_next :
    (a : Answered) (rest : List Answered) (c : ClientState) {d : ClientState}
    → (take_answer a c).0 ≡ some d
    → after (a ∷ rest) c ≡ after rest d
unfolding after
after_next a rest c h = rw (h, after) refl

after_exit :
    (a : Answered) (rest : List Answered) (c : ClientState)
    → (take_answer a c).0 ≡ none
    → after (a ∷ rest) c ≡ none
unfolding after
after_exit a rest c h = rw (h, after) refl

StartsDown-GivesUp : (l : List Answered) → StartsDown 4 l → GivesUp l
StartsDown-GivesUp [] h = h
StartsDown-GivesUp (a ∷ rest) h = inr (inl h)

StartsDown-le : (n m : ℕ) (l : List Answered) → n ≤ m → StartsDown m l → StartsDown n l
StartsDown-le zero m l h d = tt
StartsDown-le (suc n) zero l h d = absurd (omega arith)
StartsDown-le (suc n) (suc m) [] h d = d
StartsDown-le (suc n) (suc m) (a ∷ l) h d = (d.0, StartsDown-le n m l (omega arith) d.1)

-- An answer with a server: what comes later decides.
exits_served :
    (a : Answered) (l : List Answered) (c d : ClientState)
    → (take_answer a c).0 ≡ some d
    → (after l d ≡ none → StartsDown 4 l ⊎ GivesUp l)
    → after (a ∷ l) c ≡ none
    → GivesUp (a ∷ l)
exits_served a l c d t later h = elim (later (sym (after_next a l c t) ∙ h)) [
  | inl four ↦ inr (inr (StartsDown-GivesUp l four))
  | inr g ↦ inr (inr g)
]

-- With `k` retries left, the client exits only where more are needed at once, or later.
exits_only :
    (k : ℕ) (l : List Answered) (c : ClientState)
    → c.retries + k ≡ 3
    → after l c ≡ none
    → StartsDown (suc k) l ⊎ GivesUp l
exits_only k [] c b h = unfold after in cc
exits_only zero (a ∷ l) c b h = elim (kind-cases a) [
  | inl e ↦
      let (d, t, r, i) = take_served a c e in
      inr (exits_served a l c d t (exits_only 3 l d (omega arith)) h)
  | inr (inr e) ↦ inr (inl e)
  | inr (inl e) ↦ inl (e, tt)
]
exits_only (suc k) (a ∷ l) c b h = elim (kind-cases a) [
  | inl e ↦
      let (d, t, r, i) = take_served a c e in
      inr (exits_served a l c d t (exits_only 3 l d (omega arith)) h)
  | inr (inr e) ↦ inr (inl e)
  | inr (inl e) ↦
      let (d, t, r, i) = take_down a c e (omega arith) in
      elim (exits_only k l d (omega arith) (sym (after_next a l c t) ∙ h)) [
        | inl more ↦ inl (e, more)
        | inr g ↦ inr (inr (inr g))
      ]
]

exits_at :
    (k : ℕ) (l : List Answered) (c : ClientState)
    → c.retries + k ≡ 3
    → StartsDown (suc k) l
    → after l c ≡ none
exits_at k [] c b h = absurd h
exits_at zero (a ∷ l) c b h = after_exit a l c (take_last a c h.0 (omega arith))
exits_at (suc k) (a ∷ l) c b h =
    let (d, t, r, i) = take_down a c h.0 (omega arith) in
    after_next a l c t ∙ exits_at k l d (omega arith) h.1

exits_later :
    (k : ℕ) (l : List Answered) (c : ClientState) → c.retries + k ≡ 3 → GivesUp l → after l c ≡ none
exits_later k [] c b h = absurd h
exits_later k (a ∷ l) c b (inl e) = after_exit a l c (take_refused a c e)
exits_later k (a ∷ l) c b (inr (inl four)) =
    exits_at k (a ∷ l) c b (StartsDown-le (suc k) 4 (a ∷ l) (omega arith) four)
exits_later zero (a ∷ l) c b (inr (inr g)) = elim (kind-cases a) [
  | inl e ↦
      let (d, t, r, i) = take_served a c e in after_next a l c t ∙ exits_later 3 l d (omega arith) g
  | inr (inl e) ↦ after_exit a l c (take_last a c e (omega arith))
  | inr (inr e) ↦ after_exit a l c (take_refused a c e)
]
exits_later (suc k) (a ∷ l) c b (inr (inr g)) = elim (kind-cases a) [
  | inl e ↦
      let (d, t, r, i) = take_served a c e in after_next a l c t ∙ exits_later 3 l d (omega arith) g
  | inr (inl e) ↦
      let (d, t, r, i) = take_down a c e (omega arith) in
      after_next a l c t ∙ exits_later k l d (omega arith) g
  | inr (inr e) ↦ after_exit a l c (take_refused a c e)
]

module _ {W : Type 0} (services : Services W) where
  take_answer_id :
      (a : Answered) (c : ClientState) {d : ClientState}
      → (take_answer a c).0 ≡ some d
      → d.id ≡ c.id
  unfolding take_answer make_stub
  take_answer_id (grpc_ok, info) c h = cc
  take_answer_id (grpc_failed code m, info) c h = ground arith

  -- The rounds go through the answers.
  refresh_server-after :
      (n : ℕ) (c : ClientState) (w : W)
      → (refresh_server services n c w).1 ≡ after (answers services n c.id w) c
  unfolding refresh_server get_server_info after answers
  refresh_server-after zero c w = refl
  refresh_server-after (suc n) c w =
      let (w', status, info) = services.get_server_rpc c.id w in
      elim (Option-cases (take_answer (status, info) c).0) [
        | inl stop ↦ rw (stop, refresh_server, after) refl
        | inr (d, t) ↦
            rw (t, refresh_server, after)
              (refresh_server-after n d w'
                ∙ ap (λ id. after (answers services n id w') d) (take_answer_id (status, info) c t))
      ]

  -- A client with no retries so far exits within a number of rounds of `refreshServer` exactly
  -- where, among the answers of the coordinator to these rounds, a call is refused with another
  -- code than UNAVAILABLE, or four answers in a row are UNAVAILABLE; otherwise it goes on.
  pub refresh_server-GivesUp :
      (n : ℕ) (c : ClientState) (w : W)
      → c.retries ≡ 0
      → ((refresh_server services n c w).1 ≡ none) ↔ GivesUp (answers services n c.id w)
  refresh_server-GivesUp n c w h = (
    (λ e.
        elim (exits_only 3 (answers services n c.id w) c (omega arith)
          (sym (refresh_server-after n c w) ∙ e)) [
            | inl four ↦ StartsDown-GivesUp _ four
            | inr g ↦ g
          ]),
    (λ g. refresh_server-after n c w ∙ exits_later 3 (answers services n c.id w) c (omega arith) g),
  )
