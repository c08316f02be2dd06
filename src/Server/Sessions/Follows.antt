-- ===== src/Server/Sessions/Follows.antt =====
-- `Follow` with its line of the log.
use mathlib.Core.Path.{subst}
use distributed_sns.Base.{
  ℕ, ◌≡◌, refl, ◌∙◌, ◌≢◌, sym, ap, inl, inr, true, Option, none, some, List, [], ◌∷◌, ◌++◌,
  append_assoc, arith, Str, codes, ◌==◌, nat_eq, str_eq, eq_of_==, if◌then◌else◌, All, All-append,
  Option-cases, Bool-cases, get_elem?,
}
use distributed_sns.Base.Result.{Result, ok, err, out_of_range, >>=-eq-ok}
use distributed_sns.Base.Int.{ℤ}
use distributed_sns.FsUtils.Paths.{Lacks}
use distributed_sns.Server.Answered.{follow-both}
use distributed_sns.Server.State.{LocalTime, Timestamp, Request, Reply, Client, Server}
use distributed_sns.Server.Text.{newline, space, timestamp_to_str, follow_line}
use distributed_sns.Server.Clients.{is_named, get_client, client_at, not_null, follow_helper, link}
use distributed_sns.Server.Lines.{IsWord, split-follow, timestamp_to_str-IsWord}
use distributed_sns.Server.State.{follow_method, failure_invalid}
use distributed_sns.Server.Api.{Answer, follow, follow_target, first_argument, refuse}
use distributed_sns.Server.Text.{str_to_timestamp, str_to_seconds}
use distributed_sns.Server.Clients.{index_of_following}
use distributed_sns.Server.Replays.{replica, Logged-append, replay_follow}
use distributed_sns.Server.Sessions.Answers.{IsLogged, answered}

-- A client that was found by a name has that name.
named_at :
    (heap : List Client) (u : Str) (a : ℕ) (c : Client)
    → is_named heap u a ≡ true
    → client_at heap a ≡ ok c
    → c.username ≡ u
unfolding is_named client_at
named_at heap u a c h e = elim (Option-cases (get_elem? heap a)) [
  | inl out ↦ absurd (ground arith)
  | inr (c', at) ↦
      let same : c' ≡ c = ground arith in
      let name : (u == c'.username) ≡ true = ground arith in
      ap (λ x. x.username) (sym same) ∙ sym (eq_of_== u c'.username name)
]

pub found_name :
    (heap : List Client) (db : List ℕ) (u : Str) (a : ℕ) (c : Client)
    → get_client heap db u ≡ some a
    → client_at heap a ≡ ok c
    → c.username ≡ u
unfolding get_client client_at
found_name heap [] u a c h e = absurd cc
found_name heap (x ∷ db) u a c h e = elim (Bool-cases (is_named heap u x)) [
  | inr miss ↦ found_name heap db u a c (rw miss at h) e
  | inl hit ↦ let same : x ≡ a = ground arith in named_at heap u a c (rw same at hit) e
]

pub found_pointer : (o : Option ℕ) (a : ℕ) → not_null o ≡ ok a → o ≡ some a
found_pointer none a h = cc
found_pointer (some b) a h = cc

-- The time of a request survives being printed and read.
abbrev pub IsLocalTime : LocalTime → Timestamp → Type 0
IsLocalTime tz t = (tz.parse_time (timestamp_to_str tz t) ≡ some t.seconds) × (t.nanos ≡ 0)

parsed :
    (tz : LocalTime) (text : Str) (n : ℤ)
    → tz.parse_time text ≡ some n
    → str_to_timestamp tz text ≡ ok (record { seconds = n; nanos = 0 })
unfolding str_to_timestamp
parsed tz text n h = rw (h, str_to_timestamp, str_to_seconds) refl

pub read_back :
    (tz : LocalTime) (t : Timestamp)
    → IsLocalTime tz t
    → str_to_timestamp tz (timestamp_to_str tz t) ≡ ok t
read_back tz t h =
    parsed tz (timestamp_to_str tz t) t.seconds h.0
    ∙ ap (λ n. ok (record { seconds = t.seconds; nanos = n })) (sym h.1)

follow_line_end :
    (u v time : Str)
    → (codes "follow " ++ (u ++ (space ∷ (v ++ (space ∷ time))))) ++ (newline ∷ [])
      ≡ follow_line u v time
unfolding follow_line
follow_line_end u v time =
    ap (λ x. codes "follow " ++ x)
      (append_assoc u _ _ ∙ ap (λ x. u ++ (space ∷ x)) (append_assoc v _ _))

Lacks-follow :
    (u v time : Str)
    → Lacks newline u
    → Lacks newline v
    → Lacks newline time
    → Lacks newline (codes "follow " ++ (u ++ (space ∷ (v ++ (space ∷ time)))))
Lacks-follow u v time h k l =
    All-append (λ b. b ≢ newline) (codes "follow ") _ (omega arith)
      (All-append (λ b. b ≢ newline) u _ h
        ((omega arith), (All-append (λ b. b ≢ newline) v _ k ((omega arith), l))))

follow_step :
    (tz : LocalTime) (u v log : Str) (t : Timestamp) (heap : List Client) (db : List ℕ) (a b : ℕ)
    → IsLocalTime tz t
    → get_client heap db u ≡ some a
    → get_client heap db v ≡ some b
    → follow_helper tz u v (timestamp_to_str tz t) (replica heap db log)
      ≡ ok (replica (link heap a b t) db log)
unfolding follow_helper
follow_step tz u v log t heap db a b time f g = rw (read_back tz t time) (rw f (rw g refl))

follow_target-IsLogged :
    (tz : LocalTime) (t : Timestamp) (s : Server) (u v : Str) (a b : ℕ) (c d : Client)
    → IsWord u
    → IsWord v
    → IsLocalTime tz t
    → IsLogged tz s
    → get_client s.clients s.client_db u ≡ some a
    → get_client s.clients s.client_db v ≡ some b
    → c.username ≡ u
    → d.username ≡ v
    → IsLogged tz (follow_target tz t s a c b d).0
unfolding follow_target
follow_target-IsLogged tz t s u v a b c d w x time h f g cu dv =
    elim (Option-cases (index_of_following s.clients c d)) [
      | inr (i, old) ↦ rw (old, follow_target) h
      | inl new ↦
          rw (new, follow_target)
            (rw (cu, dv, sym (follow_line_end u v (timestamp_to_str tz t)))
              (Logged-append tz s.clients (link s.clients a b t) s.client_db s.client_db s.userinfo
                (codes "follow " ++ (u ++ (space ∷ (v ++ (space ∷ timestamp_to_str tz t)))))
                (Lacks-follow u v (timestamp_to_str tz t) w.2 x.2 (timestamp_to_str-IsWord tz t).2)
                h
                (rw (split-follow u v (timestamp_to_str tz t) w x (timestamp_to_str-IsWord tz t)) (
                  replay_follow tz u v (timestamp_to_str tz t) s.userinfo s.clients s.client_db
                  ∙ follow_step tz u v s.userinfo t s.clients s.client_db a b time f g))))
    ]

-- The answer of `Follow` once both clients are found.
abbrev pub follow_answer : LocalTime → Timestamp → Server → ℕ → Client → ℕ → Client → Answer
follow_answer tz t s a c b d =
    if a == b
    then refuse s failure_invalid (codes "You cannot follow yourself.")
    else follow_target tz t s a c b d

follow_answer-IsLogged :
    (tz : LocalTime) (t : Timestamp) (s : Server) (u v : Str) (a b : ℕ) (c d : Client)
    → IsWord u
    → IsWord v
    → IsLocalTime tz t
    → IsLogged tz s
    → not_null (get_client s.clients s.client_db u) ≡ ok a
    → not_null (get_client s.clients s.client_db v) ≡ ok b
    → client_at s.clients a ≡ ok c
    → client_at s.clients b ≡ ok d
    → IsLogged tz (follow_answer tz t s a c b d).0
follow_answer-IsLogged tz t s u v a b c d w x time h f g at at' = elim (Bool-cases (a == b)) [
  | inl self ↦ rw self h
  | inr two ↦
      let f' = found_pointer (get_client s.clients s.client_db u) a f in
      let g' = found_pointer (get_client s.clients s.client_db v) b g in
      rw two (
        follow_target-IsLogged tz t s u v a b c d w x time h f' g'
          (found_name s.clients s.client_db u a c f' at)
          (found_name s.clients s.client_db v b d g' at'))
]

-- The first argument is one of the arguments.
pub first-IsWord :
    (r : Request) (user : Str) → All IsWord r.arguments → first_argument r ≡ ok user → IsWord user
first-IsWord r user words e = go r.arguments words e
  where
    go :
        (us : List Str)
        → All IsWord us
        → (elim us as (λ _. Result Str) [ [] ↦ err out_of_range | u ∷ _ ↦ ok u ]) ≡ ok user
        → IsWord user
    go [] w h = absurd cc
    go (u ∷ us) w h = let same : u ≡ user = cc in subst IsWord same w.0

pub follow-IsLogged :
    (tz : LocalTime) (r : Request) (s s' : Server) (reply : Reply)
    → IsWord r.username
    → All IsWord r.arguments
    → IsLocalTime tz r.timestamp
    → IsLogged tz s
    → follow tz r s ≡ ok (s', reply)
    → IsLogged tz s'
follow-IsLogged tz r s s' reply word words time h e =
    let (user, e₁, h₁) = >>=-eq-ok (first_argument r) _ (sym (follow-both tz r s) ∙ e) in
    let (a, e₂, h₂) = >>=-eq-ok (not_null (get_client s.clients s.client_db r.username)) _ h₁ in
    let (b, e₃, h₃) = >>=-eq-ok (not_null (get_client s.clients s.client_db user)) _ h₂ in
    let (c, e₄, h₄) = >>=-eq-ok (client_at s.clients a) _ h₃ in
    let (d, e₅, h₅) = >>=-eq-ok (client_at s.clients b) _ h₄ in
    answered tz follow_method r (follow_answer tz r.timestamp s a c b d) s' reply h₅ (
      follow_answer-IsLogged tz r.timestamp s r.username user a b c d word
        (first-IsWord r user words e₁) time h e₂ e₃ e₄ e₅)
