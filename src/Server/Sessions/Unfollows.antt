-- ===== src/Server/Sessions/Unfollows.antt =====
-- `UnFollow` with its line of the log.
use mathlib.Core.Path.{subst}
use distributed_sns.Base.{
  ℕ, ◌≡◌, refl, ◌∙◌, ◌≢◌, sym, ap, inl, inr, Option, none, some, List, [], ◌∷◌, ◌++◌, append_assoc,
  arith, Str, codes, ◌==◌, nat_eq, str_eq, if◌then◌else◌, All, All-append, Option-cases, Bool-cases,
}
use distributed_sns.Base.Result.{Result, ok, ◌>>=◌, >>=-eq-ok}
use distributed_sns.FsUtils.Paths.{Lacks}
use distributed_sns.Server.Answered.{unfollow-both}
use distributed_sns.Server.State.{LocalTime, Request, Reply, Client, Server}
use distributed_sns.Server.Text.{newline, space, unfollow_line}
use distributed_sns.Server.Clients.{get_client, client_at, not_null, unfollow_helper, unlink}
use distributed_sns.Server.Lines.{IsWord, split-unfollow}
use distributed_sns.Server.State.{unfollow_method, failure_invalid, failure_not_a_follower, success}
use distributed_sns.Server.Api.{Answer, unfollow, unfollow_target, first_argument, refuse}
use distributed_sns.Server.Clients.{index_of_following, index_of_follower, found_index}
use distributed_sns.Server.Replays.{replica, Logged-append, replay_unfollow}
use distributed_sns.Server.Sessions.Answers.{IsLogged, answered}
use distributed_sns.Server.Sessions.Follows.{found_name, found_pointer, first-IsWord}

unfollow_line_end :
    (u v : Str) → (codes "unfollow " ++ (u ++ (space ∷ v))) ++ (newline ∷ []) ≡ unfollow_line u v
unfolding unfollow_line
unfollow_line_end u v = ap (λ x. codes "unfollow " ++ x) (append_assoc u _ _)

Lacks-unfollow :
    (u v : Str)
    → Lacks newline u
    → Lacks newline v
    → Lacks newline (codes "unfollow " ++ (u ++ (space ∷ v)))
Lacks-unfollow u v h k =
    All-append (λ b. b ≢ newline) (codes "unfollow ") _ (omega arith)
      (All-append (λ b. b ≢ newline) u _ h ((omega arith), k))

unfollow_step :
    (u v log : Str) (heap : List Client) (db : List ℕ) (a b i j : ℕ) (c d : Client)
    → get_client heap db u ≡ some a
    → get_client heap db v ≡ some b
    → client_at heap a ≡ ok c
    → client_at heap b ≡ ok d
    → index_of_following heap c d ≡ some i
    → index_of_follower heap d c ≡ some j
    → unfollow_helper u v (replica heap db log) ≡ ok (replica (unlink heap a b i j) db log)
unfolding unfollow_helper
unfollow_step u v log heap db a b i j c d f g at at' x y =
    rw f (rw g (rw at (rw at' (rw x (rw y refl)))))

unfollowed-IsLogged :
    (tz : LocalTime) (s : Server) (u v : Str) (a b i j : ℕ) (c d : Client) (x : Answer)
    → IsWord u
    → IsWord v
    → IsLogged tz s
    → get_client s.clients s.client_db u ≡ some a
    → get_client s.clients s.client_db v ≡ some b
    → client_at s.clients a ≡ ok c
    → client_at s.clients b ≡ ok d
    → index_of_following s.clients c d ≡ some i
    → index_of_follower s.clients d c ≡ some j
    → x.0.clients ≡ unlink s.clients a b i j
    → x.0.client_db ≡ s.client_db
    → x.0.userinfo ≡ s.userinfo ++ unfollow_line u v
    → IsLogged tz x.0
unfollowed-IsLogged tz s u v a b i j c d x w w' h f g at at' p q k l m =
    rw (k, l, m, sym (unfollow_line_end u v))
      (Logged-append tz s.clients (unlink s.clients a b i j) s.client_db s.client_db s.userinfo
        (codes "unfollow " ++ (u ++ (space ∷ v))) (Lacks-unfollow u v w.2 w'.2) h
        (rw (split-unfollow u v w w') (
          replay_unfollow tz u v s.userinfo s.clients s.client_db
          ∙ unfollow_step u v s.userinfo s.clients s.client_db a b i j c d f g at at' p q)))

abbrev pub unfollowed : Server → ℕ → ℕ → ℕ → ℕ → Client → Client → Answer
unfollowed s a b i j c d = (
  record s {
    clients = unlink s.clients a b i j;
    userinfo = s.userinfo ++ unfollow_line c.username d.username;
  },
  record { msg = codes "Successfully unfollowed user " ++ d.username; status = success },
)

pub not_followed :
    (s : Server) (a b : ℕ) (c d : Client)
    → index_of_following s.clients c d ≡ none
    → unfollow_target s a c b d
      ≡ ok (refuse s failure_not_a_follower (codes "You already do not follow this user..."))
unfolding unfollow_target
not_followed s a b c d h = rw (h, unfollow_target) refl

pub is_followed :
    (s : Server) (a b i : ℕ) (c d : Client)
    → index_of_following s.clients c d ≡ some i
    → unfollow_target s a c b d
      ≡ (found_index (index_of_follower s.clients d c) >>= λ j. ok (unfollowed s a b i j c d))
unfolding unfollow_target
is_followed s a b i c d h = rw (h, unfollow_target) refl

pub same_answer : (x y : Answer) → ◌≡◌ {A = Result Answer} (ok x) (ok y) → x ≡ y
same_answer x y e = cc

pub found_value : (o : Option ℕ) (j : ℕ) → found_index o ≡ ok j → o ≡ some j
found_value none j h = cc
found_value (some k) j h = cc

-- The target is not followed, or the link is taken away at both ends.
unfollow_target-IsLogged :
    (tz : LocalTime) (s : Server) (u v : Str) (a b : ℕ) (c d : Client) (x : Answer)
    → IsWord u
    → IsWord v
    → IsLogged tz s
    → not_null (get_client s.clients s.client_db u) ≡ ok a
    → not_null (get_client s.clients s.client_db v) ≡ ok b
    → client_at s.clients a ≡ ok c
    → client_at s.clients b ≡ ok d
    → unfollow_target s a c b d ≡ ok x
    → IsLogged tz x.0
unfollow_target-IsLogged tz s u v a b c d x w w' h f g at at' e =
    elim (Option-cases (index_of_following s.clients c d)) [
      | inl new ↦
          subst (λ y. IsLogged tz y.0) (same_answer _ x (sym (not_followed s a b c d new) ∙ e)) h
      | inr (i, p) ↦
          let (j, q, r) =
            >>=-eq-ok (found_index (index_of_follower s.clients d c))
              (λ j. ok (unfollowed s a b i j c d)) (sym (is_followed s a b i c d p) ∙ e) in
          let f' = found_pointer (get_client s.clients s.client_db u) a f in
          let g' = found_pointer (get_client s.clients s.client_db v) b g in
          let cu = found_name s.clients s.client_db u a c f' at in
          let dv = found_name s.clients s.client_db v b d g' at' in
          subst (λ y. IsLogged tz y.0) (same_answer _ x r)
            (unfollowed-IsLogged tz s u v a b i j c d (unfollowed s a b i j c d) w w' h f' g' at at'
              p (found_value (index_of_follower s.clients d c) j q) refl refl
              (ap (λ y. s.userinfo ++ unfollow_line y d.username) cu
                ∙ ap (λ y. s.userinfo ++ unfollow_line u y) dv))
    ]

unfollow_answer-IsLogged :
    (tz : LocalTime) (s : Server) (u v : Str) (a b : ℕ) (c d : Client) (x : Answer)
    → IsWord u
    → IsWord v
    → IsLogged tz s
    → not_null (get_client s.clients s.client_db u) ≡ ok a
    → not_null (get_client s.clients s.client_db v) ≡ ok b
    → client_at s.clients a ≡ ok c
    → client_at s.clients b ≡ ok d
    → (if a == b
        then ok (refuse s failure_invalid (codes "You cannot unfollow yourself."))
        else unfollow_target s a c b d)
      ≡ ok x
    → IsLogged tz x.0
unfollow_answer-IsLogged tz s u v a b c d x w w' h f g at at' e = elim (Bool-cases (a == b)) [
  | inl self ↦ subst (λ y. IsLogged tz y.0) (same_answer _ x (rw self at e)) h
  | inr two ↦ unfollow_target-IsLogged tz s u v a b c d x w w' h f g at at' (rw two at e)
]

pub unfollow-IsLogged :
    (tz : LocalTime) (r : Request) (s s' : Server) (reply : Reply)
    → IsWord r.username
    → All IsWord r.arguments
    → IsLogged tz s
    → unfollow r s ≡ ok (s', reply)
    → IsLogged tz s'
unfollow-IsLogged tz r s s' reply word words h e =
    let (user, e₁, h₁) = >>=-eq-ok (first_argument r) _ (sym (unfollow-both r s) ∙ e) in
    let (a, e₂, h₂) = >>=-eq-ok (not_null (get_client s.clients s.client_db r.username)) _ h₁ in
    let (b, e₃, h₃) = >>=-eq-ok (not_null (get_client s.clients s.client_db user)) _ h₂ in
    let (c, e₄, h₄) = >>=-eq-ok (client_at s.clients a) _ h₃ in
    let (d, e₅, h₅) = >>=-eq-ok (client_at s.clients b) _ h₄ in
    let (x, e₆, h₆) =
      >>=-eq-ok
        (if a == b
          then ok (refuse s failure_invalid (codes "You cannot unfollow yourself."))
          else unfollow_target s a c b d)
        _ h₅ in
    answered tz unfollow_method r x s' reply h₆ (
      unfollow_answer-IsLogged tz s r.username user a b c d x word (first-IsWord r user words e₁) h
        e₂ e₃ e₄ e₅ e₆)
