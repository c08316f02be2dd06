-- ===== src/Client/Commands/Accepted.antt =====
-- What `getCommand` lets through, and what becomes of a word that is no command.
use mathlib.Core.Path.{subst}
use distributed_sns.Base.{
  ℕ, zero, suc, ◌+◌, ◌≡◌, refl, ◌∙◌, sym, ap, ◌≢◌, ◌⊎◌, inl, inr, Bool, true, false, ◌||◌, Option,
  none, some, List, [], ◌∷◌, ◌++◌, arith, Str, codes, ◌==◌, nat_eq, str_eq, ==_ne, eq_of_==,
  ne_of_==, Bool-cases, Option-cases, length, take, drop, length-append,
}
use distributed_sns.Base.Result.{err, uninitialised, ◌>>=◌}
use distributed_sns.FsUtils.Paths.{Lacks}
use distributed_sns.Server.State.{LocalTime}
use distributed_sns.Client.State.{Services, declared_reply}
use distributed_sns.Client.Text.{to_upper_case, find_first_of, read_line}
use distributed_sns.Client.Commands.{
  space, list_command, timeline_command, Checked, accepted, rejected, check_argument, check_word,
  check_input, Read, after_check, after_line, command_loop, get_command, split_command, dispatch,
  process_command, bash_round, bash_loop, run_client_bash,
}
use distributed_sns.Client.Commands.Typed.{
  find_first_of-none, find_first_of_splits, Lacks-of_none, Lacks-to_upper_case,
  to_upper_case-to_upper_case, split_command_lem, get_command_typed,
}

-- A command: one of the two words that stand alone, or a word in upper case with an argument.
pub record IsCommand (cmd : Str) : Type 0 where
  pub word : Str
  pub arg : Str
  pub splits : split_command cmd ≡ (word, arg)
  pub upper : to_upper_case word ≡ word
  pub complete :
      ((cmd ≡ word) × ((word ≡ list_command) ⊎ (word ≡ timeline_command)))
      ⊎ ((cmd ≡ word ++ (space ∷ arg)) × (arg ≢ []) × Lacks space word)

argument-IsCommand :
    (w arg : Str) → Lacks space w → arg ≢ [] → IsCommand (to_upper_case w ++ (space ∷ arg))
argument-IsCommand w arg h n = record {
  word = to_upper_case w;
  arg = arg;
  splits = split_command_lem (to_upper_case w) arg (Lacks-to_upper_case w h);
  upper = to_upper_case-to_upper_case w;
  complete = inr (refl, n, Lacks-to_upper_case w h);
}

split_command_alone : (w : Str) → Lacks space w → split_command w ≡ (w, [])
unfolding split_command
split_command_alone w h = rw (find_first_of-none space w h, split_command) refl

word-IsCommand :
    (w : Str)
    → (to_upper_case w ≡ list_command) ⊎ (to_upper_case w ≡ timeline_command)
    → Lacks space w
    → IsCommand (to_upper_case w)
word-IsCommand w e h = record {
  word = to_upper_case w;
  arg = [];
  splits = split_command_alone (to_upper_case w) (Lacks-to_upper_case w h);
  upper = to_upper_case-to_upper_case w;
  complete = inl (refl, e);
}

not_empty_of_length :
    (s word arg : Str) (i : ℕ)
    → s ≡ word ++ (space ∷ arg)
    → length word ≡ i
    → length s ≢ i + 1
    → arg ≢ []
not_empty_of_length s word arg i e l n empty = n (
    ap length e
    ∙ length-append word (space ∷ arg)
    ∙ ap (λ a. length word + suc (length a)) empty
    ∙ omega arith)

abbrev payload : Checked → Str
payload (accepted s) = s
payload (rejected s) = s

check_argument-IsCommand :
    (s cmd : Str) (i : ℕ)
    → find_first_of space s ≡ some i
    → check_argument s i ≡ accepted cmd
    → IsCommand cmd
unfolding check_argument
check_argument-IsCommand s cmd i at_space h =
    let (splits, word, len) = find_first_of_splits space s i at_space in
    elim (Bool-cases (length s == i + 1)) [
      | inl e ↦ cc (rw (e, check_argument) at h)
      | inr e ↦
          let one : i + 1 ≡ suc i = omega arith in
          let n : drop (suc i) s ≢ [] =
            not_empty_of_length s (take i s) (drop (suc i) s) i splits len
              (ne_of_== (length s) (i + 1) e) in
          let same : to_upper_case (take i s) ++ (space ∷ drop (suc i) s) ≡ cmd =
            ap (λ n. to_upper_case (take i s) ++ (space ∷ drop n s)) (sym one)
            ∙ ap payload (rw (e, check_argument) at h) in
          subst IsCommand same (argument-IsCommand (take i s) (drop (suc i) s) word n)
    ]

or_true : (a b : Bool) → (a || b) ≡ true → (a ≡ true) ⊎ (b ≡ true)
or_true true b h = inl refl
or_true false b h = inr h

check_word-IsCommand : (s cmd : Str) → Lacks space s → check_word s ≡ accepted cmd → IsCommand cmd
unfolding check_word
check_word-IsCommand s cmd n h =
    let u : Str = to_upper_case s in
    elim (Bool-cases (u == list_command || u == timeline_command)) [
      | inr e ↦ cc (rw (e, check_word) at h)
      | inl e ↦
          let known : (u ≡ list_command) ⊎ (u ≡ timeline_command) = elim (or_true _ _ e) [
            | inl a ↦ inl (eq_of_== u list_command a)
            | inr b ↦ inr (eq_of_== u timeline_command b)
          ] in
          let same : u ≡ cmd = ap payload (rw (e, check_word) at h) in
          subst IsCommand same (word-IsCommand s known n)
    ]

check_input-IsCommand : (s cmd : Str) → check_input s ≡ accepted cmd → IsCommand cmd
unfolding check_input
check_input-IsCommand s cmd h = elim (Option-cases (find_first_of space s)) [
  | inl e ↦ check_word-IsCommand s cmd (Lacks-of_none space s e) (rw (e, check_input) at h)
  | inr (i, e) ↦ check_argument-IsCommand s cmd i e (rw (e, check_input) at h)
]

-- What is read is a command.
abbrev Commands : Read → Type 0
Commands none = Unit
Commands (some (cmd, rest, printed)) = IsCommand cmd

after_check-Commands :
    (again : Str → Read) (left : Str) (c : Checked)
    → ((cmd : Str) → c ≡ accepted cmd → IsCommand cmd)
    → ((s : Str) → Commands (again s))
    → Commands (after_check again left c)
unfolding after_check
after_check-Commands again left (accepted cmd) known more = known cmd refl
after_check-Commands again left (rejected why) known more = kept (again left) (more left)
  where
    kept :
        (r : Read)
        → Commands r
        → Commands
            (elim r [ none ↦ none | some (cmd, rest, printed) ↦ some (cmd, rest, why ∷ printed) ])
    kept none h = tt
    kept (some (cmd, rest, printed)) h = h

after_line-Commands :
    (again : Str → Read) (line : Option (Str × Str))
    → ((s : Str) → Commands (again s))
    → Commands (after_line again line)
unfolding after_line
after_line-Commands again none more = tt
after_line-Commands again (some (l, left)) more =
    after_check-Commands again left (check_input l) (λ cmd e. check_input-IsCommand l cmd e) more

command_loop-Commands : (f : ℕ) (s : Str) → Commands (command_loop f s)
unfolding command_loop
command_loop-Commands zero s = tt
command_loop-Commands (suc f) s =
    after_line-Commands (command_loop f) (read_line s) (command_loop-Commands f)

-- Whatever the input, what `getCommand` lets through is taken apart into a word in upper case and
-- an argument: it is LIST or TIMELINE alone, or a word without a space, with a space and an
-- argument that is not empty behind it.
pub get_command-IsCommand :
    (stdin cmd rest : Str) (printed : List Str)
    → get_command stdin ≡ some (cmd, rest, printed)
    → IsCommand cmd
unfolding get_command
get_command-IsCommand stdin cmd rest printed h =
    rw h at (command_loop-Commands (suc (length stdin)) stdin)

-- The words that the client knows.
pub record IsUnknown (word : Str) : Type 0 where
  pub not_follow : word ≢ codes "FOLLOW"
  pub not_unfollow : word ≢ codes "UNFOLLOW"
  pub not_list : word ≢ list_command
  pub not_timeline : word ≢ timeline_command

module _ {W : Type 0} (services : Services W) (tz : LocalTime) (username : Str) where
  dispatch_unknown :
      (word arg : Str) (w : W)
      → IsUnknown word
      → dispatch services username word arg w ≡ (w, declared_reply, codes "Invalid command\n" ∷ [])
  unfolding dispatch
  dispatch_unknown word arg w h =
      rw
        (
          ==_ne word (codes "FOLLOW") h.not_follow,
          ==_ne word (codes "UNFOLLOW") h.not_unfollow,
          ==_ne word list_command h.not_list,
          ==_ne word timeline_command h.not_timeline,
        )
        refl

  bash_round_unknown :
      (word arg stdin : Str) (w : W)
      → IsUnknown word
      → Lacks space word
      → bash_round services tz username (word ++ (space ∷ arg)) stdin w ≡ err uninitialised
  unfolding bash_round process_command
  bash_round_unknown word arg stdin w h n =
      rw (split_command_lem word arg n, dispatch_unknown word arg w h) refl

  -- Where the first line of the input is a word that is, in upper case, none of FOLLOW, UNFOLLOW,
  -- LIST and TIMELINE, with an argument behind it, the client reads a status that was never set,
  -- whatever the server is.
  pub run_client_bash_unknown :
      (word arg rest : Str) (w : W)
      → IsUnknown (to_upper_case word)
      → Lacks space word
      → Lacks 10 (word ++ (space ∷ arg))
      → arg ≢ []
      → run_client_bash services tz username ((word ++ (space ∷ arg)) ++ (10 ∷ rest)) w
        ≡ err uninitialised
  unfolding run_client_bash bash_loop
  run_client_bash_unknown word arg rest w h n l e =
      rw ((get_command_typed word arg rest n l e).0, bash_loop)
        (rw
          (bash_round_unknown (to_upper_case word) arg rest w h (Lacks-to_upper_case word n), ◌>>=◌)
          refl)
