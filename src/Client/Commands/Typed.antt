-- ===== src/Client/Commands/Typed.antt =====
-- The commands that are read from the lines of standard input.
use distributed_sns.Base.{
  ℕ, zero, suc, ◌+◌, ◌≡◌, refl, ◌∙◌, ap, ◌≢◌, inl, inr, none, some, [], ◌∷◌, ◌++◌, arith, Str, ◌==◌,
  nat_eq, str_eq, ==_refl, ==_ne, ne_of_==, Bool-cases, Option-cases, length, take, drop,
  length-append,
}
use distributed_sns.FsUtils.Paths.{Lacks}
use distributed_sns.Client.Text.{to_upper, to_upper_case, find_first_of, read_line}
use distributed_sns.Client.Commands.{
  space, accepted, check_argument, check_input, after_check, after_line, command_loop, get_command,
  split_command,
}

pub read_line_lem : (l rest : Str) → Lacks 10 l → read_line (l ++ (10 ∷ rest)) ≡ some (l, rest)
unfolding read_line nat_eq
read_line_lem [] rest h = refl
read_line_lem (c ∷ l) rest h = rw (==_ne c 10 h.0, read_line) (rw (read_line_lem l rest h.1) refl)

module _ (d : ℕ) where
  pub find_first_of_word :
      (w s : Str) → Lacks d w → find_first_of d (w ++ (d ∷ s)) ≡ some (length w)
  unfolding find_first_of
  find_first_of_word [] s h = rw (==_refl d, find_first_of) refl
  find_first_of_word (c ∷ w) s h =
      rw (==_ne c d h.0, find_first_of) (rw (find_first_of_word w s h.1) refl)

  pub find_first_of-none : (w : Str) → Lacks d w → find_first_of d w ≡ none
  unfolding find_first_of
  find_first_of-none [] h = refl
  find_first_of-none (c ∷ w) h =
      rw (==_ne c d h.0, find_first_of) (rw (find_first_of-none w h.1) refl)

  find_first_of_later :
      (c : ℕ) (s : Str) (i : ℕ)
      → find_first_of d (c ∷ s) ≡ some (suc i)
      → (c ≢ d) × (find_first_of d s ≡ some i)
  unfolding find_first_of
  find_first_of_later c s i h = ground (arith, Option-cases (find_first_of d s))

  find_first_of_here : (c : ℕ) (s : Str) → find_first_of d (c ∷ s) ≡ some 0 → c ≡ d
  unfolding find_first_of
  find_first_of_here c s h = ground (arith, Option-cases (find_first_of d s))

  -- The text at the first delimiter.
  pub find_first_of_splits :
      (s : Str) (i : ℕ)
      → find_first_of d s ≡ some i
      → (s ≡ take i s ++ (d ∷ drop (suc i) s)) × Lacks d (take i s) × (length (take i s) ≡ i)
  find_first_of_splits [] i h = unfold find_first_of in cc
  find_first_of_splits (c ∷ s) zero h = (ap (λ x. x ∷ s) (find_first_of_here c s h), tt, refl)
  find_first_of_splits (c ∷ s) (suc i) h =
      let (n, later) = find_first_of_later c s i h in
      let (splits, word, len) = find_first_of_splits s i later in
      (ap (λ r. c ∷ r) splits, (n, word), ap suc len)

  -- Without a delimiter.
  pub Lacks-of_none : (s : Str) → find_first_of d s ≡ none → Lacks d s
  unfolding find_first_of
  Lacks-of_none [] h = tt
  Lacks-of_none (c ∷ s) h = elim (Bool-cases (c == d)) [
    | inl e ↦ cc (rw (e, find_first_of) at h)
    | inr n ↦ elim (Option-cases (find_first_of d s)) [
      | inl e ↦ (ne_of_== c d n, Lacks-of_none s e)
      | inr (i, e) ↦ cc (rw (e, find_first_of) at (rw (n, find_first_of) at h))
    ]
  ]

take_word : (w s : Str) → take (length w) (w ++ s) ≡ w
take_word [] s = refl
take_word (c ∷ w) s = ap (λ r. c ∷ r) (take_word w s)

drop_word : (w : Str) (c : ℕ) (s : Str) → drop (suc (length w)) (w ++ (c ∷ s)) ≡ s
drop_word [] c s = refl
drop_word (x ∷ w) c s = drop_word w c s

to_upper_ne_space : (c : ℕ) → c ≢ space → to_upper c ≢ space
unfolding to_upper
to_upper_ne_space c h e = h (ground arith)

pub Lacks-to_upper_case : (w : Str) → Lacks space w → Lacks space (to_upper_case w)
unfolding to_upper_case
Lacks-to_upper_case [] h = tt
Lacks-to_upper_case (c ∷ w) h = (to_upper_ne_space c h.0, Lacks-to_upper_case w h.1)

to_upper-to_upper : (c : ℕ) → to_upper (to_upper c) ≡ to_upper c
unfolding to_upper
to_upper-to_upper c = ground arith

pub to_upper_case-to_upper_case : (w : Str) → to_upper_case (to_upper_case w) ≡ to_upper_case w
unfolding to_upper_case
to_upper_case-to_upper_case [] = refl
to_upper_case-to_upper_case (c ∷ w) =
    ap (λ x. x ∷ to_upper_case (to_upper_case w)) (to_upper-to_upper c)
    ∙ ap (λ r. to_upper c ∷ r) (to_upper_case-to_upper_case w)

length-to_upper_case : (w : Str) → length (to_upper_case w) ≡ length w
unfolding to_upper_case
length-to_upper_case [] = refl
length-to_upper_case (c ∷ w) = ap suc (length-to_upper_case w)

-- A command and its argument, put together and taken apart.
pub split_command_lem :
    (w arg : Str) → Lacks space w → split_command (w ++ (space ∷ arg)) ≡ (w, arg)
unfolding split_command
split_command_lem w arg h =
    let at_word : find_first_of space (w ++ (space ∷ arg)) ≡ some (length w) =
      find_first_of_word space w arg h in
    let one : length w + 1 ≡ suc (length w) = omega arith in
    rw (at_word, split_command)
      (ap (λ x. (x, drop (length w + 1) (w ++ (space ∷ arg)))) (take_word w (space ∷ arg))
        ∙ ap (λ n. (w, drop n (w ++ (space ∷ arg)))) one
        ∙ ap (λ x. (w, x)) (drop_word w space arg))

-- The line is a word, a space and something more.
check_argument_typed :
    (w : Str) (x : ℕ) (arg : Str)
    → check_argument (w ++ (space ∷ x ∷ arg)) (length w)
      ≡ accepted (to_upper_case w ++ (space ∷ x ∷ arg))
unfolding check_argument
check_argument_typed w x arg =
    let line : Str = w ++ (space ∷ x ∷ arg) in
    let lengths : length line ≡ length w + length (space ∷ x ∷ arg) =
      length-append w (space ∷ x ∷ arg) in
    let longer : length line ≢ length w + 1 = λ e. absurd (omega arith) in
    let one : length w + 1 ≡ suc (length w) = omega arith in
    rw (==_ne (length line) (length w + 1) longer, check_argument)
      (ap (λ t. accepted (to_upper_case t ++ (space ∷ drop (length w + 1) line)))
          (take_word w (space ∷ x ∷ arg))
        ∙ ap (λ n. accepted (to_upper_case w ++ (space ∷ drop n line))) one
        ∙ ap (λ t. accepted (to_upper_case w ++ (space ∷ t))) (drop_word w space (x ∷ arg)))

pub check_input_typed :
    (w arg : Str)
    → Lacks space w
    → arg ≢ []
    → check_input (w ++ (space ∷ arg)) ≡ accepted (to_upper_case w ++ (space ∷ arg))
unfolding check_input
check_input_typed w [] h n = absurd (n refl)
check_input_typed w (x ∷ arg) h n =
    rw (find_first_of_word space w (x ∷ arg) h, check_input) (check_argument_typed w x arg)

-- The line is the first one that is read.
get_command_accepted :
    (l rest cmd : Str)
    → Lacks 10 l
    → check_input l ≡ accepted cmd
    → get_command (l ++ (10 ∷ rest)) ≡ some (cmd, rest, [])
unfolding get_command command_loop after_line
get_command_accepted l rest cmd h e =
    rw (read_line_lem l rest h, after_line) (rw (e, after_check) refl)

-- A line that is a word without a space, a space and a text that is not empty is read as a
-- command, whatever follows it in the input, and the command is taken apart into the word in
-- upper case and the text as it was typed.
pub get_command_typed :
    (w arg rest : Str)
    → Lacks space w
    → Lacks 10 (w ++ (space ∷ arg))
    → arg ≢ []
    → (get_command ((w ++ (space ∷ arg)) ++ (10 ∷ rest))
        ≡ some (to_upper_case w ++ (space ∷ arg), rest, []))
      × (split_command (to_upper_case w ++ (space ∷ arg)) ≡ (to_upper_case w, arg))
get_command_typed w arg rest h l n = (
  get_command_accepted (w ++ (space ∷ arg)) rest _ l (check_input_typed w arg h n),
  split_command_lem (to_upper_case w) arg (Lacks-to_upper_case w h),
)
