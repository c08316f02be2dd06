-- ===== src/Client/Chat/Taken.antt =====
-- What one read of a post takes of what is typed in the chat.
use mathlib.Core.Path.{subst}
use distributed_sns.Base.{
  ℕ, zero, suc, ◌+◌, ◌≤◌, ◌≡◌, refl, ◌∙◌, sym, ap, ◌≢◌, inl, inr, [], ◌∷◌, ◌++◌, append_assoc,
  arith, Str, ◌==◌, nat_eq, str_eq, ==_ne, eq_of_==, ne_of_==, Bool-cases, if◌then◌else◌, length,
  length-append,
}
use distributed_sns.Base.Result.{Result, ok}
use distributed_sns.FsUtils.Paths.{Lacks}
use distributed_sns.Client.Text.{fgets}
use distributed_sns.Client.Chat.{message_in, after_fgets, post_message_loop, get_post_message}
use distributed_sns.Client.Chat.Reading.{
  Ends, fgets-Ends, message_in_line, message_in_piece, Lacks-split,
}

-- A text without its newlines.
unfoldable pub typed : Str → Str
typed [] = []
typed (c ∷ s) = let rest = typed s in if c == 10 then rest else c ∷ rest

typed-append : (s t : Str) → typed (s ++ t) ≡ typed s ++ typed t
unfolding typed
typed-append [] t = refl
typed-append (c ∷ s) t = elim (Bool-cases (c == 10)) [
  | inl e ↦ rw (e, typed) (typed-append s t)
  | inr e ↦ rw (e, typed) (ap (λ r. c ∷ r) (typed-append s t))
]

typed_whole : (s : Str) → Lacks 10 s → typed s ≡ s
unfolding typed
typed_whole [] h = refl
typed_whole (c ∷ s) h = rw (==_ne c 10 h.0, typed) (ap (λ r. c ∷ r) (typed_whole s h.1))

typed_newline : (s : Str) → typed (10 ∷ s) ≡ typed s
unfolding typed nat_eq
typed_newline s = refl

-- A post: not empty, in one line, and short enough for the buffer.
pub record IsPost (m : Str) : Type 0 where
  pub not_empty : m ≢ []
  pub one_line : Lacks 10 m
  pub fits : length m ≤ 255

-- What one read of a message takes: a post, which is what was typed before `left`.
abbrev pub Takes : Str → Str → Str → Type 0
Takes s m left = IsPost m × (typed s ≡ m ++ typed left) × Lacks 0 left

line_post :
    (t left : Str)
    → t ≢ []
    → length t ≤ 255
    → Lacks 10 t
    → Lacks 0 t
    → Lacks 0 left
    → Takes ((t ++ (10 ∷ [])) ++ left) (message_in (t ++ (10 ∷ []))) left
line_post t left n fits l z zl = rw (message_in_line t l z) (
  record { not_empty = n; one_line = l; fits = fits },
  ap typed (append_assoc t (10 ∷ []) left)
      ∙ typed-append t (10 ∷ left)
      ∙ ap (λ r. r ++ typed (10 ∷ left)) (typed_whole t l)
      ∙ ap (λ r. t ++ r) (typed_newline left),
  zl,
)

-- A buffer that does not begin with a newline.
buffer_post :
    (c : ℕ) (buf left : Str)
    → c ≢ 10
    → length (c ∷ buf) ≤ 255
    → Lacks 0 (c ∷ buf)
    → Lacks 0 left
    → Ends 255 (c ∷ buf) left
    → Takes ((c ∷ buf) ++ left) (message_in (c ∷ buf)) left
buffer_post c buf left n fits z zl (inl ([], e, l)) = absurd (n (ground arith))
buffer_post c buf left n fits z zl (inl (x ∷ t, e, l)) =
    let whole : Lacks 0 ((x ∷ t) ++ (10 ∷ [])) = subst (Lacks 0) e z in
    let lengths : length (c ∷ buf) ≡ length (x ∷ t) + 1 =
      ap length e ∙ length-append (x ∷ t) (10 ∷ []) in
    subst (λ b. Takes (b ++ left) (message_in b) left) (sym e)
      (line_post (x ∷ t) left (λ f. cc) (omega arith) l (Lacks-split 0 (x ∷ t) (10 ∷ []) whole).0
        zl)
buffer_post c buf left n fits z zl (inr (l, _)) = rw (message_in_piece (c ∷ buf) l z) (
  record { not_empty = λ f. cc; one_line = l; fits = fits },
  typed-append (c ∷ buf) left ∙ ap (λ r. r ++ typed left) (typed_whole (c ∷ buf) l),
  zl,
)

-- A buffer that begins with a newline holds nothing else.
newline_alone : (c : ℕ) (buf left : Str) → c ≡ 10 → Ends 255 (c ∷ buf) left → c ∷ buf ≡ 10 ∷ []
newline_alone c buf left e (inl ([], h, l)) = h
newline_alone c buf left e (inl (x ∷ t, h, l)) = absurd (l.0 (ground arith))
newline_alone c buf left e (inr (l, _)) = absurd (l.0 e)

-- What is taken of a text that was read as a buffer and a rest.
after_fgets-Takes :
    (again : Str → Result (Str × Str)) (s m left : Str) (p : Str × Str)
    → s ≡ p.0 ++ p.1
    → length p.0 ≤ 255
    → Ends 255 p.0 p.1
    → ((s' : Str) → Lacks 0 s' → again s' ≡ ok (m, left) → Takes s' m left)
    → Lacks 0 s
    → after_fgets again p ≡ ok (m, left)
    → Takes s m left
unfolding after_fgets
after_fgets-Takes again s m left ([], s') splits fits ends more z h = cc
after_fgets-Takes again s m left (c ∷ buf, s') splits fits ends more z h =
    let (zb, zl) = Lacks-split 0 (c ∷ buf) s' (subst (Lacks 0) splits z) in
    elim (Bool-cases (c == 10)) [
      | inl nl ↦
          let (post, t, zr) = more s' zl (rw (nl, after_fgets) at h) in
          let alone : c ∷ buf ≡ 10 ∷ [] = newline_alone c buf s' (eq_of_== c 10 nl) ends in
          (post, ap typed (splits ∙ ap (λ b. b ++ s') alone) ∙ typed_newline s' ∙ t, zr)
      | inr n ↦
          let taken : Takes s (message_in (c ∷ buf)) s' =
            rw splits (buffer_post c buf s' (ne_of_== c 10 n) fits zb zl ends) in
          let same : ◌≡◌ {A = Result (Str × Str)} (ok (message_in (c ∷ buf), s')) (ok (m, left)) =
            rw (n, after_fgets) at h in
          let m_same : message_in (c ∷ buf) ≡ m = cc in
          let left_same : s' ≡ left = cc in
          subst (λ x. Takes s x left) m_same
            (subst (λ x. Takes s (message_in (c ∷ buf)) x) left_same taken)
    ]

-- The loop skips newlines before the post.
post_message_loop-Takes :
    (f : ℕ) (s m left : Str) → Lacks 0 s → post_message_loop f s ≡ ok (m, left) → Takes s m left
unfolding post_message_loop
post_message_loop-Takes zero s m left z h = cc
post_message_loop-Takes (suc f) s m left z h =
    let (splits, fits, ends) = fgets-Ends 255 s in
    after_fgets-Takes (post_message_loop f) s m left (fgets 255 s) splits fits ends
      (λ s'. post_message_loop-Takes f s' m left) z h

pub get_post_message-Takes :
    (s m left : Str) → Lacks 0 s → get_post_message s ≡ ok (m, left) → Takes s m left
unfolding get_post_message
get_post_message-Takes s m left = post_message_loop-Takes (suc (length s)) s m left
