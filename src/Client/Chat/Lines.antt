-- ===== src/Client/Chat/Lines.antt =====
-- Posts that are typed one to a line.
use distributed_sns.Base.{
  ℕ, zero, suc, ◌≤◌, ◌<◌, ◌≡◌, refl, ◌∙◌, ap, ◌≢◌, List, [], ◌∷◌, ◌++◌, append_assoc, arith, Str,
  nat_eq, str_eq, ==_refl, ==_ne, length, All, length-append,
}
use distributed_sns.Base.Result.{ok, ◌>>=◌}
use distributed_sns.FsUtils.Paths.{Lacks}
use distributed_sns.Server.Text.{join_lines}
use distributed_sns.Client.Chat.{
  after_fgets, post_message_loop, get_post_message, write_post, writer_loop, written_posts,
  exit_chat,
}
use distributed_sns.Client.Chat.Reading.{fgets_line, message_in_line}

-- A post that can be typed as one line: the buffer has room for it and its newline.
pub record IsLine (m : Str) : Type 0 where
  pub not_empty : m ≢ []
  pub fits : length m < 255
  pub one_line : Lacks 10 m
  pub no_nul : Lacks 0 m

get_post_message_line :
    (m rest : Str) → IsLine m → get_post_message (m ++ (10 ∷ rest)) ≡ ok (m, rest)
unfolding get_post_message post_message_loop after_fgets
get_post_message_line [] rest h = absurd (h.not_empty refl)
get_post_message_line (c ∷ m) rest h = rw (fgets_line 255 (c ∷ m) rest h.fits h.one_line) (
    rw (==_ne c 10 h.one_line.0, after_fgets)
      (ap (λ x. ok (x, rest)) (message_in_line (c ∷ m) h.one_line h.no_nul)))

exit-IsLine : IsLine exit_chat
exit-IsLine = record {
  not_empty = λ e. cc;
  fits = omega arith;
  one_line = omega arith;
  no_nul = omega arith;
}

abbrev pub IsChatLine : Str → Type 0
IsChatLine m = IsLine m × (m ≢ exit_chat)

length-join_lines : (ps : List Str) → length ps ≤ length (join_lines ps)
unfolding join_lines
length-join_lines [] = omega arith
length-join_lines (p ∷ ps) =
    omega (arith, length-append p (10 ∷ join_lines ps), length-join_lines ps)

writer_loop_post :
    (f accepted : ℕ) (s m left : Str)
    → get_post_message s ≡ ok (m, left)
    → m ≢ exit_chat
    → writer_loop (suc f) (suc accepted) s
      ≡ (writer_loop f accepted left >>= λ (p : List Str × Str). ok (m ∷ p.0, p.1))
unfolding writer_loop
writer_loop_post f accepted s m left h on =
    rw (h, ◌>>=◌) (rw (==_ne m exit_chat on, write_post) refl)

writer_loop_exit :
    (f accepted : ℕ) (s left : Str)
    → get_post_message s ≡ ok (exit_chat, left)
    → writer_loop (suc f) accepted s ≡ ok ([], left)
unfolding writer_loop
writer_loop_exit f accepted s left h = rw (h, ◌>>=◌) (rw (==_refl exit_chat) refl)

-- The input that the posts make, with the word behind them that leaves the chat.
abbrev pub typed_lines : List Str → Str → Str
typed_lines ps rest = join_lines ps ++ (exit_chat ++ (10 ∷ rest))

get_post_message_lines :
    (p : Str) (ps : List Str) (rest : Str)
    → IsLine p
    → get_post_message (typed_lines (p ∷ ps) rest) ≡ ok (p, typed_lines ps rest)
unfolding join_lines
get_post_message_lines p ps rest h =
    ap get_post_message (append_assoc p (10 ∷ join_lines ps) (exit_chat ++ (10 ∷ rest)))
    ∙ get_post_message_line p (typed_lines ps rest) h

writer_loop-typed_lines :
    (f accepted : ℕ) (ps : List Str) (rest : Str)
    → All IsChatLine ps
    → length ps < f
    → length ps ≤ accepted
    → writer_loop f accepted (typed_lines ps rest) ≡ ok (ps, rest)
writer_loop-typed_lines zero accepted ps rest h l a = elim l [ ]
writer_loop-typed_lines (suc f) accepted [] rest h l a =
    unfold join_lines in
    writer_loop_exit f accepted _ rest (get_post_message_line exit_chat rest exit-IsLine)
writer_loop-typed_lines (suc f) zero (p ∷ ps) rest h l a = absurd (omega arith)
writer_loop-typed_lines (suc f) (suc accepted) (p ∷ ps) rest h l a =
    writer_loop_post f accepted (typed_lines (p ∷ ps) rest) p (typed_lines ps rest)
      (get_post_message_lines p ps rest h.0.0) h.0.1
    ∙ ap (λ r. r >>= λ (p' : List Str × Str). ok (p ∷ p'.0, p'.1))
        (writer_loop-typed_lines f accepted ps rest h.1 (omega arith) (omega arith))

-- Posts that are typed one to a line, each not empty, shorter than 255 bytes, without newline or
-- zero byte and other than the word that leaves the chat, and then that word: where the stream
-- takes that many posts, the writing thread ends with exactly these posts written and the input
-- behind the word left.
pub written_posts-typed_lines :
    (accepted : ℕ) (ps : List Str) (rest : Str)
    → All IsChatLine ps
    → length ps ≤ accepted
    → written_posts accepted (typed_lines ps rest) ≡ ok (ps, rest)
unfolding written_posts
written_posts-typed_lines accepted ps rest h a =
    writer_loop-typed_lines (suc (length (typed_lines ps rest))) accepted ps rest h
      (omega
        (arith, length-append (join_lines ps) (exit_chat ++ (10 ∷ rest)), length-join_lines ps))
      a
