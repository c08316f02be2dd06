-- ===== src/Client/Chat/Posts.antt =====
-- The posts that are written of what is typed in the chat.
use mathlib.Core.Path.{subst}
use distributed_sns.Base.{
  ℕ, zero, suc, ◌≡◌, refl, ◌∙◌, sym, ap, ◌≢◌, ◌⊎◌, inl, inr, Bool, true, false, List, [], ◌∷◌, ◌++◌,
  append_assoc, Str, ◌==◌, nat_eq, str_eq, eq_of_==, ne_of_==, length, All,
}
use distributed_sns.Base.Result.{Result, ok, >>=-eq-ok}
use distributed_sns.FsUtils.Paths.{Lacks}
use distributed_sns.Client.Chat.{
  get_post_message, write_post, writer_loop, written_posts, exit_chat,
}
use distributed_sns.Client.Chat.Taken.{typed, IsPost, get_post_message-Takes}

unfoldable pub concat : List Str → Str
concat [] = []
concat (m ∷ ms) = m ++ concat ms

-- The posts that are written of what is typed. After the last of them comes the word that leaves
-- the chat, or a post that the stream does not take.
pub record IsTyped (accepted : ℕ) (s : Str) (ms : List Str) (left : Str) : Type 0 where
  pub posts : All (λ m. IsPost m × (m ≢ exit_chat)) ms
  pub last : Str
  pub in_order : typed s ≡ concat ms ++ (last ++ typed left)
  pub stops : (last ≡ exit_chat) ⊎ (IsPost last × (length ms ≡ accepted))

-- What follows `m`, in terms of what the loop does from there on.
abbrev Goes : (ℕ → Str → Result (List Str × Str)) → Str → Str → Type 0
Goes again s left = (n : ℕ) (ns : List Str) → again n s ≡ ok (ns, left) → IsTyped n s ns left

-- The loop stops behind `m`.
stops-IsTyped :
    (accepted : ℕ) (s m s' : Str) (ms : List Str) (left : Str)
    → typed s ≡ m ++ typed s'
    → (m ≡ exit_chat) ⊎ (IsPost m × (0 ≡ accepted))
    → ◌≡◌ {A = Result (List Str × Str)} (ok ([], s')) (ok (ms, left))
    → IsTyped accepted s ms left
unfolding concat
stops-IsTyped accepted s m s' ms left t why h =
    let none_written : [] ≡ ms = cc in
    let same : s' ≡ left = cc in
    subst (λ x. IsTyped accepted s x left) none_written
      (subst (IsTyped accepted s []) same
        (record { posts = tt; last = m; in_order = t; stops = why }))

more-IsTyped :
    (n : ℕ) (s m s' : Str) (ns : List Str) (left : Str)
    → IsPost m
    → m ≢ exit_chat
    → typed s ≡ m ++ typed s'
    → IsTyped n s' ns left
    → IsTyped (suc n) s (m ∷ ns) left
unfolding concat
more-IsTyped n s m s' ns left post on t h = record {
  posts = ((post, on), h.posts);
  last = h.last;
  in_order =
      t ∙ ap (λ r. m ++ r) h.in_order ∙ sym (append_assoc m (concat ns) (h.last ++ typed left));
  stops = elim h.stops [ inl e ↦ inl e | inr (p, e) ↦ inr (p, ap suc e) ];
}

write_post-IsTyped :
    (again : ℕ → Str → Result (List Str × Str)) (accepted : ℕ) (s m s' : Str) (ms : List Str)
    → (left : Str) → IsPost m
    → m ≢ exit_chat
    → typed s ≡ m ++ typed s'
    → Goes again s' left
    → write_post again m accepted s' ≡ ok (ms, left)
    → IsTyped accepted s ms left
unfolding write_post
write_post-IsTyped again zero s m s' ms left post on t more h =
    stops-IsTyped 0 s m s' ms left t (inr (post, refl)) h
write_post-IsTyped again (suc n) s m s' ms left post on t more h =
    let ((ns, rest), run, done) =
      >>=-eq-ok (again n s') (λ (p : List Str × Str). ok (m ∷ p.0, p.1)) h in
    let rest_same : rest ≡ left = cc in
    let written : m ∷ ns ≡ ms = cc in
    subst (λ x. IsTyped (suc n) s x left) written
      (more-IsTyped n s m s' ns left post on t (more n ns (run ∙ ap (λ x. ok (ns, x)) rest_same)))

after_read-IsTyped :
    (again : ℕ → Str → Result (List Str × Str)) (accepted : ℕ) (s m s' : Str) (ms : List Str)
    → (left : Str) (bye : Bool) → (m == exit_chat) ≡ bye
    → IsPost m
    → typed s ≡ m ++ typed s'
    → Goes again s' left
    → (elim bye [ true ↦ ok ([], s') | false ↦ write_post again m accepted s' ]) ≡ ok (ms, left)
    → IsTyped accepted s ms left
after_read-IsTyped again accepted s m s' ms left true e post t more h =
    stops-IsTyped accepted s m s' ms left t (inl (eq_of_== m exit_chat e)) h
after_read-IsTyped again accepted s m s' ms left false e post t more h =
    write_post-IsTyped again accepted s m s' ms left post (ne_of_== m exit_chat e) t more h

writer_loop-IsTyped :
    (f accepted : ℕ) (s : Str) (ms : List Str) (left : Str)
    → Lacks 0 s
    → writer_loop f accepted s ≡ ok (ms, left)
    → IsTyped accepted s ms left
unfolding writer_loop
writer_loop-IsTyped zero accepted s ms left z h = cc
writer_loop-IsTyped (suc f) accepted s ms left z h =
    let ((m, s'), read, then_) = >>=-eq-ok (get_post_message s) _ h in
    let (post, t, zl) = get_post_message-Takes s m s' z read in
    after_read-IsTyped (writer_loop f) accepted s m s' ms left (m == exit_chat) refl post t
      (λ n ns e. writer_loop-IsTyped f n s' ns left zl e) then_

-- Where the writing thread of the chat comes to its end on an input without zero bytes: each post
-- that it has written is not empty, is at most 255 bytes long, has no newline in it, and is not
-- the word that leaves the chat; what was typed, but for the newlines, is the posts one after the
-- other, then that word or a post that the stream did not take, and then the input that is left;
-- in the second case the stream has taken as many posts as it could.
pub written_posts-IsTyped :
    (accepted : ℕ) (s : Str) (ms : List Str) (left : Str)
    → Lacks 0 s
    → written_posts accepted s ≡ ok (ms, left)
    → IsTyped accepted s ms left
unfolding written_posts
written_posts-IsTyped accepted s = writer_loop-IsTyped (suc (length s)) accepted s
