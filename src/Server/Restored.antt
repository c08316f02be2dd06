-- ===== src/Server/Restored.antt =====
-- The posts file, read again: what `formatMessageOutput` writes is taken apart into the posts.
use distributed_sns.Base.{
  ℕ, ◌≡◌, refl, sym, ◌∙◌, ap, Bool, true, Option, List, [], ◌∷◌, ◌++◌, append_assoc, append-nil,
  arith, Str, nat_eq, str_eq, All, map,
}
use distributed_sns.Base.Result.{Result, ok, ◌>>=◌, >>=-ext, >>=-eq-ok}
use distributed_sns.FsUtils.Blocks.{later_tokens, tokens_of, split_string-blocks}
use distributed_sns.Server.State.{LocalTime, Message, Server}
use distributed_sns.Server.Text.{newline, timestamp_to_str, format_message_output, read_local}
use distributed_sns.Server.Clients.{get_client, not_null, client_at}
use distributed_sns.Server.Posts.{add_post_helper, open_streams, get_log}
use distributed_sns.Server.Replay.{after_tag, process_post, process_posts, update_posts_from_file}
use distributed_sns.Server.Sessions.{read_back}
use distributed_sns.Server.Written.{
  time_line, author_line, text_line, post_block, IsPostable, split-block, split-later_block,
  split_end, posts_file, posts_file-blocks, posts-IsBlock, read_local-posts_file,
}

behind_tag : (x y : ℕ) (t : Str) → after_tag (x ∷ y ∷ t) ≡ ok t
behind_tag x y t = ground arith

same_posts : (x y : Server) → ◌≡◌ {A = Result Server} (ok x) (ok y) → y.posts ≡ x.posts
same_posts x y e = let same : x ≡ y = cc in sym (ap (λ z. z.posts) same)

module _ (tz : LocalTime) where
  -- The posts are added one after another.
  unfoldable pub add_posts : List Message → Bool → Server → Result Server
  unfolding add_post_helper get_client
  add_posts [] save s = ok s
  add_posts (m ∷ ms) save s = do
    s ← add_post_helper tz m (get_client s.clients s.client_db m.username) save s
    add_posts ms save s

  process-block :
      (m : Message) (save : Bool) (s : Server)
      → IsPostable tz m
      → process_post tz save (time_line tz m ∷ author_line tz m ∷ text_line tz m ∷ []) s
        ≡ add_post_helper tz m (get_client s.clients s.client_db m.username) save s
  unfolding process_post
  process-block m save s h =
      rw
        (
          behind_tag b'T' b' ' (timestamp_to_str tz m.timestamp),
          read_back tz m.timestamp h.2,
          behind_tag b'U' b' ' m.username,
          behind_tag b'W' b' ' m.msg,
        )
        refl

  process_later :
      (ms : List Message) (save : Bool) (s : Server)
      → All (IsPostable tz) ms
      → process_posts tz save (later_tokens newline (map (post_block tz) ms)) s
        ≡ add_posts ms save s
  unfolding process_posts later_tokens add_posts process_post
  process_later [] save s h = rw (split_end tz) refl
  process_later (m ∷ ms) save s h =
      rw (split-later_block tz (post_block tz m), split-block tz m h.0)
        (rw (process-block m save s h.0) (
          >>=-ext (add_post_helper tz m (get_client s.clients s.client_db m.username) save s)
            (process_posts tz save (later_tokens newline (map (post_block tz) ms)))
            (add_posts ms save) (λ s'. process_later ms save s' h.1)))

  process_tokens :
      (ms : List Message) (save : Bool) (s : Server)
      → All (IsPostable tz) ms
      → process_posts tz save (tokens_of newline (map (post_block tz) ms)) s ≡ add_posts ms save s
  unfolding process_posts tokens_of add_posts
  process_tokens [] save s h = refl
  process_tokens (m ∷ ms) save s h = rw (split-block tz m h.0) (
      rw (process-block m save s h.0) (
        >>=-ext (add_post_helper tz m (get_client s.clients s.client_db m.username) save s)
          (process_posts tz save (later_tokens newline (map (post_block tz) ms)))
          (add_posts ms save) (λ s'. process_later ms save s' h.1)))

  update_posts-posts_file :
      (ms : List Message) (save : Bool) (s : Server)
      → All (IsPostable tz) ms
      → update_posts_from_file tz (posts_file tz ms) save s ≡ add_posts ms save s
  unfolding update_posts_from_file
  update_posts-posts_file ms save s h =
      rw
        (
          posts_file-blocks tz ms,
          split_string-blocks newline (map (post_block tz) ms) (posts-IsBlock tz ms h),
        )
        (process_tokens ms save s h)

  add_post_helper-posts :
      (m : Message) (client : Option ℕ) (s s' : Server)
      → add_post_helper tz m client true s ≡ ok s'
      → s'.posts ≡ s.posts ++ format_message_output tz m
  unfolding add_post_helper
  add_post_helper-posts m client s s' e =
      let (a, e₁, h₁) = >>=-eq-ok (not_null client) _ e in
      let (c, e₂, h₂) = >>=-eq-ok (client_at s.clients a) _ h₁ in
      let (streams, e₃, h₃) = >>=-eq-ok (open_streams s.clients c.client_followers) _ h₂ in
      same_posts _ s' h₃

  -- What a server writes while it adds posts.
  add_posts-posts :
      (ms : List Message) (s s' : Server)
      → add_posts ms true s ≡ ok s'
      → s'.posts ≡ s.posts ++ posts_file tz ms
  unfolding add_posts posts_file
  add_posts-posts [] s s' e = same_posts s s' e ∙ sym (append-nil s.posts)
  add_posts-posts (m ∷ ms) s s' e =
      let (s₁, e₁, h₁) =
        >>=-eq-ok (add_post_helper tz m (get_client s.clients s.client_db m.username) true s) _ e in
      add_posts-posts ms s₁ s' h₁
      ∙ ap (λ r. r ++ posts_file tz ms) (add_post_helper-posts m _ s s₁ e₁)
      ∙ append_assoc s.posts (format_message_output tz m) (posts_file tz ms)

  -- Where a server with an empty posts file adds messages one after another and writes them, and no
  -- author and no text has a newline in it, and the time zone prints each time and reads it back:
  -- any server that reads the posts from the log that `GetLog` returns does just what it does when
  -- it adds the same messages one after another.
  pub sync_posts :
      (ms : List Message) (s s' other : Server) (save : Bool)
      → All (IsPostable tz) ms
      → s.posts ≡ []
      → add_posts ms true s ≡ ok s'
      → update_posts_from_file tz (get_log s').log_posts save other ≡ add_posts ms save other
  unfolding get_log
  sync_posts ms s s' other save h empty e =
      ap (λ f. update_posts_from_file tz (read_local f) save other)
        (add_posts-posts ms s s' e ∙ ap (λ f. f ++ posts_file tz ms) empty)
      ∙ ap (λ f. update_posts_from_file tz f save other) (read_local-posts_file tz ms h)
      ∙ update_posts-posts_file ms save other h
