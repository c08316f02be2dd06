-- ===== src/Server/Written.antt =====
-- The posts file as text: each post is a block of three lines with an empty line behind it.
use distributed_sns.Base.{
  ◌≡◌, refl, ◌≢◌, sym, ◌∙◌, ap, List, [], ◌∷◌, ◌++◌, append_assoc, arith, Str, codes, nat_eq,
  str_eq, All, All-append, map,
}
use distributed_sns.FsUtils.{split_string}
use distributed_sns.FsUtils.Paths.{
  Lacks, fields_of_token, fields_last, fields_at_delimiter, nonempty-cons,
}
use distributed_sns.FsUtils.Split.{fields, nonempty, split_string-fields}
use distributed_sns.FsUtils.Blocks.{line-IsTight, lines-IsTight, IsBlock, blocks}
use distributed_sns.Server.State.{LocalTime, Message}
use distributed_sns.Server.Text.{
  newline, timestamp_to_str, format_message_output, read_local, join_lines,
}
use distributed_sns.Server.Lines.{timestamp_to_str-IsWord, read_local-join_lines}
use distributed_sns.Server.Sessions.{IsLocalTime}

-- Three lines, the last without a newline.
abbrev block : Str → Str → Str → Str
block a b c = a ++ (newline ∷ (b ++ (newline ∷ c)))

assoc_block :
    (a u w rest : Str)
    → (codes "T "
          ++ (a
              ++ ((newline ∷ codes "U ")
                  ++ (u ++ ((newline ∷ codes "W ") ++ (w ++ (newline ∷ newline ∷ [])))))))
        ++ rest
      ≡ block (codes "T " ++ a) (codes "U " ++ u) (codes "W " ++ w) ++ (newline ∷ newline ∷ rest)
assoc_block a u w rest = simp append_assoc

module _ (tz : LocalTime) where
  abbrev pub time_line : Message → Str
  time_line m = codes "T " ++ timestamp_to_str tz m.timestamp

  abbrev pub author_line : Message → Str
  author_line m = codes "U " ++ m.username

  abbrev pub text_line : Message → Str
  text_line m = codes "W " ++ m.msg

  abbrev pub post_block : Message → Str
  post_block m = block (time_line m) (author_line m) (text_line m)

  -- A message without newlines, at a time that is printed and read back.
  abbrev pub IsPostable : Message → Type 0
  IsPostable m = Lacks newline m.username × Lacks newline m.msg × IsLocalTime tz m.timestamp

  time_line-Lacks : (m : Message) → Lacks newline (time_line m)
  time_line-Lacks m =
      All-append (λ x. x ≢ newline) (codes "T ") _ (omega arith)
        (timestamp_to_str-IsWord tz m.timestamp).2

  author_line-Lacks : (m : Message) → Lacks newline m.username → Lacks newline (author_line m)
  author_line-Lacks m h = All-append (λ x. x ≢ newline) (codes "U ") _ (omega arith) h

  text_line-Lacks : (m : Message) → Lacks newline m.msg → Lacks newline (text_line m)
  text_line-Lacks m h = All-append (λ x. x ≢ newline) (codes "W ") _ (omega arith) h

  post_block-IsBlock : (m : Message) → IsPostable m → IsBlock newline (post_block m)
  post_block-IsBlock m h = (
    b'T',
    _,
    refl,
    (λ e. absurd (omega arith)),
    lines-IsTight newline (time_line m) b'U' _ (time_line-Lacks m) (λ e. absurd (omega arith))
        (lines-IsTight newline (author_line m) b'W' _ (author_line-Lacks m h.0)
          (λ e. absurd (omega arith)) (line-IsTight newline (text_line m) (text_line-Lacks m h.1))),
  )

  format-block :
      (m : Message) (rest : Str)
      → format_message_output tz m ++ rest ≡ post_block m ++ (newline ∷ newline ∷ rest)
  unfolding format_message_output
  format-block m rest = assoc_block (timestamp_to_str tz m.timestamp) m.username m.msg rest

  -- The lines of a block, with or without a newline in front.
  pub split-block :
      (m : Message)
      → IsPostable m
      → split_string (post_block m) (newline ∷ []) ≡ time_line m ∷ author_line m ∷ text_line m ∷ []
  unfolding nonempty
  split-block m h =
      split_string-fields newline (post_block m)
      ∙ ap nonempty (
          fields_of_token newline (time_line m) (author_line m ++ (newline ∷ text_line m))
            (time_line-Lacks m)
          ∙ ap (λ r. time_line m ∷ r)
              (fields_of_token newline (author_line m) (text_line m) (author_line-Lacks m h.0)
                ∙ ap (λ r. author_line m ∷ r)
                    (fields_last newline (text_line m) (text_line-Lacks m h.1))))
      ∙ nonempty-cons (time_line m) (author_line m ∷ text_line m ∷ []) (λ e. cc)
      ∙ ap (λ r. time_line m ∷ r)
          (nonempty-cons (author_line m) (text_line m ∷ []) (λ e. cc)
            ∙ ap (λ r. author_line m ∷ r) (nonempty-cons (text_line m) [] (λ e. cc)))

  pub split-later_block :
      (b : Str) → split_string (newline ∷ b) (newline ∷ []) ≡ split_string b (newline ∷ [])
  unfolding nonempty
  split-later_block b =
      split_string-fields newline (newline ∷ b)
      ∙ ap nonempty (fields_at_delimiter newline b)
      ∙ sym (split_string-fields newline b)

  pub split_end : split_string (newline ∷ []) (newline ∷ []) ≡ []
  unfolding nonempty fields
  split_end = split-later_block [] ∙ split_string-fields newline []

  -- What is written for the posts.
  unfoldable pub posts_file : List Message → Str
  unfolding format_message_output
  posts_file [] = []
  posts_file (m ∷ ms) = format_message_output tz m ++ posts_file ms

  pub posts_file-blocks : (ms : List Message) → posts_file ms ≡ blocks newline (map post_block ms)
  unfolding posts_file blocks
  posts_file-blocks [] = refl
  posts_file-blocks (m ∷ ms) =
      format-block m (posts_file ms)
      ∙ ap (λ r. post_block m ++ (newline ∷ newline ∷ r)) (posts_file-blocks ms)

  pub posts-IsBlock :
      (ms : List Message) → All IsPostable ms → All (IsBlock newline) (map post_block ms)
  posts-IsBlock [] h = tt
  posts-IsBlock (m ∷ ms) h = (post_block-IsBlock m h.0, posts-IsBlock ms h.1)

  posts_lines : List Message → List Str
  posts_lines [] = []
  posts_lines (m ∷ ms) = time_line m ∷ author_line m ∷ text_line m ∷ [] ∷ posts_lines ms

  posts_lines-Lacks : (ms : List Message) → All IsPostable ms → All (Lacks newline) (posts_lines ms)
  unfolding posts_lines
  posts_lines-Lacks [] h = tt
  posts_lines-Lacks (m ∷ ms) h = (
    time_line-Lacks m,
    (author_line-Lacks m h.0.0, (text_line-Lacks m h.0.1, (tt, posts_lines-Lacks ms h.1))),
  )

  posts_file-lines : (ms : List Message) → posts_file ms ≡ join_lines (posts_lines ms)
  unfolding posts_file posts_lines join_lines
  posts_file-lines [] = refl
  posts_file-lines (m ∷ ms) =
      format-block m (posts_file ms) ∙ rw (posts_file-lines ms) (simp append_assoc)

  pub read_local-posts_file :
      (ms : List Message) → All IsPostable ms → read_local (posts_file ms) ≡ posts_file ms
  read_local-posts_file ms h =
      ap read_local (posts_file-lines ms)
      ∙ read_local-join_lines (posts_lines ms) (posts_lines-Lacks ms h)
      ∙ sym (posts_file-lines ms)
