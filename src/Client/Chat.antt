-- ===== src/Client/Chat.antt =====
-- The chat: `getPostMessage`, and the two threads of `Timeline`, of which one writes what is typed
-- and the other prints what comes.
pub mod Reading
pub mod Taken
pub mod Posts
pub mod Lines
use distributed_sns.Base.{
  ℕ, zero, suc, true, false, List, [], ◌∷◌, ◌++◌, Str, codes, ◌==◌, nat_eq, str_eq, if◌then◌else◌,
  length,
}
use distributed_sns.Base.Int.{ℤ}
use distributed_sns.Base.Result.{Result, ok, err, uninitialised, ◌>>=◌}
use distributed_sns.Server.State.{LocalTime, Message}
use distributed_sns.Client.State.{GrpcStatus, grpc_ok, grpc_failed, Services, make_message}
use distributed_sns.Client.Text.{fgets, before_byte, two_digits}

abbrev pub max_data : ℕ
max_data = 256

abbrev pub chat_input : Str
chat_input = codes "> "

abbrev pub exit_chat : Str
exit_chat = codes "exit"

-- `string message(buf)`, after the newline in the buffer is overwritten: `strchr` and the
-- constructor both stop at a byte 0.
unfoldable pub message_in : Str → Str
unfolding before_byte
message_in buf = before_byte 0 (before_byte 10 buf)

-- What is done with a buffer. Empty lines are skipped. At the end of the input `fgets` sets nothing,
-- and the buffer is read as it is.
unfoldable pub after_fgets : (Str → Result (Str × Str)) → Str × Str → Result (Str × Str)
unfolding message_in
after_fgets again ([], left) = err uninitialised
after_fgets again (c ∷ s, left) = elim (c == 10) [
  | true ↦ again left
  | false ↦ ok (message_in (c ∷ s), left)
]

unfoldable pub post_message_loop : ℕ → Str → Result (Str × Str)
unfolding after_fgets fgets
post_message_loop zero stdin = err uninitialised
post_message_loop (suc fuel) stdin = after_fgets (post_message_loop fuel) (fgets 255 stdin)

-- Each read takes a byte at least.
unfoldable pub get_post_message : Str → Result (Str × Str)
unfolding post_message_loop
get_post_message stdin = post_message_loop (suc (length stdin)) stdin

-- A post goes into the stream, where the stream takes it.
unfoldable pub write_post :
    (ℕ → Str → Result (List Str × Str)) → Str → ℕ → Str → Result (List Str × Str)
write_post again m zero left = ok ([], left)
write_post again m (suc accepted) left = do (ms, rest) ← again accepted left; ok (m ∷ ms, rest)

-- The loop of the writing thread: the posts that are written, and what is left of the input.
unfoldable pub writer_loop : ℕ → ℕ → Str → Result (List Str × Str)
unfolding get_post_message write_post
writer_loop zero accepted stdin = err uninitialised
writer_loop (suc fuel) accepted stdin = do
  (m, left) ← get_post_message stdin
  elim (m == exit_chat) [
    | true ↦ ok ([], left)
    | false ↦ write_post (writer_loop fuel) m accepted left
  ]

unfoldable pub written_posts : ℕ → Str → Result (List Str × Str)
unfolding writer_loop
written_posts accepted stdin = writer_loop (suc (length stdin)) accepted stdin

unfoldable pub display_post_message : LocalTime → Message → Str
unfolding two_digits
display_post_message tz m =
    let tm = tz.localtime m.timestamp.seconds in
    m.username
    ++ (codes " ("
        ++ (two_digits tm.hour
            ++ (codes ":" ++ (two_digits tm.minute ++ (codes "): " ++ (m.msg ++ (10 ∷ [])))))))

-- The loop of the reading thread.
unfoldable pub display_posts : LocalTime → List Message → List Str
unfolding display_post_message
display_posts tz [] = []
display_posts tz (m ∷ ms) = display_post_message tz m ∷ display_posts tz ms

-- The messages with the times at which they are made.
unfoldable pub timed_messages : (ℕ → ℤ) → Str → ℕ → List Str → List Message
timed_messages time username n [] = []
timed_messages time username n (m ∷ ms) =
    make_message (time n) username m ∷ timed_messages time username (suc n) ms

stream_end : GrpcStatus → List Str
stream_end grpc_ok = []
stream_end (grpc_failed _ _) = codes "Timeline gRPC failed...\n" ∷ []

-- `Timeline`: an empty message comes first, which tells the server whose stream it is.
unfoldable pub chat :
    {W : Type 0} → Services W → LocalTime → Str → Str → W → Result (W × Str × List Str)
unfolding written_posts timed_messages display_posts stream_end
chat services tz username stdin w = do
  (posts, left) ← written_posts (services.accepted_writes w) stdin
  let (w', status, received) =
      services.timeline_rpc (timed_messages (services.message_time w) username 0 ([] ∷ posts)) w
  ok (w', left, display_posts tz received ++ stream_end status)

unfoldable pub process_timeline :
    {W : Type 0} → Services W → LocalTime → Str → Str → W → Result (W × Str × List Str)
unfolding chat
process_timeline services tz username stdin w = do
  (w, left, printed) ← chat services tz username stdin w
  ok (
    w,
    left,
    codes "### Entering chat ###\n"
        ∷ codes "Type 'exit' to exit chat.\n"
        ∷ (printed ++ (codes "### Exiting chat ###\n" ∷ [])),
  )
