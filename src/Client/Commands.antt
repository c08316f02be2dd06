-- ===== src/Client/Commands.antt =====
-- The commands: reading one from standard input, sending it, and printing the answer.
pub mod Typed
pub mod Accepted
use distributed_sns.Base.{
  ℕ, zero, suc, ◌+◌, Bool, true, false, ◌&&◌, ◌||◌, Option, none, some, List, [], ◌∷◌, ◌++◌, Str,
  codes, ◌==◌, nat_eq, str_eq, if◌then◌else◌, length, take, drop,
}
use distributed_sns.Base.Result.{Result, ok, err, blocked, uninitialised, ◌>>=◌}
use distributed_sns.Server.State.{LocalTime, SnsStatus, success}
use distributed_sns.Client.State.{
  GrpcStatus, grpc_ok, grpc_failed, IReply, declared_reply, empty_reply, Services,
}
use distributed_sns.Client.Text.{to_upper_case, find_first_of, read_line, print_with_separator}
use distributed_sns.Client.Rpc.{send_list, send_follow, send_unfollow}
use distributed_sns.Client.Chat.{process_timeline}

abbrev pub space : ℕ
space = b' '

abbrev pub list_command : Str
list_command = codes "LIST"

abbrev pub timeline_command : Str
timeline_command = codes "TIMELINE"

-- A line of the input: the command that it is, or what is printed of it.
pub data Checked : Type 0 where
  accepted rejected : Str → Checked

-- A line with a space at this index: there must be more behind it.
unfoldable pub check_argument : Str → ℕ → Checked
unfolding to_upper_case
check_argument input index =
    if length input == index + 1
    then rejected (codes "Invalid Input -- No Arguments Given\n")
    else accepted (to_upper_case (take index input) ++ (space ∷ drop (index + 1) input))

-- A line without a space.
unfoldable pub check_word : Str → Checked
unfolding to_upper_case
check_word input =
    if to_upper_case input == list_command || to_upper_case input == timeline_command
    then accepted (to_upper_case input)
    else rejected (codes "Invalid Command\n")

unfoldable pub check_input : Str → Checked
unfolding check_argument check_word find_first_of
check_input input = elim (find_first_of space input) [
  | some index ↦ check_argument input index
  | none ↦ check_word input
]

-- A command, what is left of the input, and what is printed of the lines before.
abbrev pub Read : Type 0
Read = Option (Str × Str × List Str)

unfoldable pub after_check : (Str → Read) → Str → Checked → Read
after_check again left (accepted cmd) = some (cmd, left, [])
after_check again left (rejected why) = elim (again left) [
  | none ↦ none
  | some (cmd, rest, printed) ↦ some (cmd, rest, why ∷ printed)
]

unfoldable pub after_line : (Str → Read) → Option (Str × Str) → Read
unfolding after_check check_input
after_line again none = none
after_line again (some (line, left)) = after_check again left (check_input line)

-- The loop of `getCommand`. After the end of the input no line is accepted, and it does not end.
unfoldable pub command_loop : ℕ → Str → Read
unfolding after_line read_line
command_loop zero stdin = none
command_loop (suc fuel) stdin = after_line (command_loop fuel) (read_line stdin)

unfoldable pub get_command : Str → Read
unfolding command_loop
get_command stdin = command_loop (suc (length stdin)) stdin

-- The word of a command and its argument.
unfoldable pub split_command : Str → Str × Str
unfolding find_first_of
split_command input = elim (find_first_of space input) [
  | none ↦ (input, [])
  | some loc ↦ (take loc input, drop (loc + 1) input)
]

module _ {W : Type 0} (services : Services W) (username : Str) where
  -- A word that is none of the commands leaves the answer as it was declared.
  unfoldable pub dispatch : Str → Str → W → W × IReply × List Str
  unfolding send_list send_follow send_unfollow
  dispatch cmd arg w =
      if cmd == codes "FOLLOW"
      then (let (w, ire) = send_follow services username arg w in (w, ire, []))
      else if cmd == codes "UNFOLLOW"
      then (let (w, ire) = send_unfollow services username arg w in (w, ire, []))
      else if cmd == list_command
      then (let (w, ire) = send_list services username w in (w, ire, []))
      else if cmd == timeline_command
      then (w, empty_reply, [])
      else (w, declared_reply, codes "Invalid command\n" ∷ [])

  unfoldable pub process_command : Str → W → W × IReply × List Str
  unfolding dispatch split_command
  process_command input w = let (cmd, arg) = split_command input in dispatch cmd arg w

abbrev pub output_sep : Str
output_sep = codes "---\n"

unfoldable pub display_lists : Str → IReply → List Str
unfolding print_with_separator
display_lists username reply =
    (codes "Me: " ++ (username ++ codes "\n"))
    ∷ (codes "All users: " ++ print_with_separator reply.all_users (codes ", "))
    ∷ (codes "Followers: " ++ print_with_separator reply.followers (codes ", "))
    ∷ (codes "Following: " ++ print_with_separator reply.following (codes ", "))
    ∷ output_sep
    ∷ []

abbrev pub display_message : IReply → List Str
display_message reply = (reply.comm_msg ++ codes "\n") ∷ output_sep ∷ []

-- The answer to a call that the server answered. The switch reads the status.
unfoldable pub display_answered : Str → Str → IReply → Result (List Str)
unfolding display_lists
display_answered username comm reply = elim reply.comm_status [
  | none ↦ err uninitialised
  | some success ↦
      ok (if comm == list_command then display_lists username reply else display_message reply)
  | some _ ↦ ok (display_message reply)
]

unfoldable pub display_command_reply : Str → Str → IReply → Result (List Str)
unfolding display_answered
display_command_reply username comm reply = elim reply.grpc_status [
  | grpc_ok ↦ display_answered username comm reply
  | grpc_failed _ msg ↦ ok ((codes "grpc failed: " ++ (msg ++ codes "\n")) ∷ [])
]

abbrev is_ok : GrpcStatus → Bool
is_ok grpc_ok = true
is_ok (grpc_failed _ _) = false

-- One round of `runClientBash` after the command is read.
unfoldable pub bash_round :
    {W : Type 0} → Services W → LocalTime → Str → Str → Str → W → Result (W × Str × List Str)
unfolding process_command display_command_reply process_timeline
bash_round services tz username cmd stdin w = do
  let (w, reply, printed) = process_command services username cmd w
  shown ← display_command_reply username cmd reply
  if is_ok reply.grpc_status && cmd == timeline_command
      then (do
        (w, left, chatted) ← process_timeline services tz username stdin w
        ok (w, left, printed ++ (shown ++ chatted)))
      else ok (w, stdin, printed ++ shown)

-- `runClientBash`, up to the end of the input: from there on the loop prints for ever.
unfoldable pub bash_loop :
    {W : Type 0} → ℕ → Services W → LocalTime → Str → Str → W → Result (W × List Str)
unfolding get_command bash_round
bash_loop zero services tz username stdin w = err blocked
bash_loop (suc fuel) services tz username stdin w = elim (get_command stdin) [
  | none ↦ ok (w, [])
  | some (cmd, left, printed) ↦ do
    (w, left, shown) ← bash_round services tz username cmd left w
    (w, more) ← bash_loop fuel services tz username left w
    ok (w, printed ++ (shown ++ more))
]

-- Each round takes a byte of the input at least.
unfoldable pub run_client_bash :
    {W : Type 0} → Services W → LocalTime → Str → Str → W → Result (W × List Str)
unfolding bash_loop
run_client_bash services tz username stdin w =
    bash_loop (suc (length stdin)) services tz username stdin w
