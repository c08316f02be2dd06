-- ===== src/Server/Replay.antt =====
-- How a server takes over the files of another server, or its own: `processUserInfoFromFile` and
-- `updatePostsFromFile`.
use distributed_sns.Base.{
  ℕ, Bool, true, false, Option, none, some, List, [], ◌∷◌, ◌++◌, Str, codes, ◌==◌, nat_eq, str_eq,
  if◌then◌else◌, leb, length, drop,
}
use distributed_sns.Base.Result.{Result, ok, err, out_of_range, thrown, ◌>>=◌}
use distributed_sns.FsUtils.{split_string}
use distributed_sns.Server.State.{LocalTime, LogReply, Server}
use distributed_sns.Server.Text.{split, newline, space, str_to_timestamp, read_local}
use distributed_sns.Server.Clients.{get_client, login_helper, follow_helper, unfollow_helper}
use distributed_sns.Server.Posts.{add_post_helper}

-- `args[i]`
abbrev pub arg {ℓ} : {A : Type ℓ} → List A → ℕ → Result A
arg args i = elim (drop i args) [ [] ↦ err out_of_range | x ∷ _ ↦ ok x ]

unfoldable pub process_user : List Str → Server → Result Server
unfolding login_helper
process_user args s = do u ← arg args 1; ok (login_helper u s)

unfoldable pub process_follow : LocalTime → List Str → Server → Result Server
unfolding follow_helper
process_follow tz args s = do
  u ← arg args 1
  v ← arg args 2
  time ← arg args 3
  follow_helper tz u v time s

unfoldable pub process_unfollow : List Str → Server → Result Server
unfolding unfollow_helper
process_unfollow args s = do u ← arg args 1; v ← arg args 2; unfollow_helper u v s

-- One line of the user info file. An operation that is not known is skipped.
unfoldable pub process_args : LocalTime → List Str → Server → Result Server
unfolding process_user process_follow process_unfollow
process_args tz args s = do
  op ← arg args 0
  if op == codes "user"
      then process_user args s
      else if op == codes "follow"
      then process_follow tz args s
      else if op == codes "unfollow"
      then process_unfollow args s
      else ok s

-- The line goes into the own file.
abbrev pub save_line : Bool → Str → Server → Server
save_line save line s =
    if save then record s { userinfo = s.userinfo ++ (line ++ (newline ∷ [])) } else s

unfoldable pub process_lines : LocalTime → Bool → List Str → Server → Result Server
unfolding process_args split
process_lines tz save [] s = ok s
process_lines tz save (line ∷ lines) s = do
  s ← process_args tz (split line space) s
  process_lines tz save lines (save_line save line s)

unfoldable pub process_user_info_from_file : LocalTime → Str → Bool → Server → Result Server
unfolding process_lines split
process_user_info_from_file tz filedata save s = process_lines tz save (split filedata newline) s

-- `substr(2)` throws where the string is shorter.
abbrev pub after_tag : Str → Result Str
after_tag part = if leb 2 (length part) then ok (drop 2 part) else err thrown

-- One post of the posts file: its time, its author and its content.
unfoldable pub process_post : LocalTime → Bool → List Str → Server → Result Server
unfolding str_to_timestamp get_client add_post_helper
process_post tz save [] s = ok s
process_post tz save (first ∷ parts) s = do
  time ← after_tag first
  timestamp ← str_to_timestamp tz time
  part ← arg parts 0
  username ← after_tag part
  part ← arg parts 1
  content ← after_tag part
  add_post_helper tz (record { username = username; msg = content; timestamp = timestamp })
      (get_client s.clients s.client_db username) save s

unfoldable pub process_posts : LocalTime → Bool → List Str → Server → Result Server
unfolding process_post split_string
process_posts tz save [] s = ok s
process_posts tz save (token ∷ tokens) s = do
  s ← process_post tz save (split_string token (newline ∷ [])) s
  process_posts tz save tokens s

unfoldable pub update_posts_from_file : LocalTime → Str → Bool → Server → Result Server
unfolding process_posts split_string
update_posts_from_file tz filedata save s =
    process_posts tz save (split_string filedata (newline ∷ newline ∷ [])) s

-- `initializeData`, from the own files, or from what another server answers to `GetLog`.
unfoldable pub initialize_data : LocalTime → Option LogReply → Server → Result Server
unfolding process_user_info_from_file update_posts_from_file
initialize_data tz none s = do
  let userinfo = read_local s.userinfo
  let posts = read_local s.posts
  s ← process_user_info_from_file tz userinfo false s
  update_posts_from_file tz posts false s
initialize_data tz (some log) s = do
  s ← process_user_info_from_file tz log.log_userinfo true (record s { userinfo = []; posts = [] })
  update_posts_from_file tz log.log_posts true s
