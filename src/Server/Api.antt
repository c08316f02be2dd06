-- ===== src/Server/Api.antt =====
-- The calls of the clients of a server: `Login`, `Follow`, `UnFollow` and `List`.
use distributed_sns.Base.{
  ℕ, Option, none, some, List, [], ◌∷◌, ◌++◌, Str, codes, ◌==◌, nat_eq, str_eq, if◌then◌else◌,
}
use distributed_sns.Base.Result.{Result, ok, err, out_of_range, ◌>>=◌}
use distributed_sns.Server.State.{
  LocalTime, Timestamp, Request, SnsStatus, success, failure_already_exists, failure_not_exists,
  failure_not_a_follower, failure_invalid, Reply, ListReply, Client, Server, Method, login_method,
  follow_method, unfollow_method, propogate,
}
use distributed_sns.Server.Text.{timestamp_to_str, user_line, follow_line, unfollow_line}
use distributed_sns.Server.Clients.{
  get_client, get_or_create, not_null, client_at, update, connect, index_of_following,
  index_of_follower, found_index, link, unlink,
}

abbrev pub Answer : Type 0
Answer = Server × Reply

-- A client that is connected was here before.
unfoldable pub login_client : Request → Server → List Client → ℕ → Client → Answer
unfolding user_line
login_client r s heap a c =
    if c.connected
    then (
      record s { clients = heap },
      record { msg = codes "Welcome back, " ++ r.username; status = success },
    )
    else (
      record s {
        clients = update heap a connect;
        client_db = s.client_db ++ (a ∷ []);
        userinfo = s.userinfo ++ user_line r.username;
      },
      record {
        msg = codes "User " ++ (r.username ++ codes " successfully logged in!");
        status = success;
      },
    )

unfoldable pub login : Request → Server → Result Answer
unfolding login_client client_at get_or_create propogate
login r s = do
  let (heap, a) = get_or_create s.clients s.client_db r.username
  c ← client_at heap a
  let (s, reply) = login_client r s heap a c
  ok (propogate login_method r s, reply)

-- `request->arguments()[0]`
abbrev pub first_argument : Request → Result Str
first_argument r = elim r.arguments [ [] ↦ err out_of_range | u ∷ _ ↦ ok u ]

abbrev pub refuse : Server → SnsStatus → Str → Answer
refuse s status msg = (s, record { msg = msg; status = status })

-- `Follow` for two different clients.
unfoldable pub follow_target : LocalTime → Timestamp → Server → ℕ → Client → ℕ → Client → Answer
unfolding index_of_following follow_line timestamp_to_str
follow_target tz t s a c b d = elim (index_of_following s.clients c d) [
  | some _ ↦ refuse s failure_already_exists (codes "You already follow this user")
  | none ↦ (
    record s {
      clients = link s.clients a b t;
      userinfo = s.userinfo ++ follow_line c.username d.username (timestamp_to_str tz t);
    },
    record { msg = codes "Successfully followed " ++ d.username; status = success },
  )
]

abbrev pub not_exists : Server → Answer
not_exists s = refuse s failure_not_exists (codes "The specified user does not exist.")

-- The pointers of the two clients are compared; otherwise both clients are read.
unfoldable pub follow_found : LocalTime → Timestamp → Server → Option ℕ → ℕ → Result Answer
unfolding client_at follow_target
follow_found tz t s client b = do
  a ← not_null client
  c ← client_at s.clients a
  d ← client_at s.clients b
  ok (
      if a == b
      then refuse s failure_invalid (codes "You cannot follow yourself.")
      else follow_target tz t s a c b d)

unfoldable pub follow_reply : LocalTime → Timestamp → Server → Option ℕ → Option ℕ → Result Answer
unfolding follow_found
follow_reply tz t s client none = ok (not_exists s)
follow_reply tz t s client (some b) = follow_found tz t s client b

-- The log line, which reads the names of both clients, and what comes behind it.
unfoldable pub log_names : Method → Request → Option ℕ → Option ℕ → Answer → Result Answer
unfolding propogate
log_names m r client target x = do
  a ← not_null client
  b ← not_null target
  ok (propogate m r x.0, x.1)

unfoldable pub follow : LocalTime → Request → Server → Result Answer
unfolding get_client follow_reply log_names
follow tz r s = do
  user ← first_argument r
  let client = get_client s.clients s.client_db r.username
  let target = get_client s.clients s.client_db user
  x ← follow_reply tz r.timestamp s client target
  log_names follow_method r client target x

-- `UnFollow` for two different clients.
unfoldable pub unfollow_target : Server → ℕ → Client → ℕ → Client → Result Answer
unfolding index_of_following index_of_follower unfollow_line
unfollow_target s a c b d = elim (index_of_following s.clients c d) [
  | none ↦ ok (refuse s failure_not_a_follower (codes "You already do not follow this user..."))
  | some i ↦ do
    j ← found_index (index_of_follower s.clients d c)
    ok (
      record s {
        clients = unlink s.clients a b i j;
        userinfo = s.userinfo ++ unfollow_line c.username d.username;
      },
      record { msg = codes "Successfully unfollowed user " ++ d.username; status = success },
    )
]

unfoldable pub unfollow_found : Server → Option ℕ → ℕ → Result Answer
unfolding client_at unfollow_target
unfollow_found s client b = do
  a ← not_null client
  c ← client_at s.clients a
  d ← client_at s.clients b
  if a == b
      then ok (refuse s failure_invalid (codes "You cannot unfollow yourself."))
      else unfollow_target s a c b d

unfoldable pub unfollow_reply : Server → Option ℕ → Option ℕ → Result Answer
unfolding unfollow_found
unfollow_reply s client none = ok (not_exists s)
unfollow_reply s client (some b) = unfollow_found s client b

unfoldable pub unfollow : Request → Server → Result Answer
unfolding get_client unfollow_reply log_names
unfollow r s = do
  user ← first_argument r
  let client = get_client s.clients s.client_db r.username
  let target = get_client s.clients s.client_db user
  x ← unfollow_reply s client target
  log_names unfollow_method r client target x

unfoldable pub usernames : List Client → List ℕ → Result (List Str)
unfolding client_at
usernames heap [] = ok []
usernames heap (a ∷ bs) = do c ← client_at heap a; rest ← usernames heap bs; ok (c.username ∷ rest)

unfoldable pub list : Request → Server → Result ListReply
unfolding get_client client_at usernames
list r s = do
  all_users ← usernames s.clients s.client_db
  a ← not_null (get_client s.clients s.client_db r.username)
  c ← client_at s.clients a
  followers ← usernames s.clients c.client_followers
  following ← usernames s.clients c.client_following
  ok (record { all_users = all_users; followers = followers; following = following })
