-- ===== src/Server/Posts.antt =====
-- Posts: how they are added, and which of them a client is shown when it enters the timeline.
use distributed_sns.Base.{
  ℕ, zero, suc, Bool, true, false, Option, none, some, List, [], ◌∷◌, ◌++◌, ◌==◌, nat_eq, str_eq,
  if◌then◌else◌,
}
use distributed_sns.Base.Int.{int_eq, pos}
use distributed_sns.Base.Result.{Result, ok, ◌>>=◌}
use distributed_sns.Server.State.{
  Timestamp, later, LocalTime, Message, Request, Post, post_of, Client, Server, Sent, wrote,
  propogate, add_post_method, LogReply,
}
use distributed_sns.Server.Text.{format_message_output, read_local}
use distributed_sns.Server.Clients.{get_client, not_null, client_at, update}

-- `std::find` by pointer, and the time at the same index.
unfoldable pub follow_time_of : ℕ → List ℕ → List Timestamp → Option Timestamp
follow_time_of author [] ts = none
follow_time_of author (a ∷ bs) [] = none
follow_time_of author (a ∷ bs) (t ∷ ts) =
    let rest = follow_time_of author bs ts in if a == author then some t else rest

-- Whether the post was made by someone that `c` follows, and after `c` began to.
unfoldable pub is_shown : Server → Client → Post → Bool
unfolding get_client follow_time_of
is_shown s c p = elim (get_client s.clients s.client_db p.username) [
  | none ↦ false
  | some author ↦ elim (follow_time_of author c.client_following c.follow_time) [
    | none ↦ false
    | some t ↦ later p.timestamp t
  ]
]

-- The loop of `getFollowingPosts`, through the posts from the newest on.
unfoldable pub latest_shown : (Post → Bool) → List Post → ℕ → List Post
latest_shown shown [] max_posts = []
latest_shown shown (p ∷ ps) zero = []
latest_shown shown (p ∷ ps) (suc max_posts) = elim (shown p) [
  | true ↦ p ∷ latest_shown shown ps max_posts
  | false ↦ latest_shown shown ps (suc max_posts)
]

abbrev pub reverse {ℓ} : {A : Type ℓ} → List A → List A
reverse [] = []
reverse (x ∷ xs) = reverse xs ++ (x ∷ [])

unfoldable pub get_following_posts : Server → Client → ℕ → List Post
unfolding is_shown latest_shown
get_following_posts s c max_posts = latest_shown (is_shown s c) (reverse s.all_posts) max_posts

-- The open streams of these clients, in order.
unfoldable pub open_streams : List Client → List ℕ → Result (List ℕ)
unfolding client_at
open_streams heap [] = ok []
open_streams heap (a ∷ bs) = do
  c ← client_at heap a
  rest ← open_streams heap bs
  ok (elim c.stream [ none ↦ rest | some n ↦ n ∷ rest ])

abbrev pub write_to : Message → List ℕ → List Sent
write_to m [] = []
write_to m (n ∷ ns) = wrote n m ∷ write_to m ns

-- The post is stored and written before the pointer to its author is used.
unfoldable pub add_post_helper : LocalTime → Message → Option ℕ → Bool → Server → Result Server
unfolding open_streams format_message_output
add_post_helper tz m client write_to_file s = do
  a ← not_null client
  c ← client_at s.clients a
  streams ← open_streams s.clients c.client_followers
  ok (record s {
    all_posts = s.all_posts ++ (post_of m ∷ []);
    posts = if write_to_file then s.posts ++ format_message_output tz m else s.posts;
    sent = s.sent ++ write_to m streams;
  })

abbrev pub timeline_posts : ℕ
timeline_posts = 20

abbrev pub message_of : Post → Message
message_of p = record { username = p.username; msg = p.data_; timestamp = p.timestamp }

abbrev pub sent_posts : ℕ → List Post → List Sent
sent_posts stream [] = []
sent_posts stream (p ∷ ps) = wrote stream (message_of p) ∷ sent_posts stream ps

-- The request that carries a post.
abbrev pub post_request : Message → Request
post_request m = record {
  username = [];
  arguments = [];
  timestamp = record { seconds = pos 0; nanos = 0 };
  message = m;
  from_server = false;
}

-- A client whose stream is not known enters the timeline.
unfoldable pub enter_timeline : ℕ → ℕ → Client → Server → Server
unfolding get_following_posts
enter_timeline stream a c s = record s {
  clients = update s.clients a (λ c. record c { stream = some stream });
  sent = s.sent ++ sent_posts stream (get_following_posts s c timeline_posts);
}

-- An empty message is ignored.
unfoldable pub post_message : LocalTime → Message → ℕ → Server → Result Server
unfolding add_post_helper propogate
post_message tz m a s = if m.msg == [] then ok s else do
  s ← add_post_helper tz m (some a) true s
  ok (propogate add_post_method (post_request m) s)

-- One message that `Timeline` reads from the stream.
unfoldable pub timeline_message : LocalTime → ℕ → Message → Server → Result Server
unfolding enter_timeline post_message
timeline_message tz stream m s = do
  a ← not_null (get_client s.clients s.client_db m.username)
  c ← client_at s.clients a
  elim c.stream [ none ↦ ok (enter_timeline stream a c s) | some _ ↦ post_message tz m a s ]

unfoldable pub timeline : LocalTime → ℕ → List Message → Server → Result Server
unfolding timeline_message
timeline tz stream [] s = ok s
timeline tz stream (m ∷ ms) s = timeline_message tz stream m s >>= timeline tz stream ms

unfoldable pub get_log : Server → LogReply
get_log s = record { log_userinfo = read_local s.userinfo; log_posts = read_local s.posts }

-- The reply stays empty.
unfoldable pub add_post : LocalTime → Request → Server → Result Server
unfolding add_post_helper
add_post tz r s =
    add_post_helper tz r.message (get_client s.clients s.client_db r.message.username) true s
