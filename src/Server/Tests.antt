-- ===== src/Server/Tests.antt =====
-- Runs of a server: two users, one of whom follows the other.
use distributed_sns.Server.Timeline.{filter, IsDue, get_following_posts-IsDue}
use distributed_sns.Base.{◌↔◌}
use distributed_sns.Server.Answered.{answered-IsKnown}
use distributed_sns.Server.State.{failure_not_exists}
use distributed_sns.Base.{inl, is_some, ◌≢◌}
use distributed_sns.Server.Restored.{add_posts, sync_posts}
use distributed_sns.Server.Links.Counts.{count}
use distributed_sns.Server.Links.Fields.{following_at, followers_at}
use distributed_sns.Server.Links.Agreement.{following-followers, unfollow-Ends, follow-Starts}
use distributed_sns.Server.Clients.{get_client}
use distributed_sns.Server.Api.{unfollow}
use distributed_sns.Base.Result.{err, null_deref}
use distributed_sns.Base.Decimal.{to_string}
use distributed_sns.Base.{
  ℕ, ◌≤◌, ◌≡◌, refl, Bool, true, false, none, some, List, [], ◌∷◌, ◌++◌, codes, Str, arith, take,
  str_eq, nat_eq,
}
use distributed_sns.Base.Int.{pos}
use distributed_sns.Base.Result.{ok}
use distributed_sns.Server.State.{
  LocalTime, Timestamp, Message, Request, Reply, success, Post, Client, Server, new_server,
}
use distributed_sns.Server.Text.{newline}
use distributed_sns.Server.Posts.{get_log, get_following_posts, is_shown, reverse}
use distributed_sns.Server.Replay.{process_user_info_from_file, update_posts_from_file}
use distributed_sns.Server.Api.{login, follow}
use distributed_sns.Server.Lines.{IsWord}
use distributed_sns.Server.Sync.{login_call, follow_call, Session, opened, called, replay}

-- A clock that stands at the first second of 1970.
abbrev standing : LocalTime
standing = record {
  localtime = λ _. record {
    year = pos 1970;
    month = pos 1;
    day = pos 1;
    hour = pos 0;
    minute = pos 0;
    second = pos 0;
  };
  parse_time = λ _. some (pos 0);
}

abbrev time : Timestamp
time = record { seconds = pos 0; nanos = 0 }

abbrev nothing : Message
nothing = record { username = []; msg = []; timestamp = time }

abbrev request : Str → List Str → Bool → Request
request user arguments from_server = record {
  username = user;
  arguments = arguments;
  timestamp = time;
  message = nothing;
  from_server = from_server;
}

abbrev user : Str → List ℕ → List ℕ → List Timestamp → Client
user name followers following times = record {
  username = name;
  connected = true;
  client_followers = followers;
  client_following = following;
  follow_time = times;
  stream = none;
}

abbrev ann : Str
ann = codes "ann"

abbrev bob : Str
bob = codes "bob"

abbrev with_users : List Client → List ℕ → Str → Server
with_users clients db log = record (new_server false) {
  clients = clients;
  client_db = db;
  userinfo = log;
}

abbrev ann_only : Server
ann_only = with_users (user ann [] [] [] ∷ []) (0 ∷ []) (codes "user ann" ++ (newline ∷ []))

abbrev both : Server
both =
    with_users (user ann [] [] [] ∷ user bob [] [] [] ∷ []) (0 ∷ 1 ∷ [])
      (codes "user ann" ++ (newline ∷ (codes "user bob" ++ (newline ∷ []))))

abbrev ann_follows : Server
ann_follows =
    with_users (user ann [] (1 ∷ []) (time ∷ []) ∷ user bob (0 ∷ []) [] [] ∷ []) (0 ∷ 1 ∷ []) (
      codes "user ann"
      ++ (newline
          ∷ (codes "user bob"
              ++ (newline ∷ (codes "follow ann bob 1970-1-1T0:0:0" ++ (newline ∷ []))))))

ann_logs_in :
    login (request ann [] false) (new_server false)
    ≡ ok (ann_only, record { msg = codes "User ann successfully logged in!"; status = success })
unfolding login
ann_logs_in = refl

bob_logs_in :
    login (request bob [] false) ann_only
    ≡ ok (both, record { msg = codes "User bob successfully logged in!"; status = success })
unfolding login str_eq
bob_logs_in = refl

ann_to_bob :
    follow standing (request ann (bob ∷ []) false) both
    ≡ ok (ann_follows, record { msg = codes "Successfully followed bob"; status = success })
unfolding follow str_eq nat_eq to_string
ann_to_bob = refl

ann-IsWord : IsWord ann
ann-IsWord = ((λ e. cc), omega arith, omega arith)

bob-IsWord : IsWord bob
bob-IsWord = ((λ e. cc), omega arith, omega arith)

session : Session standing false ann_follows
session =
    called both ann_follows
      (called ann_only both
        (called (new_server false) ann_only opened
          (login_call (request ann [] false) _ _ ann-IsWord ann_logs_in))
        (login_call (request bob [] false) _ _ bob-IsWord bob_logs_in))
      (follow_call (request ann (bob ∷ []) false) _ _ ann-IsWord (bob-IsWord, tt) (refl, refl)
        ann_to_bob)

replay_example :
    (s' : Server) × (process_user_info_from_file standing
        (get_log ann_follows).log_userinfo
        true
        (new_server false)
      ≡ ok s')
    × (s'.clients ≡ ann_follows.clients)
    × (s'.client_db ≡ ann_follows.client_db)
    × (s'.userinfo ≡ ann_follows.userinfo)
replay_example = replay standing false ann_follows session

abbrev post : Str → Post
post text = record {
  username = bob;
  data_ = text;
  timestamp = record { seconds = pos 5; nanos = 0 };
}

abbrev with_posts : Server
with_posts = record ann_follows { all_posts = post (codes "a") ∷ post (codes "b") ∷ [] }

get_following_posts-IsDue_example :
    (get_following_posts with_posts (user ann [] (1 ∷ []) (time ∷ [])) 1
      ≡ take 1 (
          filter
            (is_shown with_posts (user ann [] (1 ∷ []) (time ∷ [])))
            (reverse with_posts.all_posts)))
    × ((is_shown with_posts (user ann [] (1 ∷ []) (time ∷ [])) (post (codes "b")) ≡ true)
        ↔ IsDue with_posts (user ann [] (1 ∷ []) (time ∷ [])) (post (codes "b")))
get_following_posts-IsDue_example =
    get_following_posts-IsDue with_posts (user ann [] (1 ∷ []) (time ∷ [])) 1 (post (codes "b"))

newest_is_shown :
    get_following_posts with_posts (user ann [] (1 ∷ []) (time ∷ [])) 1 ≡ post (codes "b") ∷ []
unfolding get_following_posts str_eq nat_eq
newest_is_shown = refl

bob_is_missing : follow standing (request ann (bob ∷ []) false) ann_only ≡ err null_deref
unfolding follow str_eq
bob_is_missing = refl

answered-IsKnown_example :
    (is_some (get_client both.clients both.client_db ann) ≡ true)
    × (is_some (get_client both.clients both.client_db bob) ≡ true)
    × (success ≢ failure_not_exists)
answered-IsKnown_example =
    answered-IsKnown standing (request ann (bob ∷ []) false) both ann_follows
      (record { msg = codes "Successfully followed bob"; status = success }) bob [] refl
      (inl ann_to_bob)

ann_is_first : get_client ann_follows.clients ann_follows.client_db ann ≡ some 0
unfolding get_client str_eq
ann_is_first = refl

bob_is_second : get_client ann_follows.clients ann_follows.client_db bob ≡ some 1
unfolding get_client str_eq
bob_is_second = refl

following-followers_example :
    (count 1 (following_at ann_follows.clients 0) ≡ count 0 (followers_at ann_follows.clients 1))
    × (count 1 (following_at ann_follows.clients 0) ≤ 1)
following-followers_example = following-followers standing false ann_follows session 0 1

unfollow-Ends_example :
    (s' : Server) × (reply : Reply) × (unfollow (request ann (bob ∷ []) false) ann_follows
      ≡ ok (s', reply))
    × (count 1 (following_at s'.clients 0) ≡ 0)
    × (count 0 (followers_at s'.clients 1) ≡ 0)
unfollow-Ends_example =
    unfollow-Ends standing false ann_follows (request ann (bob ∷ []) false) bob 0 1 session refl
      ann_is_first bob_is_second (λ e. absurd (omega (arith, e)))

abbrev from_bob : Message
from_bob = record { username = bob; msg = codes "hi"; timestamp = time }

bob_posts : (s : Server) × (add_posts standing (from_bob ∷ []) true ann_follows ≡ ok s)
unfolding add_posts str_eq
bob_posts = (_, refl)

sync_posts_example :
    update_posts_from_file standing (get_log bob_posts.0).log_posts true ann_follows
    ≡ add_posts standing (from_bob ∷ []) true ann_follows
sync_posts_example =
    sync_posts standing (from_bob ∷ []) ann_follows bob_posts.0 ann_follows true
      ((omega arith, omega arith, (refl, refl)), tt) refl bob_posts.1

follow-Starts_example :
    (s' : Server) × (reply : Reply) × (follow standing (request bob (ann ∷ []) false) ann_follows
      ≡ ok (s', reply))
    × (count 0 (following_at s'.clients 1) ≡ 1)
    × (count 1 (followers_at s'.clients 0) ≡ 1)
follow-Starts_example =
    follow-Starts standing false ann_follows (request bob (ann ∷ []) false) ann 1 0 session refl
      bob_is_second ann_is_first (λ e. absurd (omega (arith, e)))
