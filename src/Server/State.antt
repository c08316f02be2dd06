-- ===== src/Server/State.antt =====
-- The state of a server, and the messages of its protocol (proto/snsproto/sns.proto).
use distributed_sns.Base.{
  ℕ, Bool, true, false, Option, none, List, [], ◌∷◌, ◌++◌, Str, ◌&&◌, ◌||◌, ◌==◌, nat_eq, ltb,
  if◌then◌else◌,
}
use distributed_sns.Base.Int.{ℤ, int_eq, ltb_ℤ}

-- `google::protobuf::Timestamp`
pub record Timestamp : Type 0 where
  pub seconds : ℤ
  pub nanos : ℕ

-- `operator>` of timestamps
abbrev pub later : Timestamp → Timestamp → Bool
later a b = ltb_ℤ b.seconds a.seconds || (b.seconds == a.seconds && ltb b.nanos a.nanos)

-- The fields of `struct tm` as they are printed: years from 0, months from 1.
pub record Tm : Type 0 where
  pub year : ℤ
  pub month : ℤ
  pub day : ℤ
  pub hour : ℤ
  pub minute : ℤ
  pub second : ℤ

-- The time zone of the machine: `localtime`, and `get_time` with `mktime`, which may fail.
pub record LocalTime : Type 0 where
  pub localtime : ℤ → Tm
  pub parse_time : Str → Option ℤ

pub record Message : Type 0 where
  pub username : Str
  pub msg : Str
  pub timestamp : Timestamp

pub record Request : Type 0 where
  pub username : Str
  pub arguments : List Str
  pub timestamp : Timestamp
  pub message : Message
  pub from_server : Bool

pub data SnsStatus : Type 0 where
  success failure_already_exists failure_not_exists failure_invalid_username : SnsStatus
  failure_not_a_follower failure_invalid failure_unknown : SnsStatus

pub record Reply : Type 0 where
  pub msg : Str
  pub status : SnsStatus

pub record ListReply : Type 0 where
  pub all_users : List Str
  pub followers : List Str
  pub following : List Str

pub record LogReply : Type 0 where
  pub log_userinfo : Str
  pub log_posts : Str

-- `Client`: the lists hold addresses, and a stream is named by a number.
pub record Client : Type 0 where
  pub username : Str
  pub connected : Bool
  pub client_followers : List ℕ
  pub client_following : List ℕ
  pub follow_time : List Timestamp
  pub stream : Option ℕ

abbrev pub new_client : Str → Client
new_client username = record {
  username = username;
  connected = false;
  client_followers = [];
  client_following = [];
  follow_time = [];
  stream = none;
}

pub record Post : Type 0 where
  pub username : Str
  pub data_ : Str
  pub timestamp : Timestamp

-- `Post(message)`
abbrev pub post_of : Message → Post
post_of m = record { username = m.username; data_ = m.msg; timestamp = m.timestamp }

pub data Method : Type 0 where
  login_method follow_method unfollow_method add_post_method : Method

pub data Destination : Type 0 where
  counterparts other_masters : Destination

-- What the server sends: a message into a stream, or a request to other servers.
pub data Sent : Type 0 where
  wrote : ℕ → Message → Sent
  propogated : Method → Request → Destination → Sent

-- The clients are the heap of `shared_ptr`s, and an address is an index into it. The two local
-- files are their contents, and a file that does not exist is an empty one.
pub record Server : Type 0 where
  pub clients : List Client
  pub client_db : List ℕ
  pub all_posts : List Post
  pub userinfo : Str
  pub posts : Str
  pub master : Bool
  pub sent : List Sent

abbrev pub new_server : Bool → Server
new_server master = record {
  clients = [];
  client_db = [];
  all_posts = [];
  userinfo = [];
  posts = [];
  master = master;
  sent = [];
}

-- `propogate`: only masters do, to their slaves, and what comes from a client to the other masters.
unfoldable pub propogate : Method → Request → Server → Server
propogate method request s =
    let new_request = record request { from_server = true } in
    let to_slaves = s.sent ++ (propogated method new_request counterparts ∷ []) in
    if s.master
    then record s {
      sent =
          if request.from_server
          then to_slaves
          else to_slaves ++ (propogated method new_request other_masters ∷ []);
    }
    else s
