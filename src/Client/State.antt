-- ===== src/Client/State.antt =====
-- The state of the client program, what a call answers, and the interface to the other programs.
use distributed_sns.Base.{ℕ, false, Option, none, List, [], Str}
use distributed_sns.Base.Int.{ℤ, pos}
use distributed_sns.Coordinator.State.{ServerInfo}
use distributed_sns.Server.State.{Timestamp, Message, Request, SnsStatus, success, Reply, ListReply}

-- `grpc::StatusCode`: those that the programs use, and the others.
pub data StatusCode : Type 0 where
  unavailable_code invalid_argument_code already_exists_code : StatusCode
  other_code : ℕ → StatusCode

-- `grpc::Status`
pub data GrpcStatus : Type 0 where
  grpc_ok : GrpcStatus
  grpc_failed : StatusCode → Str → GrpcStatus

-- `comm_status` is `none` where it is not initialised.
pub record IReply : Type 0 where
  pub grpc_status : GrpcStatus
  pub comm_status : Option SnsStatus
  pub comm_msg : Str
  pub all_users : List Str
  pub followers : List Str
  pub following : List Str

-- `IReply ire;` leaves the enumeration as it is.
abbrev pub declared_reply : IReply
declared_reply = record {
  grpc_status = grpc_ok;
  comm_status = none;
  comm_msg = [];
  all_users = [];
  followers = [];
  following = [];
}

-- `IReply()` sets it to zero.
abbrev pub empty_reply : IReply
empty_reply = record declared_reply { comm_status = Option.some success }

abbrev pub empty_server_info : ServerInfo
empty_server_info = record {
  serverid = pos 0;
  clusterid = pos 0;
  hostname = [];
  port = [];
  type = [];
  registered = false;
  changed = false;
}

-- The class `Client`. The stub to the server is the address that it was made for.
pub record ClientState : Type 0 where
  pub hostname : Str
  pub port : Str
  pub username : Str
  pub id : ℤ
  pub server : ServerInfo
  pub stub : Option Str
  pub retries : ℕ

-- `Client(host, portNumber, user)`
abbrev pub new_client_state : Str → Str → Str → ClientState
new_client_state host port_number user = record {
  hostname = host;
  port = port_number;
  username = user;
  id = pos 0;
  server = empty_server_info;
  stub = none;
  retries = 0;
}

abbrev pub max_retries : ℕ
max_retries = 3

-- What the other programs answer, and the world `W` in which they do. An answer is a value only
-- where its status is `grpc_ok`. `accepted_writes` says how many posts a stream takes before a write
-- fails, and `timeline_rpc` what has come through a stream when it ends.
-- `time(NULL)` is asked for each request, and for the messages of a chat by their number.
pub record Services (W : Type 0) : Type 0 where
  pub now : W → ℤ
  pub message_time : W → ℕ → ℤ
  pub get_unique_client_id_rpc : W → W × GrpcStatus × ℤ
  pub get_server_rpc : ℤ → W → W × GrpcStatus × ServerInfo
  pub login_rpc : Request → W → W × GrpcStatus × Reply
  pub list_rpc : Request → W → W × GrpcStatus × ListReply
  pub follow_rpc : Request → W → W × GrpcStatus × Reply
  pub unfollow_rpc : Request → W → W × GrpcStatus × Reply
  pub accepted_writes : W → ℕ
  pub timeline_rpc : List Message → W → W × GrpcStatus × List Message

-- `getCurrentTimestamp`, at the time `now`
abbrev pub current_timestamp : ℤ → Timestamp
current_timestamp now = record { seconds = now; nanos = 0 }

abbrev pub make_message : ℤ → Str → Str → Message
make_message now username msg = record {
  username = username;
  msg = msg;
  timestamp = current_timestamp now;
}
