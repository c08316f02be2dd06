-- ===== src/Client/Rpc.antt =====
-- The calls that the client makes of its server: `Login`, `List`, `Follow` and `UnFollow`.
use distributed_sns.Base.{false, some, List, [], ◌∷◌, Str}
use distributed_sns.Base.Int.{ℤ, pos}
use distributed_sns.Server.State.{Message, Request, success, failure_unknown, Reply, ListReply}
use distributed_sns.Client.State.{
  GrpcStatus, grpc_ok, grpc_failed, IReply, declared_reply, Services, current_timestamp,
}

-- A message in which nothing is set.
abbrev pub unset_message : Message
unset_message = record {
  username = [];
  msg = [];
  timestamp = record { seconds = pos 0; nanos = 0 };
}

-- A request of this user, with the time of the call.
abbrev pub user_request : ℤ → Str → List Str → Request
user_request now username arguments = record {
  username = username;
  arguments = arguments;
  timestamp = current_timestamp now;
  message = unset_message;
  from_server = false;
}

-- The reply is read only where the call succeeds.
unfoldable pub read_reply : GrpcStatus → Reply → IReply
read_reply grpc_ok reply = record declared_reply {
  comm_status = some reply.status;
  comm_msg = reply.msg;
}
read_reply (grpc_failed code msg) reply = record declared_reply {
  grpc_status = grpc_failed code msg;
  comm_status = some failure_unknown;
}

unfoldable pub read_list_reply : GrpcStatus → ListReply → IReply
read_list_reply grpc_ok reply = record declared_reply {
  comm_status = some success;
  all_users = reply.all_users;
  followers = reply.followers;
  following = reply.following;
}
read_list_reply (grpc_failed code msg) reply = record declared_reply {
  grpc_status = grpc_failed code msg;
  comm_status = some failure_unknown;
}

module _ {W : Type 0} (services : Services W) (username : Str) where
  unfoldable pub send_login : W → W × IReply
  unfolding read_reply
  send_login w =
      let (w, status, reply) = services.login_rpc (user_request (services.now w) username []) w in
      (w, read_reply status reply)

  unfoldable pub send_list : W → W × IReply
  unfolding read_list_reply
  send_list w =
      let (w, status, reply) = services.list_rpc (user_request (services.now w) username []) w in
      (w, read_list_reply status reply)

  unfoldable pub send_follow : Str → W → W × IReply
  unfolding read_reply
  send_follow username2 w =
      let (w, status, reply) =
        services.follow_rpc (user_request (services.now w) username (username2 ∷ [])) w in
      (w, read_reply status reply)

  unfoldable pub send_unfollow : Str → W → W × IReply
  unfolding read_reply
  send_unfollow username2 w =
      let (w, status, reply) =
        services.unfollow_rpc (user_request (services.now w) username (username2 ∷ [])) w in
      (w, read_reply status reply)
