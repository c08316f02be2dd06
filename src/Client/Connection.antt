-- ===== src/Client/Connection.antt =====
-- How the client finds a server and keeps to it: `connect`, `getServerInfo`, the thread
-- `refreshServer`, and `run`. `exit(1)` is `none` in place of the state.
pub mod Retries
use distributed_sns.Base.{
  ℕ, zero, suc, Bool, true, false, ◌&&◌, Option, none, some, List, [], ◌∷◌, ◌++◌, Str, codes, ltb,
  if◌then◌else◌,
}
use distributed_sns.Base.Int.{ℤ}
use distributed_sns.Base.Result.{Result, ok, ◌>>=◌}
use distributed_sns.Coordinator.State.{ServerInfo}
use distributed_sns.Server.State.{LocalTime, SnsStatus, success}
use distributed_sns.Client.State.{
  StatusCode, unavailable_code, GrpcStatus, grpc_ok, grpc_failed, IReply, ClientState, max_retries,
  Services,
}
use distributed_sns.Client.Rpc.{send_login}
use distributed_sns.Client.Commands.{display_command_reply, run_client_bash}

abbrev pub is_unavailable : StatusCode → Bool
is_unavailable unavailable_code = true
is_unavailable _ = false

abbrev pub address : ServerInfo → Str
address s = s.hostname ++ (b':' ∷ s.port)

-- The stub is made anew, for the server that is known.
unfoldable pub make_stub : ClientState → ClientState × List Str
make_stub c = (
  record c { stub = some (address c.server) },
  if c.server.changed
      then (codes "Connecting to " ++ (address c.server ++ codes "...\n")) ∷ []
      else [],
)

-- What `getServerInfo` does with the answer of the coordinator.
unfoldable pub take_answer : GrpcStatus × ServerInfo → ClientState → Option ClientState × List Str
unfolding make_stub
take_answer (grpc_ok, info) c =
    let (c, printed) = make_stub (record c { server = info; retries = 0 }) in (some c, printed)
take_answer (grpc_failed code _, info) c =
    if is_unavailable code && ltb c.retries max_retries
    then (let (c, printed) = make_stub (record c { retries = suc c.retries }) in
        (some c, codes "Server unavailable. Retrying...\n" ∷ printed))
    else (none, codes "Cannot reach server. Exiting.\n" ∷ [])

module _ {W : Type 0} (services : Services W) where
  unfoldable pub get_server_info : ClientState → W → W × Option ClientState × List Str
  get_server_info c w =
      let (w, status, info) = services.get_server_rpc c.id w in
      let (next, printed) = take_answer (status, info) c in (w, next, printed)

  -- So many rounds of `refreshServer`, or fewer where one of them exits.
  unfoldable pub refresh_server : ℕ → ClientState → W → W × Option ClientState × List Str
  refresh_server zero c w = (w, some c, [])
  refresh_server (suc rounds) c w =
      let (w, next, printed) = get_server_info c w in
      elim next [
        | none ↦ (w, none, printed)
        | some c ↦ let (w, last, more) = refresh_server rounds c w in (w, last, printed ++ more)
      ]

  is_success : Option SnsStatus → Bool
  is_success (some success) = true
  is_success _ = false

  -- The login at the end of `connect`: whether it succeeds, and what is printed.
  unfoldable pub log_in : ClientState → W → Result (W × Bool × List Str)
  unfolding send_login is_success display_command_reply
  log_in c w = do
    let (w, reply) = send_login services c.username w
    elim reply.grpc_status [
      | grpc_failed _ _ ↦ ok (w, false, [])
      | grpc_ok ↦
          if is_success reply.comm_status
          then (do
            shown ← display_command_reply c.username (codes "login") reply
            ok (w, true, shown))
          else ok (w, false, [])
    ]

  -- `connect`, with whether it returns 1 or -1.
  unfoldable pub connect : ClientState → W → Result (W × Option (ClientState × Bool) × List Str)
  unfolding get_server_info log_in
  connect c w = do
    let (w, status, id) = services.get_unique_client_id_rpc w
    elim status [
      | grpc_failed _ _ ↦ ok (w, some (c, false), [])
      | grpc_ok ↦ do
        let (w, next, printed) = get_server_info (record c { id = id }) w
        elim next [
          | none ↦ ok (w, none, printed)
          | some c ↦ do
            (w, logged_in, shown) ← log_in c w
            ok (w, some (c, logged_in), printed ++ shown)
        ]
    ]

  abbrev display_title : Str
  display_title =
      codes "========= TINY SNS CLIENT =========\n"
      ++ (codes " Command Lists and Format:\n"
          ++ (codes " FOLLOW <username>\n"
              ++ (codes " UNFOLLOW <username>\n"
                  ++ (codes " LIST\n"
                      ++ (codes " TIMELINE\n" ++ codes "===================================\n")))))

  -- `run`: where the connection fails, the program exits.
  unfoldable pub run : LocalTime → Str → ClientState → W → Result (W × List Str)
  unfolding connect run_client_bash
  run tz stdin c w = do
    (w, connected, printed) ← connect c w
    elim connected [
      | none ↦ ok (w, printed)
      | some (c, false) ↦ ok (w, printed ++ (codes "Connection failed: -1\n" ∷ []))
      | some (c, true) ↦ do
        (w, shown) ← run_client_bash services tz c.username stdin w
        ok (w, printed ++ (display_title ∷ shown))
    ]
