-- ===== src/Client/Tests.antt =====
-- Runs of the client against a coordinator whose answers are given, and a server that is away.
use distributed_sns.Base.{
  ℕ, ◌≡◌, refl, ap, ◌↔◌, none, some, List, [], ◌∷◌, ◌++◌, Str, codes, arith, nat_eq, str_eq,
}
use distributed_sns.Base.Int.{pos}
use distributed_sns.Base.Result.{ok, err, uninitialised}
use distributed_sns.Coordinator.State.{ServerInfo}
use distributed_sns.Server.State.{LocalTime, Reply, success}
use distributed_sns.Client.State.{
  GrpcStatus, grpc_ok, grpc_failed, unavailable_code, empty_server_info, ClientState,
  new_client_state, Services,
}
use distributed_sns.Client.Text.{to_upper_case}
use distributed_sns.Client.Connection.{refresh_server, get_server_info, take_answer}
use distributed_sns.Client.Connection.Retries.{Answered, GivesUp, answers, refresh_server-GivesUp}
use distributed_sns.Client.Chat.{written_posts}
use distributed_sns.Client.Chat.Posts.{IsTyped, written_posts-IsTyped}
use distributed_sns.Client.Chat.Lines.{IsLine, typed_lines, written_posts-typed_lines}
use distributed_sns.Client.Commands.{space, get_command, split_command, run_client_bash}
use distributed_sns.Client.Commands.Typed.{get_command_typed}
use distributed_sns.Client.Commands.Accepted.{
  IsCommand, IsUnknown, get_command-IsCommand, run_client_bash_unknown,
}

abbrev away : GrpcStatus
away = grpc_failed unavailable_code (codes "failed to connect")

abbrev next : List Answered → List Answered × GrpcStatus × ServerInfo
next [] = ([], away, empty_server_info)
next ((status, info) ∷ rest) = (rest, status, info)

abbrev no_reply : Reply
no_reply = record { msg = []; status = success }

abbrev lonely : Services (List Answered)
lonely = record {
  now = λ _. pos 0;
  message_time = λ _ _. pos 0;
  get_unique_client_id_rpc = λ w. (w, away, pos 0);
  get_server_rpc = λ _ w. next w;
  login_rpc = λ _ w. (w, away, no_reply);
  list_rpc = λ _ w. (w, away, record { all_users = []; followers = []; following = [] });
  follow_rpc = λ _ w. (w, away, no_reply);
  unfollow_rpc = λ _ w. (w, away, no_reply);
  accepted_writes = λ _. 10;
  timeline_rpc = λ _ w. (w, away, []);
}

abbrev ann_client : ClientState
ann_client = new_client_state (codes "localhost") (codes "9000") (codes "ann")

abbrev served_once : List Answered
served_once = (grpc_ok, empty_server_info) ∷ []

refresh_server-GivesUp_example :
    ((refresh_server lonely 5 ann_client served_once).1 ≡ none)
    ↔ GivesUp (answers lonely 5 ann_client.id served_once)
refresh_server-GivesUp_example = refresh_server-GivesUp lonely 5 ann_client served_once refl

gives_up_after_four : (refresh_server lonely 5 ann_client served_once).1 ≡ none
unfolding refresh_server get_server_info take_answer
gives_up_after_four = refl

abbrev newline : Str
newline = 10 ∷ []

-- Two posts with an empty line between them, and the word behind them.
abbrev two_posts : Str
two_posts =
    codes "hi" ++ (newline ++ (newline ++ (codes "you" ++ (newline ++ (codes "exit" ++ newline)))))

two_posts_written : written_posts 5 two_posts ≡ ok (codes "hi" ∷ codes "you" ∷ [], [])
unfolding written_posts nat_eq str_eq
two_posts_written = refl

written_posts-IsTyped_example : IsTyped 5 two_posts (codes "hi" ∷ codes "you" ∷ []) []
written_posts-IsTyped_example =
    written_posts-IsTyped 5 two_posts (codes "hi" ∷ codes "you" ∷ []) [] (omega arith)
      two_posts_written

hi-IsLine : IsLine (codes "hi")
hi-IsLine = record {
  not_empty = λ e. cc;
  fits = omega arith;
  one_line = omega arith;
  no_nul = omega arith;
}

written_posts-typed_lines_example :
    written_posts 1 (typed_lines (codes "hi" ∷ []) (codes "LIST"))
    ≡ ok (codes "hi" ∷ [], codes "LIST")
written_posts-typed_lines_example =
    written_posts-typed_lines 1 (codes "hi" ∷ []) (codes "LIST") ((hi-IsLine, (λ e. cc)), tt)
      (omega arith)

get_command_typed_example :
    (get_command ((codes "follow" ++ (space ∷ codes "bob")) ++ (10 ∷ []))
      ≡ some (to_upper_case (codes "follow") ++ (space ∷ codes "bob"), [], []))
    × (split_command (to_upper_case (codes "follow") ++ (space ∷ codes "bob"))
        ≡ (to_upper_case (codes "follow"), codes "bob"))
get_command_typed_example =
    get_command_typed (codes "follow") (codes "bob") [] (omega arith) (omega arith) (λ e. cc)

reads_list :
    get_command (codes "lost" ++ (newline ++ (codes "list" ++ newline)))
    ≡ some (codes "LIST", [], codes "Invalid Command\n" ∷ [])
unfolding get_command nat_eq str_eq
reads_list = refl

get_command-IsCommand_example : IsCommand (codes "LIST")
get_command-IsCommand_example =
    get_command-IsCommand (codes "lost" ++ (newline ++ (codes "list" ++ newline))) (codes "LIST") []
      (codes "Invalid Command\n" ∷ []) reads_list

abbrev standing : LocalTime
standing = record {
  localtime = λ _. record {
    year = pos 1970;
    month = pos 1;
    day = pos 1;
    hour = pos 0;
    minute = pos 0;
    second = pos 0;
  };
  parse_time = λ _. none;
}

abbrev first : Str → ℕ
first [] = 0
first (c ∷ s) = c

post-IsUnknown : IsUnknown (to_upper_case (codes "post"))
unfolding to_upper_case
post-IsUnknown = record {
  not_follow = λ e. absurd (omega (arith, ap first e));
  not_unfollow = λ e. absurd (omega (arith, ap first e));
  not_list = λ e. absurd (omega (arith, ap first e));
  not_timeline = λ e. absurd (omega (arith, ap first e));
}

run_client_bash_unknown_example :
    run_client_bash lonely standing
      (codes "ann")
      ((codes "post" ++ (space ∷ codes "hi")) ++ (10 ∷ []))
      served_once
    ≡ err uninitialised
run_client_bash_unknown_example =
    run_client_bash_unknown lonely standing (codes "ann") (codes "post") (codes "hi") [] served_once
      post-IsUnknown (omega arith) (omega arith) (λ e. cc)
