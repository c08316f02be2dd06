-- ===== src/Server/Sync.antt =====
-- A server that synchronises with another one by `GetLog`.
use distributed_sns.Base.{◌≡◌, refl, ◌∙◌, ap, Bool, true, false, List, Str, All}
use distributed_sns.Base.Result.{ok}
use distributed_sns.Server.State.{LocalTime, Request, Reply, Server, new_server}
use distributed_sns.Server.Text.{split, newline, join_lines, read_local}
use distributed_sns.Server.Posts.{get_log}
use distributed_sns.Server.Replay.{process_user_info_from_file, process_lines}
use distributed_sns.Server.Api.{login, follow, unfollow}
use distributed_sns.Server.Lines.{IsWord, split-join_lines, read_local-join_lines}
use distributed_sns.Server.Replays.{replica, Logged-new}
use distributed_sns.Server.Sessions.{
  IsLogged, IsLocalTime, login-IsLogged, follow-IsLogged, unfollow-IsLogged,
}

-- The calls that change who follows whom, with names that fit into the log.
pub data Call (tz : LocalTime) (s : Server) : Server → Type 0 where
  login_call :
      (r : Request) (s' : Server) (reply : Reply)
      → IsWord r.username
      → login r s ≡ ok (s', reply)
      → Call tz s s'
  follow_call :
      (r : Request) (s' : Server) (reply : Reply)
      → IsWord r.username
      → All IsWord r.arguments
      → IsLocalTime tz r.timestamp
      → follow tz r s ≡ ok (s', reply)
      → Call tz s s'
  unfollow_call :
      (r : Request) (s' : Server) (reply : Reply)
      → IsWord r.username
      → All IsWord r.arguments
      → unfollow r s ≡ ok (s', reply)
      → Call tz s s'

-- A server after some calls.
pub data Session (tz : LocalTime) (master : Bool) : Server → Type 0 where
  opened : Session tz master (new_server master)
  called : (s s' : Server) → Session tz master s → Call tz s s' → Session tz master s'

Call-IsLogged : (tz : LocalTime) (s s' : Server) → Call tz s s' → IsLogged tz s → IsLogged tz s'
Call-IsLogged tz s s' (login_call r _ reply w e) h = login-IsLogged tz r s s' reply w h e
Call-IsLogged tz s s' (follow_call r _ reply w ws t e) h =
    follow-IsLogged tz r s s' reply w ws t h e
Call-IsLogged tz s s' (unfollow_call r _ reply w ws e) h =
    unfollow-IsLogged tz r s s' reply w ws h e

Session-IsLogged :
    (tz : LocalTime) (master : Bool) (s : Server) → Session tz master s → IsLogged tz s
Session-IsLogged tz master s opened = Logged-new tz
Session-IsLogged tz master s (called s₀ _ h c) =
    Call-IsLogged tz s₀ s c (Session-IsLogged tz master s₀ h)

get_log_lines :
    (s : Server) (ls : List Str)
    → s.userinfo ≡ join_lines ls
    → (get_log s).log_userinfo ≡ read_local (join_lines ls)
unfolding get_log
get_log_lines s ls e = ap read_local e

process_file :
    (tz : LocalTime) (file : Str) (s : Server)
    → process_user_info_from_file tz file true s ≡ process_lines tz true (split file newline) s
unfolding process_user_info_from_file
process_file tz file s = refl

-- After any sequence of logins, follows and unfollows that return, with user names that are not
-- empty and have no space or newline in them, and with times without a fraction that the time
-- zone prints and reads back: a new server that processes the user info log that `GetLog` returns
-- comes to its end and has the same clients with the same follower and following lists and follow
-- times, the same database and the same log.
pub replay :
    (tz : LocalTime) (master : Bool) (s : Server)
    → Session tz master s
    → (s' : Server) × (process_user_info_from_file tz
          (get_log s).log_userinfo
          true
          (new_server false)
        ≡ ok s')
      × (s'.clients ≡ s.clients)
      × (s'.client_db ≡ s.client_db)
      × (s'.userinfo ≡ s.userinfo)
replay tz master s session =
    let h = Session-IsLogged tz master s session in
    (
      replica s.clients s.client_db s.userinfo,
      process_file tz (get_log s).log_userinfo (new_server false)
          ∙ ap (λ f. process_lines tz true (split f newline) (new_server false))
              (get_log_lines s h.lines h.written ∙ read_local-join_lines h.lines h.one_line)
          ∙ ap (λ ls. process_lines tz true ls (new_server false))
              (split-join_lines h.lines h.one_line)
          ∙ h.run,
      refl,
      refl,
      refl,
    )
