-- ===== src/Server/Replays.antt =====
-- The replay of the user info log, line by line.
use distributed_sns.Base.{
  ℕ, ◌≡◌, refl, ◌∙◌, sym, ap, true, false, List, [], ◌∷◌, ◌++◌, Str, codes, nat_eq, str_eq, All,
  All-append,
}
use distributed_sns.Base.Result.{ok, >>=-eq-ok}
use distributed_sns.FsUtils.Paths.{Lacks}
use distributed_sns.Server.State.{LocalTime, Client, Server, new_server}
use distributed_sns.Server.Text.{split, join_lines, newline, space}
use distributed_sns.Server.Clients.{login_helper, follow_helper, unfollow_helper}
use distributed_sns.Server.Replay.{process_args, process_lines, save_line}
use distributed_sns.Server.Lines.{join_lines-append}

-- A server with these clients and this log, and no posts.
abbrev pub replica : List Client → List ℕ → Str → Server
replica heap db log = record (new_server false) { clients = heap; client_db = db; userinfo = log }

process_lines_last :
    (tz : LocalTime) (ls : List Str) (l : Str) (s s' s'' : Server)
    → process_lines tz true ls s ≡ ok s'
    → process_args tz (split l space) s' ≡ ok s''
    → process_lines tz true (ls ++ (l ∷ [])) s ≡ ok (save_line true l s'')
unfolding process_lines
process_lines_last tz [] l s s' s'' e f = let same : s ≡ s' = cc in rw same (rw f refl)
process_lines_last tz (k ∷ ls) l s s' s'' e f =
    let (s₁, g, h) =
      >>=-eq-ok (process_args tz (split k space) s)
        (λ s. process_lines tz true ls (save_line true k s)) e in
    rw g (process_lines_last tz ls l (save_line true k s₁) s' s'' h f)

-- The log is made of lines, and a new server that processes them has these clients and this log.
pub record Logged (tz : LocalTime) (heap : List Client) (db : List ℕ) (log : Str) : Type 0 where
  pub lines : List Str
  pub written : log ≡ join_lines lines
  pub one_line : All (Lacks newline) lines
  pub run : process_lines tz true lines (new_server false) ≡ ok (replica heap db log)

pub Logged-new : (tz : LocalTime) → Logged tz [] [] []
unfolding process_lines join_lines
Logged-new tz = record { lines = []; written = refl; one_line = tt; run = refl }

pub Logged-append :
    (tz : LocalTime) (heap heap' : List Client) (db db' : List ℕ) (log l : Str)
    → Lacks newline l
    → Logged tz heap db log
    → process_args tz (split l space) (replica heap db log) ≡ ok (replica heap' db' log)
    → Logged tz heap' db' (log ++ (l ++ (newline ∷ [])))
Logged-append tz heap heap' db db' log l ok_line h step = record {
  lines = h.lines ++ (l ∷ []);
  written = ap (λ x. x ++ (l ++ (newline ∷ []))) h.written ∙ sym (join_lines-append h.lines l);
  one_line = All-append (Lacks newline) h.lines (l ∷ []) h.one_line (ok_line, tt);
  run =
      process_lines_last tz h.lines l (new_server false) (replica heap db log)
        (replica heap' db' log) h.run step;
}

pub replay_user :
    (tz : LocalTime) (u log : Str) (heap : List Client) (db : List ℕ)
    → process_args tz (codes "user" ∷ u ∷ []) (replica heap db log)
      ≡ ok (login_helper u (replica heap db log))
unfolding process_args str_eq nat_eq
replay_user tz u log heap db = refl

pub replay_follow :
    (tz : LocalTime) (u v time log : Str) (heap : List Client) (db : List ℕ)
    → process_args tz (codes "follow" ∷ u ∷ v ∷ time ∷ []) (replica heap db log)
      ≡ follow_helper tz u v time (replica heap db log)
unfolding process_args str_eq nat_eq
replay_follow tz u v time log heap db = refl

pub replay_unfollow :
    (tz : LocalTime) (u v log : Str) (heap : List Client) (db : List ℕ)
    → process_args tz (codes "unfollow" ∷ u ∷ v ∷ []) (replica heap db log)
      ≡ unfollow_helper u v (replica heap db log)
unfolding process_args str_eq nat_eq
replay_unfollow tz u v log heap db = refl
