-- ===== src/Network/Posting.antt =====
-- What the handlers of posts send.
use mathlib.Core.Path.{subst}
use distributed_sns.Base.{
  ℕ, ◌≡◌, refl, ◌∙◌, sym, ap, inl, inr, Bool, true, false, Option, none, some, List, [], ◌∷◌, ◌++◌,
  append_assoc, append-nil, str_eq, ◌==◌, Bool-cases, if◌then◌else◌, All, All-append, drop, length,
}
use distributed_sns.Base.Result.{Result, ok, err, >>=-eq-ok}
use distributed_sns.Server.State.{
  LocalTime, Request, Message, Post, Client, Server, Sent, wrote, propogated, add_post_method,
  other_masters,
}
use distributed_sns.Server.Clients.{get_client, not_null, client_at}
use distributed_sns.Server.Posts.{
  write_to, add_post_helper, open_streams, sent_posts, enter_timeline, post_message,
  timeline_message, post_request,
}
use distributed_sns.Network.Logins.{outgoing, propogate-sent, drop-append}

-- Messages into streams only.
abbrev pub IsWrote : Sent → Type 0
IsWrote (wrote _ _) = Unit
IsWrote (propogated _ _ _) = ⊥

-- Messages into streams, and posts for other servers.
abbrev pub IsPosting : Sent → Type 0
IsPosting (wrote _ _) = Unit
IsPosting (propogated m _ _) = m ≡ add_post_method

-- A handler has sent only such things.
abbrev pub Adds : (Sent → Type 0) → Server → Server → Type 0
Adds P s s' = (new : List Sent) × (s'.sent ≡ s.sent ++ new) × All P new

write_to-IsWrote : (m : Message) (ns : List ℕ) → All IsWrote (write_to m ns)
write_to-IsWrote m [] = tt
write_to-IsWrote m (n ∷ ns) = (tt, write_to-IsWrote m ns)

sent_posts-IsWrote : (n : ℕ) (ps : List Post) → All IsWrote (sent_posts n ps)
sent_posts-IsWrote n [] = tt
sent_posts-IsWrote n (p ∷ ps) = (tt, sent_posts-IsWrote n ps)

-- The state that a run ends in.
abbrev value_or : Server → Result Server → Server
value_or s (ok x) = x
value_or s (err e) = s

pub add_post_helper-Adds :
    (tz : LocalTime) (m : Message) (c : Option ℕ) (to_file : Bool) (s s' : Server)
    → add_post_helper tz m c to_file s ≡ ok s'
    → Adds IsWrote s s' × (s'.master ≡ s.master)
unfolding add_post_helper
add_post_helper-Adds tz m c to_file s s' h =
    let (a, _, h₁) = >>=-eq-ok (not_null c) _ h in
    let (d, _, h₂) = >>=-eq-ok (client_at s.clients a) _ h₁ in
    let (ns, _, h₃) = >>=-eq-ok (open_streams s.clients d.client_followers) _ h₂ in
    (
      (write_to m ns, sym (ap (λ x. (value_or s x).sent) h₃), write_to-IsWrote m ns),
      sym (ap (λ x. (value_or s x).master) h₃),
    )

outgoing-IsPosting :
    (r : Request) (master : Bool) → All IsPosting (outgoing add_post_method r master)
outgoing-IsPosting r false = tt
outgoing-IsPosting r true = (refl, to_masters (r.from_server))
  where
    to_masters :
        (inside : Bool)
        → All IsPosting (
            if inside
            then []
            else propogated add_post_method (record r { from_server = true }) other_masters ∷ [])
    to_masters true = tt
    to_masters false = (refl, tt)

IsPosting-wrote : (l : List Sent) → All IsWrote l → All IsPosting l
IsPosting-wrote [] h = tt
IsPosting-wrote (wrote n m ∷ l) h = (tt, IsPosting-wrote l h.1)
IsPosting-wrote (propogated m r d ∷ l) h = absurd h.0

enter_timeline-Adds :
    (n a : ℕ) (c : Client) (s : Server) → Adds IsPosting s (enter_timeline n a c s)
unfolding enter_timeline
enter_timeline-Adds n a c s = (_, refl, IsPosting-wrote _ (sent_posts-IsWrote n _))

post_message-Adds :
    (tz : LocalTime) (m : Message) (a : ℕ) (s s' : Server)
    → post_message tz m a s ≡ ok s'
    → Adds IsPosting s s'
unfolding post_message
post_message-Adds tz m a s s' h = elim (Bool-cases (m.msg == [])) [
  | inl e ↦ ([], sym (ap (λ x. (value_or s x).sent) (rw e at h)) ∙ sym (append-nil s.sent), tt)
  | inr e ↦
      let (t, run, done) = >>=-eq-ok (add_post_helper tz m (some a) true s) _ (rw e at h) in
      let ((new, sent, posting), _) = add_post_helper-Adds tz m (some a) true s t run in
      let (more, _, _, _) = propogate-sent add_post_method (post_request m) t in
      (
        new ++ outgoing add_post_method (post_request m) t.master,
        sym (ap (λ x. (value_or s x).sent) done)
            ∙ more
            ∙ ap (λ l. l ++ outgoing add_post_method (post_request m) t.master) sent
            ∙ append_assoc s.sent new _,
        All-append IsPosting new _ (IsPosting-wrote new posting)
            (outgoing-IsPosting (post_request m) t.master),
      )
]

pub timeline_message-Adds :
    (tz : LocalTime) (n : ℕ) (m : Message) (s s' : Server)
    → timeline_message tz n m s ≡ ok s'
    → Adds IsPosting s s'
unfolding timeline_message
timeline_message-Adds tz n m s s' h =
    let (a, _, h₁) = >>=-eq-ok (not_null (get_client s.clients s.client_db m.username)) _ h in
    let (c, _, h₂) = >>=-eq-ok (client_at s.clients a) _ h₁ in entered c.stream a c h₂
  where
    entered :
        (stream : Option ℕ) (a : ℕ) (c : Client)
        → (elim stream [ none ↦ ok (enter_timeline n a c s) | some _ ↦ post_message tz m a s ])
          ≡ ok s'
        → Adds IsPosting s s'
    entered none a c e =
        let (new, sent, posting) = enter_timeline-Adds n a c s in
        (new, sym (ap (λ x. (value_or s x).sent) e) ∙ sent, posting)
    entered (some _) a c e = post_message-Adds tz m a s s' e

-- What a handler sends is what it adds.
pub sent_new :
    (P : Sent → Type 0) (s s' : Server) → (a : Adds P s s') → All P (drop (length s.sent) s'.sent)
sent_new P s s' (new, e, h) =
    subst (All P) (sym (ap (drop (length s.sent)) e ∙ drop-append s.sent new)) h
