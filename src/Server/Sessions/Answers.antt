-- ===== src/Server/Sessions/Answers.antt =====
-- A server whose log gives its clients, and what does not change that.
use mathlib.Core.Path.{subst}
use distributed_sns.Base.{
  ℕ, ◌≡◌, refl, ◌∙◌, ◌≢◌, ap, inl, inr, true, false, none, List, [], ◌∷◌, ◌++◌, Str, nat_eq, str_eq,
  Bool-cases, length,
}
use distributed_sns.Base.Result.{Result, ok}
use distributed_sns.Server.State.{
  LocalTime, Request, Reply, Client, new_client, Server, propogate, Method,
}
use distributed_sns.Server.Clients.{get_client, get_or_create, client_at}
use distributed_sns.Server.Api.{Answer}
use distributed_sns.Server.Replays.{Logged}

-- A new server that replays the log of this one gets its clients.
abbrev pub IsLogged : LocalTime → Server → Type 0
IsLogged tz s = Logged tz s.clients s.client_db s.userinfo

propogate-IsLogged :
    (tz : LocalTime) (m : Method) (r : Request) (s : Server)
    → IsLogged tz s
    → IsLogged tz (propogate m r s)
unfolding propogate
propogate-IsLogged tz m r s h = elim (Bool-cases s.master) [ inl on ↦ rw on h | inr off ↦ rw off h ]

pub answered :
    (tz : LocalTime) (m : Method) (r : Request) (x : Answer) (s' : Server) (reply : Reply)
    → ◌≡◌ {A = Result Answer} (ok (propogate m r x.0, x.1)) (ok (s', reply))
    → IsLogged tz x.0
    → IsLogged tz s'
answered tz m r x s' reply e h =
    let same : propogate m r x.0 ≡ s' = cc in
    subst (IsLogged tz) same (propogate-IsLogged tz m r x.0 h)

pub get_or_create_new :
    (heap : List Client) (db : List ℕ) (u : Str)
    → get_client heap db u ≡ none
    → get_or_create heap db u ≡ (heap ++ (new_client u ∷ []), length heap)
unfolding get_or_create
get_or_create_new heap db u h = rw (h, get_or_create) refl

pub client_at_end :
    (heap : List Client) (c : Client) → client_at (heap ++ (c ∷ [])) (length heap) ≡ ok c
unfolding client_at
client_at_end [] c = refl
client_at_end (x ∷ heap) c = client_at_end heap c

pub new_connected :
    (u : Str) (c : Client) → ◌≡◌ {A = Result Client} (ok (new_client u)) (ok c) → c.connected ≢ true
new_connected u c e on =
    let same : new_client u ≡ c = cc in
    let off : false ≡ true = ap (λ x. x.connected) same ∙ on in cc
