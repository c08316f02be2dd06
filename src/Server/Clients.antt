-- ===== src/Server/Clients.antt =====
-- The clients of a server: `getClient`, the searches in the lists, and the helpers that the replay
-- of the log uses.
use distributed_sns.Base.{
  ℕ, zero, suc, Bool, true, false, Option, none, some, List, [], ◌∷◌, ◌++◌, Str, ◌==◌, nat_eq,
  str_eq, if◌then◌else◌, length, get_elem?, set_elem,
}
use distributed_sns.Base.Result.{Result, ok, err, null_deref, out_of_range, ◌>>=◌}
use distributed_sns.Server.State.{Timestamp, LocalTime, Client, new_client, Server}
use distributed_sns.Server.Text.{str_to_timestamp}

-- Whether the client at an address has this name. No address is outside of the heap.
unfoldable pub is_named : List Client → Str → ℕ → Bool
is_named heap username a = elim (get_elem? heap a) [
  | none ↦ false
  | some c ↦ username == c.username
]

-- The first client of the database with this name.
unfoldable pub get_client : List Client → List ℕ → Str → Option ℕ
unfolding is_named
get_client heap [] username = none
get_client heap (a ∷ db) username =
    let rest = get_client heap db username in if is_named heap username a then some a else rest

-- `getClient(username, true)`: a new client is not in the database yet.
unfoldable pub get_or_create : List Client → List ℕ → Str → List Client × ℕ
unfolding get_client
get_or_create heap db username = elim (get_client heap db username) [
  | some a ↦ (heap, a)
  | none ↦ (heap ++ (new_client username ∷ []), length heap)
]

-- A use of a pointer that may be null.
abbrev pub not_null : Option ℕ → Result ℕ
not_null none = err null_deref
not_null (some a) = ok a

unfoldable pub client_at : List Client → ℕ → Result Client
client_at heap a = elim (get_elem? heap a) [ none ↦ err null_deref | some c ↦ ok c ]

-- A write through the pointer `a`.
abbrev pub update : List Client → ℕ → (Client → Client) → List Client
update heap a f = elim (get_elem? heap a) [ none ↦ heap | some c ↦ set_elem heap a (f c) ]

-- The index of the first pointer to a client with this name: `operator==` compares the names.
unfoldable pub index_of : List Client → Str → List ℕ → Option ℕ
unfolding is_named
index_of heap username [] = none
index_of heap username (a ∷ bs) =
    let rest = index_of heap username bs in
    if is_named heap username a then some 0 else elim rest [ none ↦ none | some i ↦ some (suc i) ]

unfoldable pub index_of_following : List Client → Client → Client → Option ℕ
unfolding index_of
index_of_following heap client1 client2 = index_of heap client2.username client1.client_following

unfoldable pub index_of_follower : List Client → Client → Client → Option ℕ
unfolding index_of
index_of_follower heap client1 client2 = index_of heap client2.username client1.client_followers

-- `v.erase(v.begin() + i)`
abbrev pub erase_at {ℓ} : {A : Type ℓ} → ℕ → List A → List A
erase_at i [] = []
erase_at zero (x ∷ xs) = xs
erase_at (suc i) (x ∷ xs) = x ∷ erase_at i xs

abbrev pub connect : Client → Client
connect c = record c { connected = true }

abbrev pub add_following : ℕ → Timestamp → Client → Client
add_following a t c = record c {
  client_following = c.client_following ++ (a ∷ []);
  follow_time = c.follow_time ++ (t ∷ []);
}

abbrev pub add_follower : ℕ → Client → Client
add_follower a c = record c { client_followers = c.client_followers ++ (a ∷ []) }

abbrev pub remove_following : ℕ → Client → Client
remove_following i c = record c {
  client_following = erase_at i c.client_following;
  follow_time = erase_at i c.follow_time;
}

abbrev pub remove_follower : ℕ → Client → Client
remove_follower i c = record c { client_followers = erase_at i c.client_followers }

-- Both ends of `client` following `target`.
abbrev pub link : List Client → ℕ → ℕ → Timestamp → List Client
link heap client target t =
    update (update heap client (add_following target t)) target (add_follower client)

abbrev pub unlink : List Client → ℕ → ℕ → ℕ → ℕ → List Client
unlink heap client target i j =
    update (update heap client (remove_following i)) target (remove_follower j)

-- The helpers assume that their input is valid: what is missing is a null pointer, and the index
-- -1 is before the beginning of a vector.
unfoldable pub login_helper : Str → Server → Server
unfolding get_or_create
login_helper user s =
    let (heap, a) = get_or_create s.clients s.client_db user in
    record s { clients = update heap a connect; client_db = s.client_db ++ (a ∷ []) }

unfoldable pub follow_helper : LocalTime → Str → Str → Str → Server → Result Server
unfolding get_client str_to_timestamp
follow_helper tz user1 user2 time s = do
  t ← str_to_timestamp tz time
  client ← not_null (get_client s.clients s.client_db user1)
  target ← not_null (get_client s.clients s.client_db user2)
  ok (record s { clients = link s.clients client target t })

abbrev pub found_index : Option ℕ → Result ℕ
found_index none = err out_of_range
found_index (some i) = ok i

unfoldable pub unfollow_helper : Str → Str → Server → Result Server
unfolding get_client index_of_following index_of_follower client_at
unfollow_helper user1 user2 s = do
  client ← not_null (get_client s.clients s.client_db user1)
  target ← not_null (get_client s.clients s.client_db user2)
  c ← client_at s.clients client
  d ← client_at s.clients target
  i ← found_index (index_of_following s.clients c d)
  j ← found_index (index_of_follower s.clients d c)
  ok (record s { clients = unlink s.clients client target i j })
