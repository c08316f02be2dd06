-- ===== src/Network/Tests.antt =====
-- Runs of a network of two clusters with a master and a slave each.
use mathlib.Core.Path.{subst}
use distributed_sns.Base.{
  ℕ, ◌≡◌, refl, ap, sym, ◌∙◌, Bool, true, false, none, some, List, [], ◌∷◌, Str, codes, arith,
  nat_eq, str_eq, All,
}
use distributed_sns.Base.Decimal.{to_string}
use distributed_sns.Base.Int.{pos, int_eq}
use distributed_sns.Base.Result.{Result, ok, err, blocked}
use distributed_sns.Base.Map.{find, replace, All-find}
use distributed_sns.Coordinator.State.{
  ServerInfo, empty_path, ZNode, new_znode, Coordinator, new_coordinator,
}
use distributed_sns.Coordinator.Servers.{get_counterparts, get_other_cluster_masters}
use distributed_sns.Server.State.{
  LocalTime, Timestamp, Message, Request, Server, new_server, login_method,
}
use distributed_sns.Server.Posts.{post_request}
use distributed_sns.Network.State.{Node, Network, address}
use distributed_sns.Network.Propagation.{call_server, post_at}
use distributed_sns.Network.Replication.{Arrives}
use distributed_sns.Network.Placement.{IsPlaced}
use distributed_sns.Network.Termination.{login-Arrives}
use distributed_sns.Network.Split.{Names, split_brain}
use distributed_sns.Network.Posts.{Misses, IsApart, post_at-Stays}

abbrev znode : ℕ → ℕ → Str → Bool → ZNode
znode cluster server port master = record new_znode {
  server_id = pos server;
  cluster_id = pos cluster;
  hostname = codes "h";
  port = port;
  master = master;
}

abbrev info : ℕ → ℕ → Str → ServerInfo
info cluster server port = record {
  serverid = pos server;
  clusterid = pos cluster;
  hostname = codes "h";
  port = port;
  type = codes "SERVER";
  registered = true;
  changed = false;
}

abbrev time : Timestamp
time = record { seconds = pos 0; nanos = 0 }

-- A server with the user ann, who is on the timeline.
abbrev with_ann : Bool → Server
with_ann master = record (new_server master) {
  clients =
      record {
        username = codes "ann";
        connected = true;
        client_followers = [];
        client_following = [];
        follow_time = [];
        stream = some 0;
      }
      ∷ [];
  client_db = 0 ∷ [];
}

abbrev node : ℕ → ℕ → Str → Bool → Node
node cluster server port master = record {
  info = info cluster server port;
  path = record empty_path { master = master };
  server = with_ann master;
}

abbrev two_clusters : Coordinator
two_clusters = record (new_coordinator 2) {
  clusters =
      ((pos 1, znode 1 1 (codes "1") true) ∷ (pos 2, znode 1 2 (codes "2") false) ∷ [])
      ∷ ((pos 1, znode 2 1 (codes "3") true) ∷ (pos 2, znode 2 2 (codes "4") false) ∷ [])
      ∷ [];
}

-- The second server takes itself for a master, or not.
abbrev four : Bool → Network
four second = record {
  coordinator = two_clusters;
  nodes =
      (codes "h:1", node 1 1 (codes "1") true)
      ∷ (codes "h:2", node 1 2 (codes "2") second)
      ∷ (codes "h:3", node 2 1 (codes "3") true)
      ∷ (codes "h:4", node 2 2 (codes "4") false)
      ∷ [];
}

abbrev bob_logs_in : Request
bob_logs_in = record (post_request (record { username = []; msg = []; timestamp = time })) {
  username = codes "bob";
}

-- What the coordinator tells of a server.
abbrev told : ℕ → ℕ → Str → ServerInfo
told cluster server port = record (info cluster server port) { type = []; registered = false }

of_first : get_counterparts two_clusters (info 1 1 (codes "1")) ≡ ok (told 1 2 (codes "2") ∷ [])
unfolding get_counterparts int_eq
of_first = refl

of_second : get_counterparts two_clusters (info 1 2 (codes "2")) ≡ ok (told 1 1 (codes "1") ∷ [])
unfolding get_counterparts int_eq
of_second = refl

of_third : get_counterparts two_clusters (info 2 1 (codes "3")) ≡ ok (told 2 2 (codes "4") ∷ [])
unfolding get_counterparts int_eq
of_third = refl

of_fourth : get_counterparts two_clusters (info 2 2 (codes "4")) ≡ ok (told 2 1 (codes "3") ∷ [])
unfolding get_counterparts int_eq
of_fourth = refl

-- The server that is found at an address.
found :
    (a : Str) (n m : Node)
    → find a (four false).nodes ≡ some n
    → find a (four false).nodes ≡ some m
    → n.server.master ≡ false
    → m.server.master ≡ false
found a n m h k off =
    let same : some n ≡ some m = sym h ∙ k in
    let equal : n ≡ m = cc in sym (ap (λ (x : Node). x.server.master) equal) ∙ off

at_second : find (codes "h:2") (four false).nodes ≡ some (node 1 2 (codes "2") false)
unfolding find str_eq
at_second = refl

at_fourth : find (codes "h:4") (four false).nodes ≡ some (node 2 2 (codes "4") false)
unfolding find str_eq
at_fourth = refl

abbrev Placed : Str × Node → Type 0
Placed (a, n) =
    (l : List ServerInfo) × (get_counterparts two_clusters n.info ≡ ok l)
    × (n.server.master ≡ true
        → All
            (λ t.
              (m : Node) → find (address t) (four false).nodes ≡ some m → m.server.master ≡ false)
            l)

four-IsPlaced : IsPlaced (four false)
four-IsPlaced = record {
  cluster = λ a n h. All-find Placed a (four false).nodes h (
    (_, of_first, λ on. ((λ m k. found (codes "h:2") _ m at_second k refl), tt)),
    (
      (_, of_second, λ on. absurd (let clash : false ≡ true = on in cc)),
      (
        (_, of_third, λ on. ((λ m k. found (codes "h:4") _ m at_fourth k refl), tt)),
        ((_, of_fourth, λ on. absurd (let clash : false ≡ true = on in cc)), tt),
      ),
    ),
  );
}

abbrev far : LocalTime
far = record {
  localtime = λ _. record {
    year = pos 1970;
    month = pos 1;
    day = pos 1;
    hour = pos 0;
    minute = pos 0;
    second = pos 0;
  };
  parse_time = λ _. none;
}

login-Arrives_example :
    (net' : Network) × (call_server 3 far login_method bob_logs_in (codes "h:1") (four false)
      ≡ ok net')
    × Arrives bob_logs_in (codes "h:1") (four false) net'
login-Arrives_example = login-Arrives far 0 bob_logs_in (codes "h:1") (four false) four-IsPlaced

first_is_up :
    (second : Bool) → find (codes "h:1") (four second).nodes ≡ some (node 1 1 (codes "1") true)
unfolding find str_eq
first_is_up second = refl

second_is_up : find (codes "h:2") (four true).nodes ≡ some (node 1 2 (codes "2") true)
unfolding find str_eq
second_is_up = refl

first-Names : Names (four true) (codes "h:1") (codes "h:2")
first-Names = record {
  node = node 1 1 (codes "1") true;
  up = first_is_up true;
  is_master = refl;
  first = told 1 2 (codes "2");
  others = [];
  listed = of_first;
  at_b = refl;
}

second-Names : Names (four true) (codes "h:2") (codes "h:1")
second-Names = record {
  node = node 1 2 (codes "2") true;
  up = second_is_up;
  is_master = refl;
  first = told 1 1 (codes "1");
  others = [];
  listed = of_second;
  at_b = refl;
}

split_brain_example :
    call_server 9 far login_method bob_logs_in (codes "h:1") (four true) ≡ err blocked
split_brain_example =
    split_brain far 9 bob_logs_in (codes "h:1") (codes "h:2") (four true) first-Names second-Names

abbrev ann_posts : Message
ann_posts = record { username = codes "ann"; msg = codes "hi"; timestamp = time }

-- The network that a run ends in.
abbrev end_of : Result Network → Network
end_of (ok x) = x
end_of (err e) = four false

posted :
    post_at 2 far 0 ann_posts (codes "h:1") (four false)
    ≡ ok (end_of (post_at 2 far 0 ann_posts (codes "h:1") (four false)))
unfolding post_at call_server find replace str_eq nat_eq int_eq to_string
posted = refl

masters_of_first :
    get_other_cluster_masters two_clusters (info 1 1 (codes "1")) ≡ told 2 1 (codes "3") ∷ []
unfolding get_other_cluster_masters int_eq
masters_of_first = refl

-- The third byte of an address.
abbrev third : Str → ℕ
third (_ ∷ _ ∷ c ∷ _) = c
third _ = 0

abbrev listed_in : Result (List ServerInfo) → List ServerInfo
listed_in (ok l) = l
listed_in (err e) = []

fourth-IsApart : IsApart (info 1 1 (codes "1")) (codes "h:4") two_clusters
fourth-IsApart = record {
  no_slave = λ l h.
      subst (Misses (codes "h:4")) (ap listed_in (sym of_first ∙ h))
        ((λ e. absurd (omega (arith, ap third e))), tt);
  no_master =
      subst (Misses (codes "h:4")) (sym masters_of_first)
        ((λ e. absurd (omega (arith, ap third e))), tt);
}

post_at-Stays_example :
    find (codes "h:4") (end_of (post_at 2 far 0 ann_posts (codes "h:1") (four false))).nodes
    ≡ find (codes "h:4") (four false).nodes
post_at-Stays_example =
    post_at-Stays far 2 0 ann_posts (codes "h:1") (codes "h:4") (node 1 1 (codes "1") true)
      (four false) (end_of (post_at 2 far 0 ann_posts (codes "h:1") (four false)))
      (first_is_up false) (λ e. absurd (omega (arith, ap third e))) fourth-IsApart posted
