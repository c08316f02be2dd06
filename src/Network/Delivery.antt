-- ===== src/Network/Delivery.antt =====
-- What the calls of a login leave in the network, for the servers that they reach and the others.
use mathlib.Core.Path.{subst}
use distributed_sns.Base.{
  ◌≡◌, refl, ◌∙◌, sym, ap, inl, inr, true, none, some, List, [], ◌∷◌, Str, str_eq, ◌==◌, eq_of_==,
  Bool-cases, if◌then◌else◌, is_some, All,
}
use distributed_sns.Base.Result.{ok, >>=-eq-ok}
use distributed_sns.Base.Map.{find, replace, find-replace}
use distributed_sns.Coordinator.State.{ServerInfo}
use distributed_sns.Coordinator.Servers.{get_counterparts}
use distributed_sns.Server.State.{LocalTime, Request, Server, login_method}
use distributed_sns.Server.Presence.{IsPresent}
use distributed_sns.Network.State.{Node, Network, address}
use distributed_sns.Network.Propagation.{Call, call_each}
use distributed_sns.Network.Logins.{IsAfter}

-- The server at an address has this user.
abbrev pub Has : Network → Str → Str → Type 0
Has net a u = (n : Node) × (find a net.nodes ≡ some n) × IsPresent n.server u

-- A server is at its place as before, and no user is gone from it.
pub record Kept (n n' : Node) : Type 0 where
  pub same_info : n'.info ≡ n.info
  pub same_master : n'.server.master ≡ n.server.master
  pub users : (v : Str) → IsPresent n.server v → IsPresent n'.server v

pub record Grows (net net' : Network) : Type 0 where
  pub coordinator : net'.coordinator ≡ net.coordinator
  pub there :
      (b : Str) (n : Node)
      → find b net.nodes ≡ some n
      → (n' : Node) × (find b net'.nodes ≡ some n') × Kept n n'
  pub missing : (b : Str) → find b net.nodes ≡ none → find b net'.nodes ≡ none

pub Grows-refl : (net : Network) → Grows net net
Grows-refl net = record {
  coordinator = refl;
  there = λ b n h. (n, h, record { same_info = refl; same_master = refl; users = λ v p. p });
  missing = λ b h. h;
}

Kept-trans : (l m n : Node) → Kept l m → Kept m n → Kept l n
Kept-trans l m n h k = record {
  same_info = k.same_info ∙ h.same_info;
  same_master = k.same_master ∙ h.same_master;
  users = λ v p. k.users v (h.users v p);
}

pub Grows-trans : (x y z : Network) → Grows x y → Grows y z → Grows x z
Grows-trans x y z h k = record {
  coordinator = k.coordinator ∙ h.coordinator;
  there = λ b l f.
      let (m, g, lm) = h.there b l f in
      let (n, e, mn) = k.there b m g in (n, e, Kept-trans l m n lm mn);
  missing = λ b f. k.missing b (h.missing b f);
}

pub Has-Grows : (net net' : Network) (a u : Str) → Grows net net' → Has net a u → Has net' a u
Has-Grows net net' a u g (n, f, p) = let (n', f', k) = g.there a n f in (n', f', k.users u p)

-- The state of one server is replaced by a later one.
abbrev pub put : Str → Node → Server → Network → Network
put a n s net = record net { nodes = replace a (record n { server = s }) net.nodes }

pub find-put :
    (a b : Str) (n : Node) (s : Server) (net : Network)
    → find a net.nodes ≡ some n
    → find b (put a n s net).nodes
      ≡ (if b == a then some (record n { server = s }) else find b net.nodes)
find-put a b n s net h =
    find-replace b a (record n { server = s }) net.nodes
    ∙ ap
        (λ o.
          if b == a
          then (if is_some o then some (record n { server = s }) else none)
          else find b net.nodes)
        h

found_again : (a b : Str) (net : Network) → (b == a) ≡ true → find a net.nodes ≡ find b net.nodes
found_again a b net e = ap (λ c. find c net.nodes) (sym (eq_of_== b a e))

pub some_inj {ℓ} : {A : Type ℓ} (x y : A) → some x ≡ some y → x ≡ y
some_inj x y h = cc

pub put-Grows :
    (tz : LocalTime) (r : Request) (a : Str) (n : Node) (s : Server) (net : Network)
    → find a net.nodes ≡ some n
    → IsAfter tz r n.server s
    → Grows net (put a n s net)
put-Grows tz r a n s net h after = record {
  coordinator = refl;
  there = λ b m f. elim (Bool-cases (b == a)) [
    | inl e ↦ (
      record n { server = s },
      find-put a b n s net h ∙ rw e refl,
      let same : n ≡ m = some_inj n m (sym h ∙ found_again a b net e ∙ f) in
          subst (λ x. Kept x (record n { server = s })) same
            (record { same_info = refl; same_master = after.same_master; users = after.keeps }),
    )
    | inr e ↦ (
      m,
      find-put a b n s net h ∙ rw e f,
      record { same_info = refl; same_master = refl; users = λ v p. p },
    )
  ];
  missing = λ b f. elim (Bool-cases (b == a)) [
    | inl e ↦ absurd (let clash : some n ≡ none = sym h ∙ found_again a b net e ∙ f in cc)
    | inr e ↦ find-put a b n s net h ∙ rw e f
  ];
}

-- What a call of a login at `a` leaves: the user there, and, where the server there is a master, at
-- every server that the coordinator names in its cluster, if they are up.
abbrev pub Reached : Network → Network → Str → ServerInfo → Type 0
Reached net net' u t = (m : Node) → find (address t) net.nodes ≡ some m → Has net' (address t) u

pub record Serves (net net' : Network) (u a : Str) : Type 0 where
  pub user : (n : Node) → find a net.nodes ≡ some n → Has net' a u
  pub slaves :
      (n : Node)
      → find a net.nodes ≡ some n
      → n.server.master ≡ true
      → (l : List ServerInfo) → get_counterparts net.coordinator n.info ≡ ok l
      → All (Reached net net' u) l

pub All-map {ℓ κ} :
    {A : Type ℓ} (P Q : A → Type κ) (xs : List A) → ((x : A) → P x → Q x) → All P xs → All Q xs
All-map P Q [] f h = tt
All-map P Q (x ∷ xs) f h = (f x h.0, All-map P Q xs f h.1)

pub Reached-Grows :
    (x y y' z : Network) (u : Str) (t : ServerInfo)
    → Grows x y
    → Grows y' z
    → Reached y y' u t
    → Reached x z u t
Reached-Grows x y y' z u t before after h m f =
    let (m', f', _) = before.there (address t) m f in Has-Grows y' z (address t) u after (h m' f')

-- In between of more calls.
pub Serves-Grows :
    (x y y' z : Network) (u a : Str) → Grows x y → Grows y' z → Serves y y' u a → Serves x z u a
Serves-Grows x y y' z u a before after h = record {
  user = λ n f. let (n', f', _) = before.there a n f in Has-Grows y' z a u after (h.user n' f');
  slaves = λ n f on l e.
      let (n', f', k) = before.there a n f in
      let listed : get_counterparts y.coordinator n'.info ≡ ok l =
        ap (λ c. get_counterparts c n'.info) before.coordinator
        ∙ ap (get_counterparts x.coordinator) k.same_info
        ∙ e in
      All-map (Reached y y' u) (Reached x z u) l (λ t. Reached-Grows x y y' z u t before after)
        (h.slaves n' f' (k.same_master ∙ on) l listed);
}

-- A way to call servers by which a login arrives.
pub record Delivers (call : Call) : Type 0 where
  pub grows :
      (r : Request) (a : Str) (net net' : Network)
      → call login_method r a net ≡ ok net'
      → Grows net net'
  pub serves :
      (r : Request) (a : Str) (net net' : Network)
      → call login_method r a net ≡ ok net'
      → Serves net net' r.username a

module _ (call : Call) (d : Delivers call) (r : Request) where
  -- All servers of a list are served, and nothing is lost.
  pub call_each-Serves :
      (l : List ServerInfo) (net net' : Network)
      → call_each call login_method r l net ≡ ok net'
      → Grows net net' × All (λ t. Serves net net' r.username (address t)) l
  unfolding call_each
  call_each-Serves [] net net' h =
      let same : net ≡ net' = cc in (subst (Grows net) same (Grows-refl net), tt)
  call_each-Serves (t ∷ l) net net' h =
      let (mid, first, rest) = >>=-eq-ok (call login_method r (address t) net) _ h in
      let (later, all) = call_each-Serves l mid net' rest in
      let early = d.grows r (address t) net mid first in
      (
        Grows-trans net mid net' early later,
        (
          Serves-Grows net net mid net' r.username (address t) (Grows-refl net) later
              (d.serves r (address t) net mid first),
          All-map (λ t. Serves mid net' r.username (address t))
              (λ t. Serves net net' r.username (address t)) l
              (λ t. Serves-Grows net mid net' net' r.username (address t) early (Grows-refl net'))
              all,
        ),
      )
