-- ===== src/Network/Sending.antt =====
-- What a master sends on of a login, and what it leaves.
use mathlib.Core.Path.{subst}
use distributed_sns.Base.{◌≡◌, refl, ◌∙◌, sym, inl, inr, true, false, List, str_eq, Bool-cases, All}
use distributed_sns.Base.Result.{Result, ok, >>=-eq-ok, ◌>>=◌}
use distributed_sns.Coordinator.State.{ServerInfo}
use distributed_sns.Coordinator.Servers.{get_counterparts, get_other_cluster_masters}
use distributed_sns.Server.State.{Request, login_method, Destination, counterparts, other_masters}
use distributed_sns.Network.State.{Network, address}
use distributed_sns.Network.Propagation.{Call, destinations, propogate_helper, send_all}
use distributed_sns.Network.Logins.{outgoing}
use distributed_sns.Network.Delivery.{
  Grows, Grows-refl, Grows-trans, Serves, Serves-Grows, All-map, Delivers, call_each-Serves,
}

pub ok_inj : {A : Type 0} (x y : A) → ◌≡◌ {A = Result A} (ok x) (ok y) → x ≡ y
ok_inj x y h = cc

module _ (call : Call) (d : Delivers call) (info : ServerInfo) (r : Request) where
  propogate_helper-Serves :
      (to : Destination) (l : List ServerInfo) (net net' : Network)
      → destinations net.coordinator info to ≡ ok l
      → propogate_helper call info login_method r to net ≡ ok net'
      → Grows net net' × All (λ t. Serves net net' r.username (address t)) l
  unfolding propogate_helper
  propogate_helper-Serves to l net net' e h =
      call_each-Serves call d r l net net' (rw (e, ◌>>=◌) at h)

  helper_listed :
      (to : Destination) (net net' : Network)
      → propogate_helper call info login_method r to net ≡ ok net'
      → (l : List ServerInfo) × (destinations net.coordinator info to ≡ ok l)
  unfolding propogate_helper
  helper_listed to net net' h =
      let (l, e, _) = >>=-eq-ok (destinations net.coordinator info to) _ h in (l, e)

  pub propogate_helper-Grows :
      (to : Destination) (net net' : Network)
      → propogate_helper call info login_method r to net ≡ ok net'
      → Grows net net'
  propogate_helper-Grows to net net' h =
      let (l, e) = helper_listed to net net' h in (propogate_helper-Serves to l net net' e h).0

-- What a master sends on.
pub record Sends (info : ServerInfo) (r : Request) (net net' : Network) : Type 0 where
  pub grows : Grows net net'
  pub slaves :
      (l : List ServerInfo)
      → get_counterparts net.coordinator info ≡ ok l
      → All (λ t. Serves net net' r.username (address t)) l
  pub masters :
      r.from_server ≡ false
      → All
          (λ t. Serves net net' r.username (address t))
          (get_other_cluster_masters net.coordinator info)

abbrev pub inner : Request → Request
inner r = record r { from_server = true }

module _ (call : Call) (d : Delivers call) (info : ServerInfo) (r : Request) where
  -- First the slaves; the other masters come after.
  slaves_then :
      (net mid net' : Network)
      → propogate_helper call info login_method (inner r) counterparts net ≡ ok mid
      → Grows mid net'
      → (l : List ServerInfo) → get_counterparts net.coordinator info ≡ ok l
      → All (λ t. Serves net net' r.username (address t)) l
  unfolding destinations
  slaves_then net mid net' h later l e =
      All-map (λ t. Serves net mid r.username (address t))
        (λ t. Serves net net' r.username (address t)) l
        (λ t. Serves-Grows net net mid net' r.username (address t) (Grows-refl net) later)
        (propogate_helper-Serves call d info (inner r) counterparts l net mid e h).1

  then_masters :
      (net mid net' : Network)
      → Grows net mid
      → propogate_helper call info login_method (inner r) other_masters mid ≡ ok net'
      → All
          (λ t. Serves net net' r.username (address t))
          (get_other_cluster_masters net.coordinator info)
  unfolding destinations
  then_masters net mid net' early h =
      let l = get_other_cluster_masters mid.coordinator info in
      subst
        (λ c. All (λ t. Serves net net' r.username (address t)) (get_other_cluster_masters c info))
        early.coordinator
        (All-map (λ t. Serves mid net' r.username (address t))
          (λ t. Serves net net' r.username (address t)) l
          (λ t. Serves-Grows net mid net' net' r.username (address t) early (Grows-refl net'))
          (propogate_helper-Serves call d info (inner r) other_masters l mid net' refl h).1)

  pub send_all-Sends :
      (net net' : Network)
      → send_all call info (outgoing login_method r true) net ≡ ok net'
      → Sends info r net net'
  unfolding send_all
  send_all-Sends net net' h =
      let (mid, to_slaves, rest) =
        >>=-eq-ok (propogate_helper call info login_method (inner r) counterparts net) _ h in
      let early = propogate_helper-Grows call d info (inner r) counterparts net mid to_slaves in
      elim (Bool-cases r.from_server) [
        | inl on ↦
            let done : ◌≡◌ {A = Result Network} (ok mid) (ok net') = rw on at rest in
            subst (Sends info r net) (ok_inj mid net' done) (record {
              grows = early;
              slaves = slaves_then net mid mid to_slaves (Grows-refl mid);
              masters = λ off. absurd (let clash : true ≡ false = sym on ∙ off in cc);
            })
        | inr off ↦
            let (last, to_masters, end) =
              >>=-eq-ok (propogate_helper call info login_method (inner r) other_masters mid) _
                (rw off at rest) in
            let later =
              propogate_helper-Grows call d info (inner r) other_masters mid last to_masters in
            subst (Sends info r net) (ok_inj last net' end) (record {
              grows = Grows-trans net mid last early later;
              slaves = slaves_then net mid last to_slaves later;
              masters = λ _. then_masters net mid last early to_masters;
            })
      ]
