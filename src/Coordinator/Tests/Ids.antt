-- ===== src/Coordinator/Tests/Ids.antt =====
-- Runs of the calls of clients.
use distributed_sns.Base.Map.{replace}
use distributed_sns.Coordinator.Ids.{AreIssued, get_unique_client_id-AreIssued, get_server-collides}
use distributed_sns.Coordinator.Clients.{get_unique_client_id}
use distributed_sns.Base.Map.{set, insert}
use mathlib.Core.Path.{subst}
use distributed_sns.Coordinator.Clients.{get_server}
use distributed_sns.Coordinator.Servers.{get_active_master}
use distributed_sns.Base.{◌≢◌, some, arith, suc, length}
use distributed_sns.Base.{◌≡◌, refl, true, false, none, [], ◌∷◌, codes, nat_eq, str_eq}
use distributed_sns.Base.Int.{ℤ, pos, int_eq, int_order}
use distributed_sns.Base.Map.{find, set, insert}
use distributed_sns.Base.Result.{ok}
use distributed_sns.Coordinator.State.{ServerInfo, ok_status, Coordinator}
use distributed_sns.Coordinator.Tests.States.{with_two}

none_issued : AreIssued with_two.client_assignments
unfolding find
none_issued k = ground arith

get_unique_client_id-AreIssued_example :
    (find (get_unique_client_id with_two).1 with_two.client_assignments ≡ none)
    × (find (get_unique_client_id with_two).1 (get_unique_client_id with_two).0.client_assignments
        ≡ some none)
    × (length (get_unique_client_id with_two).0.client_assignments
        ≡ suc (length with_two.client_assignments))
    × ((get_unique_client_id (get_unique_client_id with_two).0).1
        ≢ (get_unique_client_id with_two).1)
    × AreIssued (get_unique_client_id with_two).0.client_assignments
get_unique_client_id-AreIssued_example = get_unique_client_id-AreIssued with_two none_issued

abbrev one_client : Coordinator
one_client = record with_two { client_assignments = (pos 0, none) ∷ [] }

first_id : (get_unique_client_id with_two).0 ≡ one_client
unfolding get_unique_client_id find set insert
first_id = refl

one_issued : AreIssued one_client.client_assignments
one_issued =
    subst (λ c. AreIssued c.client_assignments) first_id
      (get_unique_client_id-AreIssued with_two none_issued).4

abbrev first_info : ServerInfo
first_info = record {
  serverid = pos 1;
  clusterid = pos 1;
  hostname = codes "h";
  port = codes "1";
  type = codes "server";
  registered = false;
  changed = true;
}

abbrev with_client : ℤ → Coordinator
with_client id = record with_two { client_assignments = (id, some (0, pos 1)) ∷ [] }

first_client_served :
    get_server one_client (pos 0) ≡ ok (with_client (pos 0), some first_info, ok_status)
unfolding get_server find int_eq get_active_master nat_eq set replace
first_client_served = refl

unknown_client_served :
    get_server with_two (pos 1) ≡ ok (with_client (pos 1), some first_info, ok_status)
unfolding get_server find get_active_master nat_eq set insert int_eq replace
unknown_client_served = refl

get_server-collides_example : (get_unique_client_id (with_client (pos 1))).1 ≡ pos 1
get_server-collides_example =
    get_server-collides with_two (with_client (pos 1), some first_info, ok_status) none_issued
      unknown_client_served
