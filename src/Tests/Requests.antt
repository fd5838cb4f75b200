-- ===== src/Tests/Requests.antt =====
-- Requests of users and elections on small clusters.
use cs739_p2_replicated_data.Base.{ℕ, suc, String, ◌≡◌, refl, true, false, str_eq, if◌then◌else◌}
use cs739_p2_replicated_data.Base.Int.{pos}
use cs739_p2_replicated_data.Map.{keys, string_key}
use cs739_p2_replicated_data.Proto.{SetRequest, ElectLeaderRequest, is_ok}
use cs739_p2_replicated_data.Config.{to_string, get_address, decimal}
use cs739_p2_replicated_data.Database.{set_kv}
use cs739_p2_replicated_data.Process.{own_address}
use cs739_p2_replicated_data.ConsensusRpc.Effects.{SameState}
use cs739_p2_replicated_data.World.Laws.{Rel}
use cs739_p2_replicated_data.Attempt.Partition.{partition}
use cs739_p2_replicated_data.Election.{elect_leader}
use cs739_p2_replicated_data.Election.Laws.{election_informs_all, failed_election_changes_nothing}
use cs739_p2_replicated_data.DatabaseRpc.{Weather, local_get, get, set}
use cs739_p2_replicated_data.DatabaseRpc.Laws.{IsLeader, IsFollower, at_once}
use cs739_p2_replicated_data.DatabaseRpc.Reads.{answer}
use cs739_p2_replicated_data.DatabaseRpc.Writes.{set_then_get}
use cs739_p2_replicated_data.Base.{[], ◌∷◌}
use cs739_p2_replicated_data.Base.Lists.{All}
use cs739_p2_replicated_data.Tests.{addr_0, addr_1, fresh, two_up, one_up, can_commit}

abbrev pub fair : Weather
fair hops = record { forward = λ hop. at_once; election = at_once; attempt = partition two_up }

abbrev pub set_u : SetRequest
set_u = record { key = "k"; value = "u" }

pub first_leads : IsLeader (fresh addr_0)
unfolding own_address to_string get_address decimal
first_leads = record { known = refl; own = refl }

pub second_follows : IsFollower (fresh addr_1)
unfolding own_address to_string get_address decimal
second_follows = record { known = refl; other = refl }

set_then_get_example :
    (is_ok (set 1 addr_0 fair set_u false fresh).0.status ≡ true)
    × ((fuel : ℕ) (weather : Weather) (key : String)
        → (get (suc fuel) addr_0 weather key false (set 1 addr_0 fair set_u false fresh).1).0
          ≡ answer (
              if str_eq "k" key
              then record { value = "u"; error = pos 0 }
              else local_get key (fresh addr_0)))
    × All
        (λ a.
          ((set 1 addr_0 fair set_u false fresh).1 a).kv_store ≡ set_kv "k" "u" (fresh a).kv_store)
        (addr_0 ∷ addr_1 ∷ [])
unfolding keys
set_then_get_example =
    set_then_get 0 addr_0 fair set_u fresh two_up refl (can_commit _) refl first_leads

abbrev elect_second : ElectLeaderRequest
elect_second = record { key = "leader"; value = addr_1 }

election_informs_all_example :
    (is_ok (elect_leader addr_0 (partition two_up) elect_second false fresh).0.status ≡ true)
    × All
        (λ a.
          ((elect_leader addr_0 (partition two_up) elect_second false fresh).1 a).leader ≡ addr_1)
        (addr_0 ∷ addr_1 ∷ [])
unfolding keys
election_informs_all_example = election_informs_all two_up addr_0 addr_1 fresh (can_commit _)

failed_election_changes_nothing_example :
    Rel SameState fresh (elect_leader addr_0 (partition one_up) elect_second true fresh).1
unfolding elect_leader
failed_election_changes_nothing_example =
    failed_election_changes_nothing addr_0 (partition one_up) elect_second true fresh
      (λ phase a. tt) refl
