-- ===== src/Tests/Lost.antt =====
-- Three attempts in one round, one after the other, in a cluster of five: a value that was chosen
-- and reported is replaced, as two values had been accepted and each acceptor's id is 1.
use cs739_p2_replicated_data.Base.{
  String, some, ◌≡◌, refl, true, [], ◌∷◌, str_eq, if◌then◌else◌, not, ◌&&◌,
}
use cs739_p2_replicated_data.Map.{lookup, insert, modify, get_or, keys, string_key, int_key}
use cs739_p2_replicated_data.Base.Int.{to_int32}
use cs739_p2_replicated_data.Proto.{is_ok}
use cs739_p2_replicated_data.Log.{
  modify_entry, entry, set_log, set_log_accept, get_log_entry, get_log_key, largest_round,
}
use cs739_p2_replicated_data.Database.{set_kv}
use cs739_p2_replicated_data.Process.{Node, count_incoming, count_outgoing, increment}
use cs739_p2_replicated_data.ConsensusRpc.{propose, accept, success, ping}
use cs739_p2_replicated_data.World.{
  World, step, delivered, unreachable, deliver, stub, steps, count_call,
}
use cs739_p2_replicated_data.Call.{call_ping, call_propose, call_accept, call_success}
use cs739_p2_replicated_data.Attempt.{
  Network, accept_phase, broadcast, lacks_quorum, next_round, ping_all, propose_all, accept_all,
  success_all, propose_stage, accept_stage, success_stage, attempt_consensus,
}
use cs739_p2_replicated_data.Attempt.History.{Turn, history}
use cs739_p2_replicated_data.Attempt.Partition.{partition}
use cs739_p2_replicated_data.Tests.{fresh, set_k}

abbrev node_of : String → Node
node_of a = record { consensus_endpoint = a; database_endpoint = a }

abbrev five : World
five a = record (fresh a) {
  member_list =
      ("a", node_of "a")
      ∷ ("b", node_of "b")
      ∷ ("c", node_of "c")
      ∷ ("d", node_of "d")
      ∷ ("e", node_of "e")
      ∷ [];
}

-- "d" and "e" are out of reach, and only "a" gets the accept request.
abbrev half_done : Network
half_done accept_phase a = record {
  others = [];
  delivery = if str_eq a "a" then delivered else unreachable;
}
half_done _ a = record {
  others = [];
  delivery = if str_eq a "d" then unreachable else if str_eq a "e" then unreachable else delivered;
}

abbrev first : Turn
first = record { self = "a"; net = half_done; request = set_k "u" }

abbrev second : Turn
second = record {
  self = "d";
  net = partition (λ a. not (str_eq a "a") && not (str_eq a "e"));
  request = set_k "v";
}

abbrev third : Turn
third = record { self = "e"; net = partition (λ a. true); request = set_k "x" }

-- The second attempt returns OK with "v".
second_chooses :
    (is_ok
        (attempt_consensus second.self second.net second.request
          (history (first ∷ []) five)).0.status
      ≡ true)
    × ((attempt_consensus second.self second.net second.request
          (history (first ∷ []) five)).0.response.value
        ≡ "v")
unfolding attempt_consensus lacks_quorum ping_all broadcast keys call_ping stub ping propose_all
    call_propose propose get_log_entry get_or set_log modify count_incoming count_call next_round
    accept_all accept_stage propose_stage success_all success_stage to_int32 call_accept
    call_success accept success set_kv entry get_log_key largest_round modify_entry set_log_accept
    insert lookup count_outgoing increment deliver step steps history
second_chooses = (refl, refl)

-- The third attempt, in the same round, returns OK with "u", which then stands in every store.
third_replaces :
    (next_round third.self "k" (history (first ∷ second ∷ []) five)
      ≡ next_round second.self "k" (history (first ∷ []) five))
    × (is_ok
          (attempt_consensus third.self third.net third.request
            (history (first ∷ second ∷ []) five)).0.status
        ≡ true)
    × ((attempt_consensus third.self third.net third.request
          (history (first ∷ second ∷ []) five)).0.response.value
        ≡ "u")
    × (lookup "k"
          ((attempt_consensus third.self third.net third.request
              (history (first ∷ second ∷ []) five)).1
            "d").kv_store
        ≡ some "u")
unfolding attempt_consensus lacks_quorum ping_all broadcast keys call_ping stub ping propose_all
    call_propose propose get_log_entry get_or set_log modify count_incoming count_call next_round
    accept_all accept_stage propose_stage success_all success_stage to_int32 call_accept
    call_success accept success set_kv entry get_log_key largest_round modify_entry set_log_accept
    insert lookup count_outgoing increment deliver step steps history
third_replaces = (refl, refl, refl, refl)
