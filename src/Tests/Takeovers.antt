-- ===== src/Tests/Takeovers.antt =====
-- The leader is out of reach, and the second process takes over.
use cs739_p2_replicated_data.Base.{String, ◌≡◌, refl, Bool, false, not, inl, inr, str_eq, arith}
use cs739_p2_replicated_data.Base.Int.{to_int32}
use cs739_p2_replicated_data.Map.{lookup, keys, get_or, string_key}
use cs739_p2_replicated_data.Log.{entry}
use cs739_p2_replicated_data.Config.{to_string, get_address, decimal}
use cs739_p2_replicated_data.Process.{own_address}
use cs739_p2_replicated_data.Attempt.{next_round}
use cs739_p2_replicated_data.Attempt.Liveness.{CanCommit}
use cs739_p2_replicated_data.Attempt.Partition.{partition}
use cs739_p2_replicated_data.Election.{election_request}
use cs739_p2_replicated_data.Election.Laws.{for_leader}
use cs739_p2_replicated_data.DatabaseRpc.{Weather, Hop, first, again, get, local_get}
use cs739_p2_replicated_data.DatabaseRpc.Laws.{at_once}
use cs739_p2_replicated_data.DatabaseRpc.Reads.{answer}
use cs739_p2_replicated_data.DatabaseRpc.Failover.{cut_off}
use cs739_p2_replicated_data.DatabaseRpc.Takeover.{CanTakeOver, get-CanTakeOver}
use cs739_p2_replicated_data.World.{Slot}
use cs739_p2_replicated_data.Tests.{addr_0, addr_1, fresh, node_0, node_1, members-IsDistinct}
use cs739_p2_replicated_data.Tests.Requests.{second_follows}

-- The first process is out of reach.
abbrev others_up : String → Bool
others_up a = not (str_eq a addr_0)

abbrev one_call : Hop → Slot
one_call first = cut_off
one_call again = at_once

abbrev bad_weather : Weather
bad_weather path = record { forward = one_call; election = at_once; attempt = partition others_up }

elects : CanCommit others_up addr_1 (election_request (for_leader addr_1)) fresh
unfolding next_round to_int32 keys get_or entry lookup
elects = record {
  distinct = members-IsDistinct;
  is_member = inr (inl refl);
  is_up = refl;
  half_up = omega arith;
  free = λ a t. ground arith;
  latest = λ a t. ground arith;
}

takes_over : CanTakeOver others_up addr_1 bad_weather fresh
unfolding lookup own_address to_string get_address decimal
takes_over = record {
  follower = second_follows;
  leader_node = node_0;
  known = refl;
  lost = refl;
  election = refl;
  attempt = refl;
  retry = refl;
  address = refl;
  current = refl;
  own = node_1;
  listed = refl;
  endpoint = refl;
  named = refl;
  can = elects;
}

get-CanTakeOver_example :
    ((get 2 addr_1 bad_weather "j" false fresh).0 ≡ answer (local_get "j" (fresh addr_1)))
    × (((get 2 addr_1 bad_weather "j" false fresh).1 addr_1).leader ≡ addr_1)
get-CanTakeOver_example = get-CanTakeOver others_up addr_1 bad_weather "j" fresh takes_over 0
