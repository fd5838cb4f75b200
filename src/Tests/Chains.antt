-- ===== src/Tests/Chains.antt =====
-- Requests that are forwarded twice.
use cs739_p2_replicated_data.Base.{inl}
use cs739_p2_replicated_data.Base.{◌≡◌, refl, false, str_eq, if◌then◌else◌, arith}
use cs739_p2_replicated_data.Map.{lookup, string_key}
use cs739_p2_replicated_data.Config.{to_string, get_address, decimal}
use cs739_p2_replicated_data.Process.{own_address}
use cs739_p2_replicated_data.World.{World}
use cs739_p2_replicated_data.World.Laws.{Rel}
use cs739_p2_replicated_data.ConsensusRpc.Effects.{SameState}
use cs739_p2_replicated_data.DatabaseCall.{call_get}
use cs739_p2_replicated_data.DatabaseCall.Laws.{alone, user_reads_leader}
use cs739_p2_replicated_data.World.{delivered}
use cs739_p2_replicated_data.DatabaseRpc.{get, local_get, set, set_attempt}
use cs739_p2_replicated_data.DatabaseRpc.Forwarded.{StoredBy, set-Chain}
use cs739_p2_replicated_data.Proto.{ok}
use cs739_p2_replicated_data.Map.{keys, get_or}
use cs739_p2_replicated_data.Log.{entry}
use cs739_p2_replicated_data.Base.Int.{to_int32}
use cs739_p2_replicated_data.Attempt.{next_round}
use cs739_p2_replicated_data.Attempt.Liveness.{CanCommit}
use cs739_p2_replicated_data.DatabaseRpc.Laws.{IsFollower}
use cs739_p2_replicated_data.DatabaseRpc.Reads.{answer}
use cs739_p2_replicated_data.DatabaseRpc.Chains.{leads, follows, get-Chain}
use cs739_p2_replicated_data.Tests.{two_up, members-IsDistinct, addr_0, addr_1, addr_2, fresh}
use cs739_p2_replicated_data.Tests.Requests.{fair, set_u, first_leads, second_follows}

-- The third process takes the second for the leader, which has the first for its own.
abbrev chained : World
chained a = if str_eq a addr_2 then record (fresh addr_2) { leader = addr_1 } else fresh a

third_follows : IsFollower (chained addr_2)
unfolding own_address to_string get_address decimal
third_follows = record { known = refl; other = refl }

get-Chain_example :
    ((get 3 addr_2 fair "j" false chained).0 ≡ answer (local_get "j" (chained addr_0)))
    × Rel SameState chained (get 3 addr_2 fair "j" false chained).1
unfolding lookup
get-Chain_example =
    get-Chain 2 2 addr_2 addr_0 fair "j" chained (omega arith)
      (follows 1 addr_2 addr_0 _ third_follows refl
        (follows 0 addr_1 addr_0 _ second_follows refl (leads addr_0 first_leads)))
      (λ path. refl)

user_reads_leader_example :
    ((call_get "user" (alone delivered) addr_2 3 fair "j" chained).0 ≡ "w")
    × Rel SameState chained (call_get "user" (alone delivered) addr_2 3 fair "j" chained).1
unfolding lookup get_or
user_reads_leader_example =
    user_reads_leader 2 2 "user" addr_2 addr_0 delivered fair "j" chained (omega arith)
      (follows 1 addr_2 addr_0 _ third_follows refl
        (follows 0 addr_1 addr_0 _ second_follows refl (leads addr_0 first_leads)))
      (λ path. refl)

chained_commits : CanCommit two_up addr_0 (set_attempt set_u) chained
unfolding next_round to_int32 keys get_or entry lookup
chained_commits = record {
  distinct = members-IsDistinct;
  is_member = inl refl;
  is_up = refl;
  half_up = omega arith;
  free = λ a t. ground arith;
  latest = λ a t. ground arith;
}

set-Chain_example :
    ((set 3 addr_2 fair set_u false chained).0.status ≡ ok)
    × StoredBy two_up addr_0 set_u chained (set 3 addr_2 fair set_u false chained).1
unfolding lookup
set-Chain_example =
    set-Chain two_up set_u refl 2 2 addr_2 addr_0 fair chained (omega arith)
      (follows 1 addr_2 addr_0 _ third_follows refl
        (follows 0 addr_1 addr_0 _ second_follows refl (leads addr_0 first_leads)))
      (λ path. refl) (λ path. refl) chained_commits
