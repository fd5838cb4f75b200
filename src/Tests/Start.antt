-- ===== src/Tests/Start.antt =====
-- A process that starts beside two others.
use cs739_p2_replicated_data.Base.{String, ◌≡◌, refl, ◌⊎◌, some, inl, str_eq, if◌then◌else◌, arith}
use cs739_p2_replicated_data.Map.{lookup, keys, string_key}
use cs739_p2_replicated_data.ConsensusRpc.Effects.{SameState}
use cs739_p2_replicated_data.World.{World}
use cs739_p2_replicated_data.DatabaseRpc.Laws.{at_once}
use cs739_p2_replicated_data.Startup.{Launch, recover, coordinate}
use cs739_p2_replicated_data.Startup.Start.{coordinate_joins}
use cs739_p2_replicated_data.Attempt.{ping_phase}
use cs739_p2_replicated_data.Attempt.Partition.{partition}
use cs739_p2_replicated_data.Config.{to_string, get_address, decimal}
use cs739_p2_replicated_data.Process.{own_address}
use cs739_p2_replicated_data.Startup.Laws.{or_own, recovery_merges}
use cs739_p2_replicated_data.Tests.{addr_0, addr_1, fresh, reliable, two_up}
use cs739_p2_replicated_data.Tests.Requests.{second_follows}

abbrev pub launch : Launch
launch = record { ask = λ a. at_once; election = at_once; attempt = reliable; recovery = at_once }

recovery_merges_example :
    (w' : World) × (recover addr_1 launch fresh ≡ some w')
    × ((w' addr_1).leader ≡ addr_0)
    × ((j : String)
        → lookup j (w' addr_1).kv_store
          ≡ or_own (lookup j (fresh addr_0).kv_store) (lookup j (fresh addr_1).kv_store))
    × ((a : String) → (addr_1 ≡ a) ⊎ SameState (fresh a) (w' a))
unfolding lookup keys
recovery_merges_example =
    recovery_merges addr_1 launch fresh _ second_follows refl refl ((λ m. m), tt)

-- The first two processes are in reach, and the second has forgotten its leader.
abbrev forgetful : World
forgetful a = if str_eq a addr_1 then record (fresh a) { leader = "" } else fresh a

abbrev pub two_launch : Launch
two_launch = record {
  ask = partition two_up ping_phase;
  election = at_once;
  attempt = reliable;
  recovery = at_once;
}

coordinate_joins_example :
    (w' : World) × (coordinate addr_1 two_launch forgetful ≡ some w')
    × ((w' addr_1).leader ≡ addr_0)
    × ((j : String)
        → lookup j (w' addr_1).kv_store
          ≡ or_own (lookup j (forgetful addr_0).kv_store) (lookup j (forgetful addr_1).kv_store))
unfolding lookup keys own_address to_string get_address decimal
coordinate_joins_example =
    coordinate_joins two_up addr_1 two_launch forgetful addr_0 _ refl refl refl (inl refl) refl refl
      (λ a m t. ground arith) refl refl refl ((λ m. m), tt)
