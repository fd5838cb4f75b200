-- ===== src/Tests/Recovered.antt =====
-- The theorems about the rounds of a key and the recovered store, on the small cluster.
use cs739_p2_replicated_data.Base.{
  ℕ, String, ◌≡◌, refl, ◌≤◌, ◌+◌, arith, some, [], ◌∷◌, str_eq, if◌then◌else◌,
}
use cs739_p2_replicated_data.Map.{lookup, get_or}
use cs739_p2_replicated_data.Map.Sorted.{IsSorted, Above}
use cs739_p2_replicated_data.Process.{own_address}
use cs739_p2_replicated_data.Config.{to_string, get_address, decimal}
use cs739_p2_replicated_data.World.{World}
use cs739_p2_replicated_data.Base.Int.{pos}
use cs739_p2_replicated_data.Map.{size, keys}
use cs739_p2_replicated_data.Attempt.{next_round}
use cs739_p2_replicated_data.Attempt.History.{history}
use cs739_p2_replicated_data.Attempt.Leads.{rounds_at}
use cs739_p2_replicated_data.Attempt.Counted.{history-next_round}
use cs739_p2_replicated_data.DatabaseRpc.Laws.{IsFollower}
use cs739_p2_replicated_data.Startup.{recover}
use cs739_p2_replicated_data.Startup.Copies.{recovery_copies}
use cs739_p2_replicated_data.Tests.{members, voted, addr_1, fresh, process, node_0, node_1}
use cs739_p2_replicated_data.Tests.Start.{launch}
use cs739_p2_replicated_data.Tests.Attempts.{next, late}

-- The second process has started anew.
abbrev emptied : World
emptied a = if str_eq a addr_1 then record (process 8001 node_1) { kv_store = [] } else fresh a

emptied_follows : IsFollower (emptied addr_1)
unfolding own_address to_string get_address decimal
emptied_follows = record { known = refl; other = refl }

recovery_copies_example :
    (w' : World) × (recover addr_1 launch emptied ≡ some w')
    × ((w' addr_1).kv_store ≡ ("j", "w") ∷ [])
unfolding lookup IsSorted Above
recovery_copies_example =
    recovery_copies addr_1 launch emptied node_0 emptied_follows refl refl (tt, tt) refl

voted_members : (a : String) → keys (voted a).member_list ≡ members
unfolding keys
voted_members a = ground arith

history-next_round_example :
    (n : ℕ) × (next_round addr_1 "k" (history (next ∷ late ∷ []) voted) ≡ pos n)
    × (n ≡ size (rounds_at "k" addr_1 (history (next ∷ late ∷ []) voted)))
    × (n ≤ size (rounds_at "k" addr_1 voted) + 2)
unfolding keys get_or lookup IsSorted Above
history-next_round_example =
    history-next_round "k" members (omega arith) (next ∷ late ∷ []) voted addr_1 voted_members
      ((λ phase a. tt), ((λ phase a. tt), tt)) (tt, tt) (omega arith)
