-- ===== src/Tests/Counters.antt =====
-- The counters of one process, and a file.
use Prim.Native.String.{◌∷◌, ◌++◌}
use cs739_p2_replicated_data.Base.{arith, String, ◌≡◌, refl, false, List, [], ◌∷◌ as cons, str_eq}
use cs739_p2_replicated_data.Map.{get_or, lookup, string_key}
use cs739_p2_replicated_data.Base.Int.{pos}
use cs739_p2_replicated_data.Process.{statistics_line}
use cs739_p2_replicated_data.ConsensusRpc.{get_stats}
use cs739_p2_replicated_data.World.{Event, propose_at, accept_at, steps}
use cs739_p2_replicated_data.World.Counts.{get_stats_counts}
use cs739_p2_replicated_data.Disk.{Files, read_from_disk, write_to_disk}
use cs739_p2_replicated_data.Disk.Laws.{read_from_disk-write_to_disk}
use cs739_p2_replicated_data.Tests.{addr_0, addr_1, fresh, set_k}

-- Two acceptances and a proposal here, and a proposal elsewhere.
abbrev traffic : List Event
traffic = cons (accept_at addr_1 (set_k "v")) (
    cons (propose_at addr_1 (set_k "v"))
      (cons (propose_at addr_0 (set_k "v")) (cons (accept_at addr_1 (set_k "u")) [])))

get_stats_counts_example :
    get_or "ConsensusRPC::accept"
      (pos 0)
      (get_stats false (steps traffic fresh addr_1)).0.response.incount
    ≡ pos 2
unfolding get_or lookup
get_stats_counts_example =
    get_stats_counts addr_1 "ConsensusRPC::accept" traffic fresh 0 refl (omega arith)

print_counts :
    statistics_line (cons ("a", pos 1) (cons ("b", pos 2) []))
    ≡ "registered rpc call counts: [, a, b]"
unfolding statistics_line
print_counts = refl

abbrev files : Files
files = cons ("log", "old") []

read_from_disk-write_to_disk_example :
    let after : String → String =
      λ value. read_from_disk "log" (write_to_disk (λ path. str_eq path "log") "log" value files) in
    (after "new" ≡ "new") × (after ("new" ++ ("\n" ∷ "more")) ≡ "new")
read_from_disk-write_to_disk_example =
    read_from_disk-write_to_disk (λ path. str_eq path "log") "log" "log" "new" "more" files refl
