-- ===== src/Node.antt =====
-- src/entrypoint.cc, `main`, where the mode is `node`, with the arguments parsed. The directory,
-- the threads of the two servers and the prints are left out: the other processes, and this one's
-- handlers, act in the events of the calls.
pub mod Start
use cs739_p2_replicated_data.Base.{ℕ, String, Option, none, some, List}
use cs739_p2_replicated_data.Config.{Config}
use cs739_p2_replicated_data.World.{World, update}
use cs739_p2_replicated_data.Cluster.{Result, thrown, done, out_of_range, initialize}
use cs739_p2_replicated_data.Startup.{Launch, coordinate}

-- `coordinate`, which ends the program where `memberList->at` throws
unfoldable pub coordinated : Option World → Result World
coordinated none = thrown out_of_range
coordinated (some w) = done w

unfoldable pub node_main :
    (String → List String) → (String → Option ℕ) → String → Launch → Config → World → Result World
unfolding initialize coordinate coordinated
node_main split lexical_cast self launch config w =
    elim (initialize split lexical_cast config.cluster config (w self)) [
      | thrown e ↦ thrown e
      | done p ↦ coordinated (coordinate self launch (update w self p))
    ]
