-- ===== src/Tests/Users.antt =====
-- The program in user mode, on the small cluster.
use cs739_p2_replicated_data.Base.{String, ◌≡◌, refl, List, [], ◌∷◌, map}
use cs739_p2_replicated_data.Map.{keys}
use cs739_p2_replicated_data.Database.{Store}
use cs739_p2_replicated_data.DatabaseRpc.Laws.{at_once}
use cs739_p2_replicated_data.User.{Console, Setting}
use cs739_p2_replicated_data.User.Commands.{Exit, returned}
use cs739_p2_replicated_data.User.Entry.{Table, user_entrypoint}
use cs739_p2_replicated_data.User.Sessions.{user_entrypoint_reads_back}
use cs739_p2_replicated_data.Tests.{addr_0, fresh, two_up, can_commit}
use cs739_p2_replicated_data.Tests.Requests.{fair, set_u, first_leads}

-- Every call goes to the first process.
abbrev pub setting : Setting
setting = record {
  user = "user";
  serves = λ target. addr_0;
  passage = λ n. record { slot = at_once; fuel = 2; weather = fair };
  rand = λ n. n;
}

abbrev screen : Console
screen = record { world = fresh; calls = 0; rolls = 0; output = [] }

pub show_values : Store → List String
show_values db = map (λ (x : String × String). x.1) db

pub no_tables : Table → Table → List String
no_tables i o = []

abbrev set_run : Exit × Console
set_run =
    user_entrypoint setting show_values no_tables
      (record { command = "set"; target = "127.0.1.1:9000"; key = "k"; value = "u" }) screen

abbrev get_run : Exit × Console
get_run =
    user_entrypoint setting show_values no_tables
      (record { command = "get"; target = "127.0.1.1:9000"; key = "k"; value = "value-default" })
      set_run.1

user_entrypoint_reads_back_example :
    (set_run.0 ≡ returned)
    × (get_run.0 ≡ returned)
    × (get_run.1.output
        ≡ "arguments provided: set k u 127.0.1.1:9000"
          ∷ "arguments provided: get k value-default 127.0.1.1:9000" ∷ "u" ∷ [])
unfolding keys
user_entrypoint_reads_back_example =
    user_entrypoint_reads_back setting show_values no_tables set_u "127.0.1.1:9000" addr_0
      "value-default" screen two_up refl (record { slot = refl; fuel = 1; enough = refl })
      (record { slot = refl; fuel = 1; enough = refl }) refl (can_commit _) refl first_leads
