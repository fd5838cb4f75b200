-- ===== src/Program.antt =====
-- src/entrypoint.cc, `main`: the options, the cluster, and then the mode that was asked for. The
-- prints, the directory of the database and the threads of the servers are left out.
pub mod Server
pub mod Command
use cs739_p2_replicated_data.Base.{ℕ, String, Option, List, []}
use cs739_p2_replicated_data.Config.{Config, Mode}
use cs739_p2_replicated_data.World.{World, update}
use cs739_p2_replicated_data.Cluster.{Exception, Result, thrown, done, initialize}
use cs739_p2_replicated_data.Startup.{Launch}
use cs739_p2_replicated_data.Node.{node_main}
use cs739_p2_replicated_data.Database.{Store}
use cs739_p2_replicated_data.Options.{
  Outcome, value, error, bad_cast, ProgramOptions, Machine, exited, terminated, parsed,
}
use cs739_p2_replicated_data.Options.Node.{parse_node}
use cs739_p2_replicated_data.Options.User.{parse_user, arguments_of}
use cs739_p2_replicated_data.User.{Arguments, Console, Setting}
use cs739_p2_replicated_data.User.Commands.{Exit}
use cs739_p2_replicated_data.User.Entry.{Table, user_entrypoint}

-- How the program ends, or that it has come to its servers.
pub data Ending : Type 0 where
  exits : ℕ → Ending
  crashes : Ending
  throws : Exception → Ending
  serves : World → Ending
  returns : Exit → Console → Ending

abbrev served : Result World → Ending
served (thrown e) = throws e
served (done w) = serves w

module _ (po : ProgramOptions) (m : Machine) (split : String → List String)
    (lexical_cast : String → Option ℕ) (e : Setting) (visit : Store → List String)
    (show : Table → Table → List String) (launch : Launch) where
  unfoldable pub user_command : Outcome Arguments → World → Ending
  unfolding user_entrypoint
  user_command (value a) w =
      let (exit, s) =
        user_entrypoint e visit show a (record { world = w; calls = 0; rolls = 0; output = [] }) in
      returns exit s
  user_command (error message) w = crashes
  user_command bad_cast w = crashes

  -- The second parsing, and the command.
  unfoldable pub user_mode : List String → Config → po.Variables → World → Ending
  unfolding parse_user arguments_of user_command
  user_mode argv config variables w = elim (parse_user po m argv config variables) [
    | exited n ↦ exits n
    | terminated ↦ crashes
    | parsed c v ↦ user_command (arguments_of po m v) w
  ]

  unfoldable pub run_mode : Mode → List String → Config → po.Variables → World → Ending
  unfolding initialize node_main user_mode
  run_mode Mode.node argv config variables w =
      served (node_main split lexical_cast e.user launch config w)
  run_mode Mode.user argv config variables w =
      elim (initialize split lexical_cast config.cluster config (w e.user)) [
        | thrown x ↦ throws x
        | done p ↦ user_mode argv config variables (update w e.user p)
      ]

  unfoldable pub main : List String → Config → po.Variables → World → Ending
  unfolding parse_node run_mode
  main argv config variables w = elim (parse_node po m argv config variables) [
    | exited n ↦ exits n
    | terminated ↦ crashes
    | parsed c v ↦ run_mode c.mode argv c v w
  ]
