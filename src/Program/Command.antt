-- ===== src/Program/Command.antt =====
-- `main` in user mode, from the command line to the command.
use cs739_p2_replicated_data.Base.{ℕ, String, ◌≡◌, refl, ap, ◌∙◌, Option, none, some, List, []}
use cs739_p2_replicated_data.Base.Lists.{All}
use cs739_p2_replicated_data.Config.{Config, Mode}
use cs739_p2_replicated_data.Process.{Process}
use cs739_p2_replicated_data.World.{World, update}
use cs739_p2_replicated_data.Cluster.{done, initialize}
use cs739_p2_replicated_data.Startup.{Launch}
use cs739_p2_replicated_data.Database.{Store}
use cs739_p2_replicated_data.Options.{Value, text, value, ProgramOptions, Machine, parsed, value_of}
use cs739_p2_replicated_data.Options.Schema.{user_options}
use cs739_p2_replicated_data.Options.Node.{parse_node}
use cs739_p2_replicated_data.Options.Documented.{Documented}
use cs739_p2_replicated_data.Options.Arguments.{
  argument_names, UserReads, chosen_argument, parse_user_priority,
}
use cs739_p2_replicated_data.User.{Arguments, Setting}
use cs739_p2_replicated_data.User.Entry.{Table, user_entrypoint}
use cs739_p2_replicated_data.Program.{returns, user_command, user_mode, run_mode, main}

module _ (po : ProgramOptions) (m : Machine) (split : String → List String)
    (lexical_cast : String → Option ℕ) (e : Setting) (visit : Store → List String)
    (show : Table → Table → List String) (launch : Launch) where
  -- Let the first parsing return the settings `c` with the mode USER, the cluster be initialized,
  -- and the second parsing throw nothing and ask for no help, its arguments not being set before.
  -- Then `main` runs the command with the arguments that the command line gives, or else the file
  -- that is named, if it can be opened, or else their defaults, and returns as the command does.
  pub main_command :
      (doc : Documented po) (argv : List String) (config c : Config) (w : World) (p : Process)
      (g : po.Parsed) (unset v v₁ v₂ : po.Variables) (h : String → Option Value) (a : Arguments)
      → parse_node po m argv config unset ≡ parsed c v
      → c.mode ≡ Mode.user
      → initialize split lexical_cast c.cluster c (w e.user) ≡ done p
      → All (λ n. po.found n v ≡ none) argument_names
      → po.parse_command_line user_options argv ≡ value g
      → po.store user_options g v ≡ value v₁
      → UserReads po m v₁ h v₂
      → value_of (po.found "help" v₂) ≡ none
      → chosen_argument po m g h "command" ≡ some (text a.command)
      → chosen_argument po m g h "target" ≡ some (text a.target)
      → chosen_argument po m g h "key" ≡ some (text a.key)
      → chosen_argument po m g h "value" ≡ some (text a.value)
      → main po m split lexical_cast e visit show launch argv config unset w ≡ (
          let (exit, s) =
            user_entrypoint e visit show a
              (record { world = update w e.user p; calls = 0; rolls = 0; output = [] }) in
          returns exit s)
  unfolding main run_mode user_mode user_command
  main_command doc argv config c w p g unset v v₁ v₂ h a first mode ready fresh read stored reads
        plain hc ht hk hv =
      let second =
        parse_user_priority po m doc argv c g v v₁ v₂ h a fresh read stored reads plain hc ht hk
          hv in
      rw (main, first)
        (ap (λ (x : Mode). run_mode po m split lexical_cast e visit show launch x argv c v w) mode
          ∙ rw (run_mode, ready, user_mode, second.0, second.1) refl)
