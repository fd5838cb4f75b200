-- ===== src/Options/Schema.antt =====
-- src/utility.cc, `parse_options`: the options that it declares, with their defaults.
pub mod Settings
use cs739_p2_replicated_data.Base.{String, true, false, none, some, List, [], ◌∷◌, ◌++◌}
use cs739_p2_replicated_data.Base.Int.{pos}
use cs739_p2_replicated_data.Config.{Config}
use cs739_p2_replicated_data.Options.{
  Value, text, texts, number, integer, switch, Declared, Machine, concatenate_path,
}

-- An option whose value the code reads from the variables.
abbrev plain : String → Declared
plain name = record { name = name; default = none; store_to = λ v c. c }

abbrev with_default : String → String → Declared
with_default name s = record { name = name; default = some (text s); store_to = λ v c. c }

store_port_database : Value → Config → Config
store_port_database (number n) c = record c { port_database = n }
store_port_database _ c = c

store_port_consensus : Value → Config → Config
store_port_consensus (number n) c = record c { port_consensus = n }
store_port_consensus _ c = c

store_database_directory : Value → Config → Config
store_database_directory (text s) c = record c { database_directory = s }
store_database_directory _ c = c

store_cluster : Value → Config → Config
store_cluster (texts l) c = record c { cluster = l }
store_cluster _ c = c

store_debug : Value → Config → Config
store_debug (switch b) c = record c { flag = record c.flag { debug = b } }
store_debug _ c = c

store_leader : Value → Config → Config
store_leader (switch b) c = record c { flag = record c.flag { leader = b } }
store_leader _ c = c

store_local_ubuntu : Value → Config → Config
store_local_ubuntu (switch b) c = record c { flag = record c.flag { local_ubuntu = b } }
store_local_ubuntu _ c = c

store_timeout : Value → Config → Config
store_timeout (integer i) c = record c { flag = record c.flag { timeout = i } }
store_timeout _ c = c

store_failrate : Value → Config → Config
store_failrate (integer i) c = record c { flag = record c.flag { failrate = i } }
store_failrate _ c = c

store_latency : Value → Config → Config
store_latency (switch b) c = record c { flag = record c.flag { latency = b } }
store_latency _ c = c

store_election : Value → Config → Config
store_election (switch b) c = record c { flag = record c.flag { election = b } }
store_election _ c = c

abbrev pub generic : List Declared
generic = plain "help" ∷ plain "config" ∷ plain "mode" ∷ []

unfoldable pub primary : Machine → List Declared
unfolding concatenate_path store_port_database store_port_consensus store_database_directory
    store_cluster store_debug store_leader store_local_ubuntu store_timeout store_failrate
    store_latency store_election
primary m =
    record { name = "port_database"; default = some (number 9000); store_to = store_port_database }
    ∷ record {
      name = "port_consensus";
      default = some (number 8000);
      store_to = store_port_consensus;
    }
    ∷ record {
      name = "database_directory";
      default = some (text (concatenate_path m m.current_path "tmp/server"));
      store_to = store_database_directory;
    }
    ∷ record { name = "cluster.address"; default = none; store_to = store_cluster }
    ∷ record { name = "flag.debug"; default = some (switch false); store_to = store_debug }
    ∷ record { name = "flag.leader"; default = some (switch false); store_to = store_leader }
    ∷ record {
      name = "flag.local_ubuntu";
      default = some (switch false);
      store_to = store_local_ubuntu;
    }
    ∷ record {
      name = "flag.timeout";
      default = some (integer (pos 1000));
      store_to = store_timeout;
    }
    ∷ record { name = "flag.failrate"; default = some (integer (pos 0)); store_to = store_failrate }
    ∷ record { name = "flag.latency"; default = some (switch false); store_to = store_latency }
    ∷ record { name = "flag.election"; default = some (switch true); store_to = store_election }
    ∷ []

-- The options of the command line, those of a configuration file being `primary`.
unfoldable pub cmd_options : Machine → List Declared
unfolding primary
cmd_options m = generic ++ primary m

-- The options of the user's mode, on the command line and in a configuration file.
abbrev pub user_options : List Declared
user_options =
    with_default "target" "127.0.1.1:8000"
    ∷ with_default "command" "get"
    ∷ with_default "key" "key-default"
    ∷ with_default "value" "value-default"
    ∷ []
