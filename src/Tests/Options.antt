-- ===== src/Tests/Options.antt =====
-- The options of one command line and one file, with a small library of options.
use cs739_p2_replicated_data.Base.{
  String, ◌≡◌, refl, sym, ap, Bool, true, false, Option, none, some, List, [], ◌∷◌, str_eq,
  if◌then◌else◌,
}
use cs739_p2_replicated_data.Config.{Config, Mode}
use cs739_p2_replicated_data.Options.{
  Value, text, Declared, Outcome, value, ProgramOptions, Machine, parsed, value_of, validate,
}
use cs739_p2_replicated_data.Options.Schema.{primary, cmd_options}
use cs739_p2_replicated_data.Options.Schema.Settings.{settings_of}
use cs739_p2_replicated_data.Options.Node.{mode_of, parse_node}
use cs739_p2_replicated_data.Options.Documented.{default_of, merge, assign_all, Documented}
use cs739_p2_replicated_data.Options.Priority.{chosen}
use cs739_p2_replicated_data.Tests.{settings}

abbrev argument : String → List String → Option String
argument n [] = none
argument n (x ∷ []) = none
argument n (x ∷ y ∷ xs) = let rest = argument n (y ∷ xs) in if str_eq x n then some y else rest

abbrev typed : String → String → Option Value
typed n s =
    if str_eq n "mode"
    then elim (validate (value tt) (λ l. value s) (s ∷ [])) [ value x ↦ some x | _ ↦ none ]
    else some (text s)

abbrev declares : String → List Declared → Bool
declares n [] = false
declares n (d ∷ ds) = let rest = declares n ds in if str_eq d.name n then true else rest

-- An argument follows the name of its option.
abbrev pub from_arguments : List Declared → List String → String → Option Value
from_arguments ds argv n =
    if declares n ds then elim (argument n argv) [ none ↦ none | some s ↦ typed n s ] else none

-- A file holds the directory and nothing else.
abbrev pub from_content : List Declared → String → String → Option Value
from_content ds content n =
    if declares n ds
    then if str_eq n "database_directory" then some (text content) else none
    else none

abbrev pub simple : ProgramOptions
simple = record {
  Parsed = String → Option Value;
  Variables = String → Option (Value × Bool);
  parse_command_line = λ ds argv. value (from_arguments ds argv);
  parse_config_file = λ ds content. value (from_content ds content);
  store = λ ds g v. value (λ n. merge (v n) (g n) (default_of n ds));
  notify = λ ds v c. value (assign_all ds (λ n. value_of (v n)) c);
  given = λ n g. g n;
  found = λ n v. v n;
}

at_name : String → Outcome (String → Option (Value × Bool)) → Option (Value × Bool)
at_name n (value v) = v n
at_name n _ = none

pub simple-Documented : Documented simple
unfolding at_name
simple-Documented = record {
  stores = λ ds g v v' e n. sym (ap (at_name n) e);
  notifies = λ ds v c. refl;
}

-- Only the file names a directory.
abbrev pub machine : Machine
machine = record {
  join = λ base path. path;
  absolute = λ path. path;
  canonical = λ path. path;
  relative = λ path root. path;
  is_absolute = λ path. false;
  current_path = "/home";
  executable_path = λ argv. "/bin";
  read_file = λ path. if str_eq path "node.ini" then some "/data" else none;
}

abbrev pub command_line : List String
command_line =
    "app" ∷ "mode" ∷ "user" ∷ "config" ∷ "node.ini" ∷ "command" ∷ "set" ∷ "key" ∷ "k" ∷ "value"
    ∷ "u" ∷ []

abbrev from_command_line : String → Option Value
from_command_line = from_arguments (cmd_options machine) command_line

abbrev from_file : String → Option Value
from_file = from_content (primary machine) "/data"

abbrev pub unset : String → Option (Value × Bool)
unset n = none

abbrev first_store : String → Option (Value × Bool)
first_store n = merge none (from_command_line n) (default_of n (cmd_options machine))

abbrev pub both_stores : String → Option (Value × Bool)
both_stores n = merge (first_store n) (from_file n) (default_of n (primary machine))

abbrev priority : String → Option Value
priority =
    chosen simple machine command_line simple-Documented from_command_line unset first_store
      both_stores (settings 8000) (record (settings 8000) { config = "node.ini" }) from_file

abbrev pub user_settings : Config
user_settings = settings_of priority Mode.user (record (settings 8000) { config = "node.ini" })

file_before_default : priority "database_directory" ≡ some (text "/data")
unfolding cmd_options
file_before_default = refl

pub user_parsed :
    parse_node simple machine command_line (settings 8000) unset ≡ parsed user_settings both_stores
unfolding mode_of validate cmd_options parse_node
user_parsed = refl
