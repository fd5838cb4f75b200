-- ===== src/Options/Priority.antt =====
-- The priority of the three sources of a setting: the command line, the configuration file, and the
-- default (src/declaration.h, the comment on `Config`).
use cs739_p2_replicated_data.Base.{String, ◌≡◌, refl, Option, none, some, List}
use cs739_p2_replicated_data.Config.{Config}
use cs739_p2_replicated_data.Options.{
  Value, text, value, ProgramOptions, Machine, concatenate_path, value_of,
}
use cs739_p2_replicated_data.Options.Documented.{merge, Documented}
use cs739_p2_replicated_data.Options.Schema.{primary}
use cs739_p2_replicated_data.Options.Schema.Settings.{default_setting}

-- The command line before the file before the default.
abbrev pub preferred : Option Value → Option Value → Option Value → Option Value
preferred (some x) y d = some x
preferred none (some y) d = some y
preferred none none d = d

pub merge_once : (g d : Option Value) → value_of (merge none g d) ≡ preferred g none d
merge_once none none = refl
merge_once none (some d) = refl
merge_once (some x) d = refl

pub merge_twice : (g h d : Option Value) → value_of (merge (merge none g d) h d) ≡ preferred g h d
merge_twice none none none = refl
merge_twice none none (some d) = refl
merge_twice none (some y) none = refl
merge_twice none (some y) (some d) = refl
merge_twice (some x) h d = refl

module _ (po : ProgramOptions) (m : Machine) (argv : List String) where
  -- What `read_config` makes of the variables `v` and the settings `c`: the new settings, the
  -- options that the file gives, and the new variables.
  pub data Reads (v : po.Variables) (c : Config)
      : Config → (String → Option Value) → po.Variables → Type 0 where
    not_named : value_of (po.found "config" v) ≡ none → Reads v c c (λ _. none) v
    not_opened :
        (path : String)
        → value_of (po.found "config" v) ≡ some (text path)
        → m.read_file (concatenate_path m (m.executable_path argv) path) ≡ none
        → Reads v c (record c { config = path }) (λ _. none) v
    was_read :
        (path content : String) (h : po.Parsed) (v' : po.Variables)
        → value_of (po.found "config" v) ≡ some (text path)
        → m.read_file (concatenate_path m (m.executable_path argv) path) ≡ some content
        → po.parse_config_file (primary m) content ≡ value h
        → po.store (primary m) h v ≡ value v'
        → Reads v c (record c { config = path }) (λ n. po.given n h) v'

  module _ (doc : Documented po) (g : po.Parsed) (unset v v' : po.Variables) (c c' : Config)
      (h : String → Option Value) where
    -- The value that an option gets, from the command line, the file, or its default.
    abbrev pub chosen : String → Option Value
    chosen n = preferred (po.given n g) (h n) (default_setting m n)
