-- ===== src/Options/Documented.antt =====
-- What the documentation of boost::program_options says of the operations that the code calls.
use cs739_p2_replicated_data.Base.{
  String, ◌≡◌, Bool, true, false, Option, none, some, List, [], ◌∷◌, str_eq, if◌then◌else◌,
}
use cs739_p2_replicated_data.Config.{Config}
use cs739_p2_replicated_data.Options.{Value, Declared, value, ProgramOptions, value_of}

abbrev pub default_of : String → List Declared → Option Value
default_of n [] = none
default_of n (d ∷ ds) = let rest = default_of n ds in if str_eq d.name n then d.default else rest

-- What `store` makes of an option that was found before, or not, that the source gives, or not, and
-- that has a default, or not: a value that is no default is kept.
abbrev pub merge : Option (Value × Bool) → Option Value → Option Value → Option (Value × Bool)
merge (some (x, false)) y d = some (x, false)
merge _ (some y) d = some (y, false)
merge (some (x, true)) none d = some (x, true)
merge none none none = none
merge none none (some d) = some (d, true)

-- `notify` leaves a field whose option has no value.
abbrev pub put : (Value → Config → Config) → Option Value → Config → Config
put store_to none c = c
put store_to (some x) c = store_to x c

-- The setting of each field from the option that stores to it.
abbrev pub assign_all : List Declared → (String → Option Value) → Config → Config
assign_all [] f c = c
assign_all (d ∷ ds) f c = assign_all ds f (put d.store_to (f d.name) c)

-- `store` merges option by option, and `notify` sets the fields of the options that have a value.
pub record Documented (po : ProgramOptions) : Type 0 where
  pub stores :
      (ds : List Declared) (g : po.Parsed) (v v' : po.Variables)
      → po.store ds g v ≡ value v'
      → (n : String) → po.found n v' ≡ merge (po.found n v) (po.given n g) (default_of n ds)
  pub notifies :
      (ds : List Declared) (v : po.Variables) (c : Config)
      → po.notify ds v c ≡ value (assign_all ds (λ n. value_of (po.found n v)) c)
