-- ===== src/Options.antt =====
-- src/utility.cc, the parsing of options. boost::program_options and the file system are
-- parameters: an interface with the operations that the code calls.
pub mod Schema
pub mod Node
pub mod User
pub mod Documented
pub mod Priority
pub mod Arguments
use cs739_p2_replicated_data.Base.{
  ℕ, String, Bool, true, false, Option, none, some, List, [], ◌∷◌, str_eq, if◌then◌else◌,
}
use cs739_p2_replicated_data.Base.Int.{ℤ}
use cs739_p2_replicated_data.Map.{Map, lookup, string_key}
use cs739_p2_replicated_data.Config.{Config, Mode}

-- The value of an option, by the type that it is declared with.
pub data Value : Type 0 where
  text : String → Value
  texts : List String → Value
  number : ℕ → Value  -- unsigned short
  integer : ℤ → Value
  switch : Bool → Value
  execution : Mode → Value

-- An option of a description: its default, and the field in which `notify` stores its value.
pub record Declared : Type 0 where
  pub name : String
  pub default : Option Value
  pub store_to : Value → Config → Config

-- What a call returns, a `po::error` with its text, or the exception of a wrong cast.
pub data Outcome (A : Type 0) : Type 0 where
  value : A → Outcome A
  error : String → Outcome A
  bad_cast : Outcome A

infixl 5 ◌>>=◌
abbrev pub ◌>>=◌ : {A B : Type 0} → Outcome A → (A → Outcome B) → Outcome B
value a >>= f = f a
error message >>= f = error message
bad_cast >>= f = bad_cast

-- The operations of boost::program_options. Both parsers accept options that are not declared.
-- `given` reads a parser's result; `found` reads a value and whether it is a default.
pub record ProgramOptions : Type 1 where
  pub Parsed : Type 0
  pub Variables : Type 0
  pub parse_command_line : List Declared → List String → Outcome Parsed
  pub parse_config_file : List Declared → String → Outcome Parsed
  pub store : List Declared → Parsed → Variables → Outcome Variables
  pub notify : List Declared → Variables → Config → Outcome Config
  pub given : String → Parsed → Option Value
  pub found : String → Variables → Option (Value × Bool)

-- The paths and files that the code asks for.
pub record Machine : Type 0 where
  pub join : String → String → String
  pub absolute : String → String
  pub canonical : String → String
  pub relative : String → String → String
  pub is_absolute : String → Bool
  pub current_path : String
  pub executable_path : List String → String
  pub read_file : String → Option String

abbrev pub construct_relative_path : Machine → String → String → String
construct_relative_path m path root =
    m.relative (if m.is_absolute path then path else m.canonical path) root

unfoldable pub concatenate_path : Machine → String → String → String
concatenate_path m base path = m.absolute (m.join base path)

-- `EnumOption<Mode>::param_map`
abbrev pub param_map : Map String Mode
param_map = ("node", Mode.node) ∷ ("user", Mode.user) ∷ []

-- `validate`, with the two checks of the library that it calls first
unfoldable pub validate :
    Outcome Unit → (List String → Outcome String) → List String → Outcome Value
unfolding lookup
validate first_occurrence get_single_string values = first_occurrence >>= λ _.
    get_single_string values >>= λ s. elim (lookup s param_map) [
      | none ↦ error "invalid option value"
      | some m ↦ value (execution m)
    ]

-- `operator>>` on the token that it reads: no result where it sets the failbit
unfoldable pub mode_of_token : String → Option Mode
mode_of_token token =
    if str_eq token "0" then some Mode.node else if str_eq token "1" then some Mode.user else none

-- How parsing ends: the program exits or is terminated, or the settings and the variables are set.
pub data Finished (V : Type 0) : Type 0 where
  exited : ℕ → Finished V
  terminated : Finished V
  parsed : Config → V → Finished V

-- `variables[name]`, where it is there
abbrev pub value_of : Option (Value × Bool) → Option Value
value_of none = none
value_of (some (x, is_default)) = some x

abbrev pub is_some : Option Value → Bool
is_some none = false
is_some (some x) = true

-- `as<std::string>()`
abbrev pub as_text : Value → Outcome String
as_text (text s) = value s
as_text _ = bad_cast
