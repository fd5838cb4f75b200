-- ===== src/Config.antt =====
-- src/declaration.h: `utility::parse::Address`, and `Config` with the values that `parse_options`
-- stores. `getLocalIP` (boost::asio) is not modelled: `ip` is a field that the environment sets.
pub mod Decimal
use Prim.Native.String.{◌++◌}
use cs739_p2_replicated_data.Base.{
  ℕ, zero, suc, ◌/◌, ◌%◌, String, Bool, List, [], ◌∷◌, ltb, if◌then◌else◌,
}
use cs739_p2_replicated_data.Base.Int.{ℤ}

digit_of : ℕ → List String → String
digit_of n [] = ""
digit_of zero (d ∷ ds) = d
digit_of (suc n) (d ∷ ds) = digit_of n ds

abbrev digits : List String
digits = "0" ∷ "1" ∷ "2" ∷ "3" ∷ "4" ∷ "5" ∷ "6" ∷ "7" ∷ "8" ∷ "9" ∷ []

-- Fuel: a number has no more decimal digits than its value plus one.
decimal_from : ℕ → ℕ → String → String
unfolding digit_of
decimal_from zero n acc = acc
decimal_from (suc fuel) n acc =
    let rest = decimal_from fuel (n / 10) (digit_of (n % 10) digits ++ acc) in
    if ltb n 10 then digit_of n digits ++ acc else rest

-- `std::to_string` of an unsigned number
unfoldable pub decimal : ℕ → String
unfolding decimal_from
decimal n = decimal_from (suc n) n ""

pub record Address : Type 0 where
  pub address : String
  pub port : ℕ

-- `Address::toString`
unfoldable pub to_string : Address → String
unfolding decimal
to_string a = a.address ++ ":" ++ decimal a.port

pub data Mode : Type 0 where
  node user : Mode

pub record Flag : Type 0 where
  pub debug : Bool
  pub leader : Bool
  pub local_ubuntu : Bool
  pub latency : Bool
  pub election : Bool
  pub timeout : ℤ
  pub failrate : ℤ

pub record Config : Type 0 where
  pub config : String
  pub ip : String
  pub port_database : ℕ
  pub port_consensus : ℕ
  pub database_directory : String
  pub cluster : List String
  pub mode : Mode
  pub flag : Flag

pub data Service : Type 0 where
  database consensus : Service

port_of : Service → Config → ℕ
port_of database c = c.port_database
port_of consensus c = c.port_consensus

-- `getAddress<s>()`
unfoldable pub get_address : Service → Config → Address
unfolding port_of
get_address s c = record { address = c.ip; port = port_of s c }
