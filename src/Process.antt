-- ===== src/Process.antt =====
-- The static data of one running process (src/declaration.h: `Cluster`, `Statistics`, and the
-- global instances of `Consensus` and `Database`), and the RPC counters.
use Prim.Native.String.{◌++◌}
use cs739_p2_replicated_data.Base.{String, none, some, [], ◌∷◌, if◌then◌else◌}
use cs739_p2_replicated_data.Base.Int.{ℤ, pos, next_int}
use cs739_p2_replicated_data.Map.{Map, lookup, insert, string_key}
use cs739_p2_replicated_data.Config.{Config, get_address, consensus, to_string}
use cs739_p2_replicated_data.Log.{Log}
use cs739_p2_replicated_data.Database.{Store}

-- A cluster member as its two endpoints' addresses; a stub is a channel to an address.
pub record Node : Type 0 where
  pub consensus_endpoint : String
  pub database_endpoint : String

pub record Process : Type 0 where
  pub config : Config
  pub member_list : Map String Node
  pub current_node : Node
  pub leader : String
  pub incount : Map String ℤ
  pub outcount : Map String ℤ
  pub pax_log : Log
  pub kv_store : Store

-- `Statistics::increment`, on one of the two maps of `int`
unfoldable pub increment : String → Map String ℤ → Map String ℤ
unfolding lookup insert next_int
increment s m = insert s (elim (lookup s m) [ none ↦ pos 1 | some c ↦ next_int c ]) m

-- `Statistics::print` of one of the two maps, without colours
names : Map String ℤ → String
names [] = ""
names ((n, c) ∷ m) = ", " ++ n ++ names m

unfoldable pub statistics_line : Map String ℤ → String
unfolding names
statistics_line m = "registered rpc call counts: [" ++ names m ++ "]"

-- Calls are counted in debug mode only.
unfoldable pub count_incoming : String → Process → Process
unfolding increment
count_incoming n p = if p.config.flag.debug then record p { incount = increment n p.incount } else p

unfoldable pub count_outgoing : String → Process → Process
unfolding increment
count_outgoing n p =
    if p.config.flag.debug then record p { outcount = increment n p.outcount } else p

-- `Cluster::config->getAddress<app::Service::Consensus>().toString()`
unfoldable pub own_address : Process → String
unfolding get_address to_string
own_address p = to_string (get_address consensus p.config)
