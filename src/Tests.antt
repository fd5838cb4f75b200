-- ===== src/Tests.antt =====
-- Small clusters on which the operations run.
pub mod Attempts
pub mod Handlers
pub mod Requests
pub mod Lost
pub mod Start
pub mod Sessions
pub mod Recovered
pub mod Users
pub mod Chains
pub mod Takeovers
pub mod Clusters
pub mod Interleaved
pub mod Counters
pub mod Options
pub mod Programs
use cs739_p2_replicated_data.Base.{
  ℕ, ◌+◌, String, ◌≡◌, refl, sym, ◌∙◌, Bool, true, false, ◌⊎◌, inl, inr, arith, List, [], ◌∷◌,
  str_eq, eq_iff, if◌then◌else◌, Bool-cases, not, ◌&&◌,
}
use cs739_p2_replicated_data.Base.Int.{pos}
use cs739_p2_replicated_data.Base.Lists.{In, IsDistinct}
use cs739_p2_replicated_data.Proto.{Request, empty_request, LogEntry, empty_entry, set_op}
use cs739_p2_replicated_data.Config.{Config, Mode}
use cs739_p2_replicated_data.Process.{Process, Node}
use cs739_p2_replicated_data.World.{World, delivered}
use cs739_p2_replicated_data.Base.Int.{to_int32}
use cs739_p2_replicated_data.Map.{keys, get_or, lookup}
use cs739_p2_replicated_data.Log.{entry}
use cs739_p2_replicated_data.Attempt.{next_round}
use cs739_p2_replicated_data.Attempt.Liveness.{CanCommit}
use cs739_p2_replicated_data.Attempt.{Network}

abbrev pub addr_0 : String
addr_0 = "127.0.1.1:8000"

abbrev pub addr_1 : String
addr_1 = "127.0.1.1:8001"

abbrev pub addr_2 : String
addr_2 = "127.0.1.1:8002"

abbrev pub members : List String
members = addr_0 ∷ addr_1 ∷ addr_2 ∷ []

abbrev pub settings : ℕ → Config
settings port = record {
  config = "";
  ip = "127.0.1.1";
  port_database = port + 1000;
  port_consensus = port;
  database_directory = "";
  cluster = [];
  mode = Mode.node;
  flag = record {
    debug = true;
    leader = false;
    local_ubuntu = false;
    latency = false;
    election = true;
    timeout = pos 1000;
    failrate = pos 0;
  };
}

abbrev pub node_0 : Node
node_0 = record { consensus_endpoint = addr_0; database_endpoint = "127.0.1.1:9000" }

abbrev pub node_1 : Node
node_1 = record { consensus_endpoint = addr_1; database_endpoint = "127.0.1.1:9001" }

abbrev pub node_2 : Node
node_2 = record { consensus_endpoint = addr_2; database_endpoint = "127.0.1.1:9002" }

abbrev pub process : ℕ → Node → Process
process port n = record {
  config = settings port;
  member_list = (addr_0, node_0) ∷ (addr_1, node_1) ∷ (addr_2, node_2) ∷ [];
  current_node = n;
  leader = addr_0;
  incount = [];
  outcount = [];
  pax_log = [];
  kv_store = ("j", "w") ∷ [];
}

-- Three processes that hold one pair, and whose leader is the first; nothing has been proposed.
abbrev pub fresh : World
fresh a =
    if str_eq a addr_0
    then process 8000 node_0
    else if str_eq a addr_1
    then process 8001 node_1
    else process 8002 node_2

abbrev pub accepted_v : LogEntry
accepted_v = record empty_entry { a_server_id = pos 1; op = set_op; accepted_value = "v" }

-- The others have accepted "v" for "k" in round 0, of which the first process knows nothing.
abbrev pub voted : World
voted a =
    if str_eq a addr_0
    then fresh a
    else record (fresh a) { pax_log = ("k", (pos 0, accepted_v) ∷ []) ∷ [] }

abbrev pub reliable : Network
reliable phase a = record { others = []; delivery = delivered }

abbrev pub set_k : String → Request
set_k v = record empty_request { key = "k"; value = v }

is_in : String → List String → Bool
is_in a [] = false
is_in a (x ∷ xs) = if str_eq x a then true else is_in a xs

not_In : (a : String) (xs : List String) → is_in a xs ≡ false → ¬ In a xs
unfolding is_in
not_In a [] h m = m
not_In a (x ∷ xs) h (inl e) = ground (arith, eq_iff x a)
not_In a (x ∷ xs) h (inr m) = ground (arith, not_In a xs)

are_distinct : List String → Bool
unfolding is_in
are_distinct [] = true
are_distinct (x ∷ xs) = if is_in x xs then false else are_distinct xs

are_distinct-IsDistinct : (xs : List String) → are_distinct xs ≡ true → IsDistinct xs
unfolding are_distinct
are_distinct-IsDistinct [] h = tt
are_distinct-IsDistinct (x ∷ xs) h = elim (Bool-cases (is_in x xs)) [
  | inl t ↦ cc
  | inr f ↦ (not_In x xs f, are_distinct-IsDistinct xs (rw f at h))
]

pub members-IsDistinct : IsDistinct members
unfolding are_distinct
members-IsDistinct = are_distinct-IsDistinct members refl

pub pair-IsDistinct : IsDistinct (addr_0 ∷ addr_1 ∷ [])
unfolding are_distinct
pair-IsDistinct = are_distinct-IsDistinct (addr_0 ∷ addr_1 ∷ []) refl

-- The third process is out of reach.
abbrev pub two_up : String → Bool
two_up a = not (str_eq a addr_2)

-- Only the first process is in reach.
abbrev pub one_up : String → Bool
one_up a = str_eq a addr_0

-- The two that are in reach can commit a request, whatever its key.
pub can_commit : (r : Request) → CanCommit two_up addr_0 r fresh
unfolding next_round to_int32 keys get_or entry lookup
can_commit r = record {
  distinct = members-IsDistinct;
  is_member = inl refl;
  is_up = refl;
  half_up = omega arith;
  free = λ a t. ground arith;
  latest = λ a t. ground arith;
}
