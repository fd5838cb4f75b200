-- ===== src/Tests/Clusters.antt =====
-- The start of the small cluster's processes from their configured addresses, with a split at ":"
-- and a reader of ports.
use Prim.Native.Char.{code}
use Prim.Native.String.{◌++◌}
use cs739_p2_replicated_data.Base.{
  ℕ, ◌+◌, ◌-◌, ◌*◌, String, ◌≡◌, refl, true, Option, none, some, List, [], ◌∷◌, nat_eq, ltb, leb,
  ◌&&◌, if◌then◌else◌, arith, inl, inr,
}
use cs739_p2_replicated_data.Config.{Config, Address, to_string, decimal}
use cs739_p2_replicated_data.Process.{Process}
use cs739_p2_replicated_data.Cluster.{
  validation_error, thrown, done, make_address, make_addresses, initialize, own_consensus,
  own_database,
}
use cs739_p2_replicated_data.Cluster.Members.{Started, initialize-Started, initialize_same}
use cs739_p2_replicated_data.Cluster.Errors.{not_pair, initialize-Fault}
use cs739_p2_replicated_data.Tests.{addr_0, addr_1, members, settings, process, node_0, node_1}
use cs739_p2_replicated_data.Base.{str_eq}
use cs739_p2_replicated_data.Map.{lookup, string_key}
use cs739_p2_replicated_data.Map.Sorted.{IsSorted, Above}
use cs739_p2_replicated_data.Config.{get_address}
use cs739_p2_replicated_data.World.{World}
use cs739_p2_replicated_data.Node.{node_main}
use cs739_p2_replicated_data.Node.Start.{Running, node_main_joins}
use cs739_p2_replicated_data.Tests.{fresh, two_up}
use cs739_p2_replicated_data.Tests.Start.{two_launch}

split_from : String → String → List String
split_from token String.[] = token ∷ []
split_from token (String.◌∷◌ c s) =
    if nat_eq (code c) 58 then token ∷ split_from "" s else split_from (token ++ String.◌∷◌ c "") s

unfoldable pub split_colon : String → List String
unfolding split_from
split_colon s = split_from "" s

digits_from : ℕ → String → Option ℕ
digits_from n String.[] = if ltb n 65536 then some n else none
digits_from n (String.◌∷◌ c s) =
    if leb 48 (code c) && leb (code c) 57 then digits_from (n * 10 + (code c - 48)) s else none

-- No digit at all is no number.
unfoldable pub read_port : String → Option ℕ
unfolding digits_from
read_port String.[] = none
read_port (String.◌∷◌ c s) = digits_from 0 (String.◌∷◌ c s)

unfoldable pub local : ℕ → Address
local port = record { address = "127.0.1.1"; port = port }

unfoldable pub addresses : List Address
unfolding local
addresses = local 8000 ∷ local 8001 ∷ local 8002 ∷ []

pub read_members : make_addresses split_colon read_port members ≡ done addresses
unfolding addresses split_colon read_port make_addresses make_address
read_members = refl

initialize-Started_example :
    (q : Process) × (initialize split_colon read_port members (settings 8001) (process 8001 node_1)
      ≡ done q)
    × Started (settings 8001) (process 8001 node_1) addresses (local 8001) (local 9001) q
unfolding local own_consensus own_database
initialize-Started_example =
    initialize-Started split_colon read_port members addresses read_members (settings 8001)
      (process 8001 node_1) (local 8001) (local 9001) refl refl

-- A process that does not take its address from the host's name.
ubuntu : ℕ → Config
ubuntu port = record (settings port) {
  ip = "10.0.0.1";
  flag = record (settings port).flag { local_ubuntu = true };
}

initialize_same_example :
    (q₁ q₂ : Process) × (initialize split_colon read_port members
        (settings 8000)
        (process 8000 node_0)
      ≡ done q₁)
    × (initialize split_colon read_port members (ubuntu 8001) (process 8001 node_1) ≡ done q₂)
    × (q₁.member_list ≡ q₂.member_list)
unfolding local ubuntu addresses to_string decimal own_consensus own_database split_colon read_port
    make_address
initialize_same_example =
    initialize_same split_colon read_port members addresses (settings 8000) (ubuntu 8001)
      (process 8000 node_0) (process 8001 node_1) (local 8000) (local 9000) (local 8001)
      (local 9001) read_members refl refl refl refl (inl refl) (inr (inl refl))

initialize-Fault_example :
    initialize split_colon read_port
      (addr_0 ∷ "localhost" ∷ addr_1 ∷ [])
      (settings 8000)
      (process 8000 node_0)
    ≡ thrown (validation_error "localhost")
unfolding local split_colon read_port make_addresses make_address
initialize-Fault_example =
    initialize-Fault split_colon read_port (addr_0 ∷ []) (addr_1 ∷ []) "localhost" (local 8000 ∷ [])
      (validation_error "localhost") (settings 8000) (process 8000 node_0) one_read
      (not_pair (λ e. omega (arith, e)))
  where
    one_read : make_addresses split_colon read_port (addr_0 ∷ []) ≡ done (local 8000 ∷ [])
    one_read = refl

-- The second process is about to start, the third is out of reach.
abbrev before : World
before a =
    if str_eq a addr_1 then record (process 8001 node_1) { leader = ""; kv_store = [] } else fresh a

before-Running : Running two_up addr_1 addr_0 before
unfolding IsSorted Above
before-Running = record {
  is_up = refl;
  another = refl;
  named = refl;
  leads = refl;
  agreed = λ a t. ground arith;
  sorted = (tt, tt);
}

abbrev second_config : Config
second_config = record (settings 8001) { cluster = members }

node_main_joins_example :
    (w' : World) × (node_main split_colon read_port addr_1 two_launch second_config before
      ≡ done w')
    × ((w' addr_1).leader ≡ addr_0)
    × ((j : String) → lookup j (w' addr_1).kv_store ≡ lookup j (before addr_0).kv_store)
unfolding local addresses to_string decimal get_address own_consensus own_database
node_main_joins_example =
    node_main_joins split_colon read_port two_up addr_1 addr_0 two_launch second_config before
      addresses (local 8001) (local 9001) read_members refl refl (inl refl) refl refl refl
      before-Running refl refl
