-- ===== src/Cluster.antt =====
-- src/utility.cc, `make_address`, and src/app.cc, `initializeStaticInstance`: the member list is
-- built from the configured addresses. `boost::split` at ":" and `boost::lexical_cast<unsigned
-- short>`, which throws where it has no result, are parameters. Nothing is printed.
pub mod Laws
pub mod Members
pub mod Errors
use Prim.Native.String.{◌++◌}
use cs739_p2_replicated_data.Base.{ℕ, ◌+◌, String, Option, none, some, List, [], ◌∷◌, if◌then◌else◌}
use cs739_p2_replicated_data.Map.{Map, lookup, insert, string_key}
use cs739_p2_replicated_data.Config.{
  Config, Address, to_string, decimal, get_address, consensus, database,
}
use cs739_p2_replicated_data.Process.{Process, Node}

pub data Exception : Type 0 where
  validation_error : String → Exception
  bad_lexical_cast : Exception
  out_of_range : Exception

-- What a function returns, or the exception that leaves it.
pub data Result (A : Type 0) : Type 0 where
  thrown : Exception → Result A
  done : A → Result A

-- `memberList->insert`, which keeps the node of a key that is there
unfoldable pub insert_new : String → Node → Map String Node → Map String Node
unfolding lookup insert
insert_new k v m = elim (lookup k m) [ none ↦ insert k v m | some _ ↦ m ]

-- `Node(a.toString(), db_addr)`; the sum is one of `int`.
unfoldable pub member_node : Address → Node
unfolding to_string decimal
member_node a = record {
  consensus_endpoint = to_string a;
  database_endpoint = a.address ++ ":" ++ decimal (a.port + 1000);
}

-- The loop over the addresses.
unfoldable pub insert_members : List Address → Map String Node → Map String Node
unfolding insert_new member_node to_string
insert_members [] m = m
insert_members (a ∷ as') m = insert_members as' (insert_new (to_string a) (member_node a) m)

-- `Node(addressConsensus, addressDatabase)`
unfoldable pub own_node : Address → Address → Node
unfolding to_string
own_node c d = record { consensus_endpoint = to_string c; database_endpoint = to_string d }

-- The current node is the member with the own address, or else a new member.
unfoldable pub join : Address → Address → Map String Node → Node × Map String Node
unfolding lookup insert own_node to_string
join c d m = elim (lookup (to_string c) m) [
  | none ↦ (own_node c d, insert (to_string c) (own_node c d) m)
  | some node ↦ (node, m)
]

-- What is assigned once all addresses are read.
unfoldable pub set_cluster : Config → List Address → Address → Address → Process → Process
unfolding insert_members join
set_cluster config as' c d p =
    let (node, members) = join c d (insert_members as' []) in
    record p { config = config; member_list = members; current_node = node; leader = "" }

-- The first exception ends the rest.
abbrev pub cons_result : Result Address → Result (List Address) → Result (List Address)
cons_result (thrown e) rest = thrown e
cons_result (done a) (thrown e) = thrown e
cons_result (done a) (done as') = done (a ∷ as')

module _ (split : String → List String) (lexical_cast : String → Option ℕ) where
  port_cast : String → String → Result Address
  port_cast address port = elim (lexical_cast port) [
    | none ↦ thrown bad_lexical_cast
    | some p ↦ done (record { address = address; port = p })
  ]

  two_tokens : String → List String → Result Address
  unfolding port_cast
  two_tokens s (address ∷ port ∷ []) = port_cast address port
  two_tokens s _ = thrown (validation_error s)

  unfoldable pub make_address : String → Result Address
  unfolding two_tokens
  make_address s = two_tokens s (split s)

  -- `std::transform` over the configured addresses
  unfoldable pub make_addresses : List String → Result (List Address)
  make_addresses [] = done []
  make_addresses (s ∷ ss) = cons_result (make_address s) (make_addresses ss)

  -- `addressConsensus`
  unfoldable pub own_consensus : Config → Result Address
  unfolding make_address decimal get_address
  own_consensus c =
      if c.flag.local_ubuntu
      then make_address ("127.0.1.1:" ++ decimal c.port_consensus)
      else done (get_address consensus c)

  -- `addressDatabase`
  unfoldable pub own_database : Config → Result Address
  unfolding make_address decimal get_address
  own_database c =
      if c.flag.local_ubuntu
      then make_address ("127.0.1.1:" ++ decimal c.port_database)
      else done (get_address database c)

  -- `initializeStaticInstance`
  unfoldable pub initialize : List String → Config → Process → Result Process
  unfolding make_addresses own_consensus own_database set_cluster
  initialize address_list config p = elim (make_addresses address_list) [
    | thrown e ↦ thrown e
    | done as' ↦ elim (own_consensus config) [
      | thrown e ↦ thrown e
      | done c ↦ elim (own_database config) [
        | thrown e ↦ thrown e
        | done d ↦ done (set_cluster config as' c d p)
      ]
    ]
  ]
