-- ===== src/Program/Server.antt =====
-- src/utility.cc, `run_gRPC_server`, and its two calls in `main`: where a node's services listen.
use Prim.Native.String.{◌++◌}
use cs739_p2_replicated_data.Base.{
  ℕ, ◌+◌, String, ◌≡◌, ◌↔◌, refl, sym, ap, ◌∙◌, inl, inr, Option, some, List, [], ◌∷◌, Bool-cases,
  str_eq, eq_iff,
}
use cs739_p2_replicated_data.Base.Lists.{In}
use cs739_p2_replicated_data.Map.{lookup, string_key}
use cs739_p2_replicated_data.Config.{
  Config, Address, decimal, to_string, get_address, consensus, database,
}
use cs739_p2_replicated_data.Config.Decimal.{decimal_injective, append_cancel}
use cs739_p2_replicated_data.Process.{Process, Node}
use cs739_p2_replicated_data.Cluster.{done, make_addresses, own_consensus, own_database, initialize}
use cs739_p2_replicated_data.Cluster.Laws.{configured, first_member}
use cs739_p2_replicated_data.Cluster.Members.{initialize-Started}

-- `AddListeningPort(a, ...)`
unfoldable pub listening_address : Address → String
unfolding decimal
listening_address a = a.address ++ ":" ++ decimal a.port

-- The two servers that `main` starts.
unfoldable pub servers : Config → Node
unfolding listening_address get_address
servers c = record {
  consensus_endpoint = listening_address (get_address consensus c);
  database_endpoint = listening_address (get_address database c);
}

database-servers :
    (c : Config)
    → ((configured (get_address consensus c)).database_endpoint ≡ (servers c).database_endpoint)
      ↔ (c.port_database ≡ c.port_consensus + 1000)
unfolding servers listening_address get_address
database-servers c = (
  (λ h. sym (
      decimal_injective (c.port_consensus + 1000) c.port_database
        (append_cancel ":" _ _ (append_cancel c.ip _ _ h)))),
  (λ h. rw h refl),
)

first_member_unique :
    (own : Address) (as' : List Address)
    → In own as'
    → ((a : Address) → In a as' → to_string a ≡ to_string own → a ≡ own)
    → first_member (to_string own) as' ≡ some (configured own)
first_member_unique own [] h k = absurd h
first_member_unique own (a ∷ as') h k = elim (Bool-cases (str_eq (to_string a) (to_string own))) [
  | inl e ↦ rw e (
      ap (λ (x : Address). some (configured x))
        (k a (inl refl) ((eq_iff (to_string a) (to_string own)).0 e)))
  | inr e ↦ elim h [
    | inl same ↦
        cc (e, (eq_iff (to_string a) (to_string own)).1 (ap (λ (x : Address). to_string x) same))
    | inr m ↦ rw e (first_member_unique own as' m (λ b n. k b (inr n)))
  ]
]

-- Let a node's consensus address be among the configured ones, with no other one written alike.
-- Then any process that starts with these addresses has a member under the address at which the
-- node's consensus service listens, which it calls there, and it calls the node's database service
-- where that listens if and only if the node's database port is its consensus port plus 1000.
pub member-servers :
    (split : String → List String) (lexical_cast : String → Option ℕ) (address_list : List String)
    (as' : List Address) (node config : Config) (p : Process) (c d : Address)
    → make_addresses split lexical_cast address_list ≡ done as'
    → own_consensus split lexical_cast config ≡ done c
    → own_database split lexical_cast config ≡ done d
    → In (get_address consensus node) as'
    → ((a : Address)
        → In a as'
        → to_string a ≡ to_string (get_address consensus node)
        → a ≡ get_address consensus node)
    → (q : Process) × (initialize split lexical_cast address_list config p ≡ done q)
      × (n : Node) × (lookup (servers node).consensus_endpoint q.member_list ≡ some n)
      × (n.consensus_endpoint ≡ (servers node).consensus_endpoint)
      × ((n.database_endpoint ≡ (servers node).database_endpoint)
          ↔ (node.port_database ≡ node.port_consensus + 1000))
unfolding servers listening_address
member-servers split cast l as' node config p c d read hc hd m unique =
    let (q, made, q_started) = initialize-Started split cast l as' read config p c d hc hd in
    let own : Address = get_address consensus node in
    let listed : lookup (to_string own) q.member_list ≡ some (configured own) =
      q_started.member (to_string own) ∙ rw (first_member_unique own as' m unique) refl in
    (
      q,
      made,
      configured own,
      unfold to_string in listed,
      unfold to_string in refl,
      database-servers node,
    )
