-- ===== src/Cluster/Laws.antt =====
-- The member list that a process starts with.
use Prim.Native.String.{◌++◌}
use cs739_p2_replicated_data.Base.{
  ℕ, ◌+◌, String, ◌⊎◌, ◌≡◌, refl, ◌∙◌, Bool, true, false, inl, inr, Option, none, some, List, [],
  ◌∷◌, str_eq, eq_iff, arith, if◌then◌else◌, Option-cases,
}
use cs739_p2_replicated_data.Map.{Map, lookup, insert, string_key}
use cs739_p2_replicated_data.Map.Laws.{lookup-insert}
use cs739_p2_replicated_data.Map.Sorted.{IsSorted, insert-IsSorted}
use cs739_p2_replicated_data.Config.{Address, to_string, decimal}
use cs739_p2_replicated_data.Process.{Node}
use cs739_p2_replicated_data.Cluster.{insert_new, member_node, insert_members, own_node, join}

-- The node that a map has, or else another.
abbrev pub or_else : Option Node → Option Node → Option Node
or_else (some n) o = some n
or_else none o = o

-- The node of two services, each at its host and port.
abbrev pub node_at : String → ℕ → String → ℕ → Node
node_at host port db_host db_port = record {
  consensus_endpoint = host ++ ":" ++ decimal port;
  database_endpoint = db_host ++ ":" ++ decimal db_port;
}

-- The database service of a configured member is at its host, 1000 ports above.
abbrev pub configured : Address → Node
configured a = node_at a.address a.port a.address (a.port + 1000)

abbrev pub own_services : Address → Address → Node
own_services c d = node_at c.address c.port d.address d.port

member_node-configured : (a : Address) → member_node a ≡ configured a
unfolding member_node to_string
member_node-configured a = refl

own_node-own_services : (c d : Address) → own_node c d ≡ own_services c d
unfolding own_node to_string
own_node-own_services c d = refl

-- The member with an address: the first that was configured so.
abbrev pub first_member : String → List Address → Option Node
first_member k [] = none
first_member k (a ∷ as') =
    if str_eq (to_string a) k then some (configured a) else first_member k as'

insert_new-IsSorted :
    (k : String) (v : Node) (m : Map String Node) → IsSorted m → IsSorted (insert_new k v m)
unfolding insert_new
insert_new-IsSorted k v m s =
    elim (lookup k m) as (λ o. IsSorted (elim o [ none ↦ insert k v m | some _ ↦ m ])) [
      | none ↦ insert-IsSorted k v m s
      | some w ↦ s
    ]

lookup-insert_new :
    (k j : String) (v : Node) (m : Map String Node)
    → lookup j (insert_new k v m) ≡ or_else (lookup j m) (if str_eq k j then some v else none)
unfolding insert_new
lookup-insert_new k j v m = ground (arith, lookup-insert k j v m, eq_iff k j)

insert_members-IsSorted :
    (as' : List Address) (m : Map String Node) → IsSorted m → IsSorted (insert_members as' m)
unfolding insert_members
insert_members-IsSorted [] m s = s
insert_members-IsSorted (a ∷ as') m s = insert_members-IsSorted as' _ (insert_new-IsSorted _ _ m s)

or_else_if :
    (o : Option Node) (b : Bool) (n : Node) (f : Option Node)
    → or_else (or_else o (if b then some n else none)) f ≡ or_else o (if b then some n else f)
or_else_if (some m) b n f = refl
or_else_if none true n f = refl
or_else_if none false n f = refl

lookup-insert_members :
    (k : String) (as' : List Address) (m : Map String Node)
    → lookup k (insert_members as' m) ≡ or_else (lookup k m) (first_member k as')
unfolding insert_members
lookup-insert_members k [] m = ground arith
lookup-insert_members k (a ∷ as') m =
    lookup-insert_members k as' (insert_new (to_string a) (member_node a) m)
    ∙ rw (lookup-insert_new (to_string a) k (member_node a) m, member_node-configured a)
        (or_else_if (lookup k m) (str_eq (to_string a) k) (configured a) (first_member k as'))

unfoldable pub members : List Address → Map String Node
members as' = insert_members as' []

pub members-IsSorted : (as' : List Address) → IsSorted (members as')
unfolding members IsSorted
members-IsSorted as' = insert_members-IsSorted as' [] tt

pub lookup-members : (k : String) (as' : List Address) → lookup k (members as') ≡ first_member k as'
unfolding members lookup
lookup-members k as' = lookup-insert_members k as' []

pub join-IsSorted : (c d : Address) (m : Map String Node) → IsSorted m → IsSorted (join c d m).1
unfolding join
join-IsSorted c d m s = elim (Option-cases (lookup (to_string c) m)) [
  | inl e ↦ rw (join, e) (insert-IsSorted (to_string c) (own_node c d) m s)
  | inr (n, e) ↦ rw (join, e) s
]

pub lookup-join :
    (k : String) (c d : Address) (m : Map String Node)
    → lookup k (join c d m).1
      ≡ or_else (lookup k m) (if str_eq (to_string c) k then some (own_services c d) else none)
unfolding join
lookup-join k c d m = ground (
  arith,
  lookup-insert (to_string c) k (own_node c d) m,
  eq_iff (to_string c) k,
  own_node-own_services c d,
)

pub join_current :
    (c d : Address) (m : Map String Node)
    → lookup (to_string c) (join c d m).1 ≡ some (join c d m).0
unfolding join
join_current c d m = ground (
  arith,
  lookup-insert (to_string c) (to_string c) (own_node c d) m,
  eq_iff (to_string c) (to_string c),
)

endpoint-configured : (a : Address) → (configured a).consensus_endpoint ≡ to_string a
unfolding to_string
endpoint-configured a = refl

endpoint-own_services : (c d : Address) → (own_services c d).consensus_endpoint ≡ to_string c
unfolding to_string
endpoint-own_services c d = refl

if_some :
    (b : Bool) (m n : Node) (o : Option Node)
    → (if b then some m else o) ≡ some n
    → ((b ≡ true) × (m ≡ n)) ⊎ (o ≡ some n)
if_some true m n o h = inl (refl, cc h)
if_some false m n o h = inr h

or_else-some : (o q : Option Node) (n : Node) → or_else o q ≡ some n → (o ≡ some n) ⊎ (q ≡ some n)
or_else-some (some m) q n h = inl h
or_else-some none q n h = inr h

-- The node at an address has that address.
pub endpoint-first_member :
    (k : String) (as' : List Address) (n : Node)
    → first_member k as' ≡ some n
    → n.consensus_endpoint ≡ k
endpoint-first_member k [] n h = cc h
endpoint-first_member k (a ∷ as') n h =
    elim (if_some (str_eq (to_string a) k) (configured a) n (first_member k as') h) [
      | inl (t, e) ↦ cc (e, endpoint-configured a, (eq_iff (to_string a) k).0 t)
      | inr e ↦ endpoint-first_member k as' n e
    ]

-- Who is a member: the configured addresses, and the own one.
abbrev pub member_at : List Address → Address → Address → String → Option Node
member_at as' c d k =
    or_else (first_member k as') (if str_eq (to_string c) k then some (own_services c d) else none)

pub endpoint-member_at :
    (as' : List Address) (c d : Address) (k : String) (n : Node)
    → member_at as' c d k ≡ some n
    → n.consensus_endpoint ≡ k
endpoint-member_at as' c d k n h = elim (or_else-some (first_member k as') _ n h) [
  | inl e ↦ endpoint-first_member k as' n e
  | inr e ↦ elim (if_some (str_eq (to_string c) k) (own_services c d) n none e) [
    | inl (t, f) ↦ cc (f, endpoint-own_services c d, (eq_iff (to_string c) k).0 t)
    | inr f ↦ cc f
  ]
]
