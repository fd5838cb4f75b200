-- ===== src/Node/Start.antt =====
-- A new process joins a running cluster.
use cs739_p2_replicated_data.Base.{
  ℕ, String, ◌≡◌, refl, sym, ap, ◌∙◌, Bool, true, false, ◌⊎◌, inl, inr, Option, none, some, List,
  [], ◌∷◌, map, str_eq, eq_iff, Bool-cases,
}
use mathlib.Core.Path.{subst}
use cs739_p2_replicated_data.Base.Lists.{In, IsDistinct}
use cs739_p2_replicated_data.Map.{lookup, keys, Map, string_key}
use cs739_p2_replicated_data.Map.Sorted.{IsSorted, keys-IsDistinct}
use cs739_p2_replicated_data.Config.{Config, Address, to_string, get_address, consensus}
use cs739_p2_replicated_data.Process.{Process, Node, own_address}
use cs739_p2_replicated_data.World.{World, update}
use cs739_p2_replicated_data.World.Laws.{update_self}
use cs739_p2_replicated_data.Attempt.{ping_phase}
use cs739_p2_replicated_data.Attempt.Partition.{partition}
use cs739_p2_replicated_data.DatabaseRpc.Laws.{at_once}
use cs739_p2_replicated_data.Cluster.{done, make_addresses, own_consensus, own_database}
use cs739_p2_replicated_data.Cluster.Laws.{configured, first_member, endpoint-first_member}
use cs739_p2_replicated_data.Cluster.Members.{initialize-Started}
use cs739_p2_replicated_data.Startup.{Launch}
use cs739_p2_replicated_data.Startup.Laws.{or_own}
use cs739_p2_replicated_data.Startup.Start.{coordinate_joins}
use cs739_p2_replicated_data.Node.{node_main, coordinated}

In-keys : (k : String) (m : Map String Node) (n : Node) → lookup k m ≡ some n → In k (keys m)
unfolding lookup keys
In-keys k [] n h = cc h
In-keys k ((j, v) ∷ m) n h = elim (Bool-cases (str_eq j k)) [
  | inl t ↦ inl ((eq_iff j k).0 t)
  | inr f ↦ inr (In-keys k m n (rw f at h))
]

later : (k j : String) (js : List String) → In k (j ∷ js) → str_eq j k ≡ false → In k js
later k j js (inl e) f = cc ((eq_iff j k).1 e)
later k j js (inr m) f = m

In-first_member :
    (k : String) (as' : List Address)
    → In k (map to_string as')
    → (n : Node) × (first_member k as' ≡ some n)
In-first_member k [] h = absurd h
In-first_member k (a ∷ as') h = elim (Bool-cases (str_eq (to_string a) k)) [
  | inl t ↦ (configured a, rw t refl)
  | inr f ↦ rw f (In-first_member k as' (later k (to_string a) (map to_string as') h f))
]

or_nothing : (o : Option String) → or_own o none ≡ o
or_nothing none = refl
or_nothing (some v) = refl

-- The running cluster, as a new process at `self` finds it: the members that are up, `chief` among
-- them, take `chief` for the leader, or know none.
pub record Running (up : String → Bool) (self chief : String) (w : World) : Type 0 where
  pub is_up : up chief ≡ true
  pub another : str_eq self chief ≡ false
  pub named : str_eq chief "" ≡ false
  pub leads : (w chief).leader ≡ chief
  pub agreed : (a : String) → up a ≡ true → ((w a).leader ≡ "") ⊎ ((w a).leader ≡ chief)
  pub sorted : IsSorted (w chief).kv_store

-- The new process, which knows no leader, changes nothing of that.
agreed_with :
    (up : String → Bool) (self chief : String) (w : World) (q : Process)
    → q.leader ≡ ""
    → Running up self chief w
    → (a : String) → up a ≡ true
    → ((update w self q a).leader ≡ "") ⊎ ((update w self q a).leader ≡ chief)
agreed_with up self chief w q none_yet running a t = elim (Bool-cases (str_eq self a)) [
  | inl e ↦ inl (rw e none_yet)
  | inr f ↦ rw f (running.agreed a t)
]

own_address-settings :
    (p : Process) (config : Config)
    → p.config ≡ config
    → own_address p ≡ to_string (get_address consensus config)
unfolding own_address
own_address-settings p config e = ap (λ x. to_string (get_address consensus x)) e

lookup_nothing :
    (j : String) (o : Option String) (m : Map String String) → m ≡ [] → or_own o (lookup j m) ≡ o
unfolding lookup
lookup_nothing j o m e = rw e (or_nothing o)

module _ (split : String → List String) (lexical_cast : String → Option ℕ) (up : String → Bool)
    (self chief : String) (launch : Launch) (config : Config) (w : World) (as' : List Address)
    (c d : Address) where
  -- Let the program start as a node at `self`, with an empty store, not configured as the leader,
  -- and with addresses that can be read, the chief's among them but not its own. If it calls the
  -- members that are up, with no other thread at work, and these take the chief, which is up, for
  -- the leader or know none, `main` comes to its servers with the chief for the leader and with the
  -- chief's value, or none, for every key in its store.
  pub node_main_joins :
      make_addresses split lexical_cast config.cluster ≡ done as'
      → own_consensus split lexical_cast config ≡ done c
      → own_database split lexical_cast config ≡ done d
      → In chief (map to_string as')
      → str_eq chief (to_string (get_address consensus config)) ≡ false
      → config.flag.leader ≡ false
      → (w self).kv_store ≡ []
      → Running up self chief w
      → launch.ask ≡ partition up ping_phase
      → launch.recovery ≡ at_once
      → (w' : World) × (node_main split lexical_cast self launch config w ≡ done w')
        × ((w' self).leader ≡ chief)
        × ((j : String) → lookup j (w' self).kv_store ≡ lookup j (w chief).kv_store)
  unfolding node_main coordinated
  node_main_joins read hc hd m other plain fresh running asks recovers =
      let (q, made, q_started) =
        initialize-Started split lexical_cast config.cluster as' read config (w self) c d hc hd in
      let (node, listed) = In-first_member chief as' m in
      let u : World = update w self q in
      let here : u self ≡ q = update_self w self q in
      let found : lookup chief (u self).member_list ≡ some node =
        rw here (q_started.member chief ∙ rw listed refl) in
      let there : node.consensus_endpoint ≡ chief = endpoint-first_member chief as' node listed in
      let chief_same : u chief ≡ w chief = rw running.another refl in
      let same_node : u node.consensus_endpoint ≡ w chief = ap u there ∙ chief_same in
      let settings : (u self).config ≡ config =
        ap (λ (p : Process). p.config) here ∙ q_started.settings in
      let own = own_address-settings (u self) config settings in
      let empty : (u self).kv_store ≡ [] =
        ap (λ (p : Process). p.kv_store) here ∙ q_started.store ∙ fresh in
      let (w', ran, leads, stores) =
        coordinate_joins up self launch u chief node
          (ap (λ (x : Config). x.flag.leader) settings ∙ plain) asks recovers
          (In-keys chief (u self).member_list node found) running.is_up
          (ap (λ (p : Process). p.leader) chief_same ∙ running.leads)
          (λ a _. agreed_with up self chief w q q_started.no_leader running a) running.named
          (rw own other) found
          (subst (λ (p : Process). IsDistinct (keys p.kv_store)) (sym same_node)
            (keys-IsDistinct (w chief).kv_store running.sorted)) in
      (
        w',
        rw (node_main, made, ran) refl,
        leads,
        (λ j.
            stores j
            ∙ ap (λ (p : Process). or_own (lookup j p.kv_store) (lookup j (u self).kv_store))
                same_node
            ∙ lookup_nothing j (lookup j (w chief).kv_store) (u self).kv_store empty),
      )
