-- ===== src/Cluster/Members.antt =====
-- The member list that `initializeStaticInstance` leaves, and that it is the same at all members.
use cs739_p2_replicated_data.Base.{
  ℕ, String, ◌≡◌, refl, sym, ◌∙◌, inl, inr, Option, some, List, [], ◌∷◌, map, eq_iff, arith,
}
use cs739_p2_replicated_data.Base.Lists.{In}
use cs739_p2_replicated_data.Map.{lookup, string_key}
use cs739_p2_replicated_data.Map.Sorted.{IsSorted}
use cs739_p2_replicated_data.Map.Unique.{sorted_unique}
use cs739_p2_replicated_data.Config.{Config, Address, to_string}
use cs739_p2_replicated_data.Process.{Process}
use cs739_p2_replicated_data.Cluster.{
  done, join, set_cluster, make_addresses, own_consensus, own_database, initialize,
}
use cs739_p2_replicated_data.Cluster.Laws.{
  members, members-IsSorted, lookup-members, join-IsSorted, lookup-join, join_current, first_member,
  member_at, endpoint-member_at,
}

lookup-joined :
    (k : String) (as' : List Address) (c d : Address)
    → lookup k (join c d (members as')).1 ≡ member_at as' c d k
lookup-joined k as' c d = rw⁻¹ (lookup-members k as') (lookup-join k c d (members as'))

-- What a process's start leaves: no leader, members in ascending order, the configured ones and its
-- own address, and its own node among them.
pub record Started (config : Config) (p : Process) (as' : List Address) (c d : Address)
    (q : Process) : Type 0 where
  pub settings : q.config ≡ config
  pub store : q.kv_store ≡ p.kv_store
  pub log : q.pax_log ≡ p.pax_log
  pub no_leader : q.leader ≡ ""
  pub sorted : IsSorted q.member_list
  pub member : (k : String) → lookup k q.member_list ≡ member_at as' c d k
  pub current : lookup (to_string c) q.member_list ≡ some q.current_node
  pub own_endpoint : q.current_node.consensus_endpoint ≡ to_string c

set_cluster-Started :
    (config : Config) (as' : List Address) (c d : Address) (p : Process)
    → Started config p as' c d (set_cluster config as' c d p)
unfolding set_cluster
set_cluster-Started config as' c d p = record {
  settings = refl;
  store = refl;
  log = refl;
  no_leader = refl;
  sorted = unfold members in join-IsSorted c d (members as') (members-IsSorted as');
  member = λ k. unfold members in lookup-joined k as' c d;
  current = unfold members in join_current c d (members as');
  own_endpoint =
      unfold members in
      endpoint-member_at as' c d (to_string c) (join c d (members as')).0
        (sym (lookup-joined (to_string c) as' c d) ∙ join_current c d (members as'));
}

module _ (split : String → List String) (lexical_cast : String → Option ℕ)
    (address_list : List String) (as' : List Address)
    (read : make_addresses split lexical_cast address_list ≡ done as') where
  initialize_done :
      (config : Config) (p : Process) (c d : Address)
      → own_consensus split lexical_cast config ≡ done c
      → own_database split lexical_cast config ≡ done d
      → initialize split lexical_cast address_list config p ≡ done (set_cluster config as' c d p)
  unfolding initialize
  initialize_done config p c d hc hd = rw (initialize, read, hc, hd) refl

  -- Where the configured addresses and the own ones can be read, the start succeeds: the process
  -- has the configuration, and its store and its log as before; it has no leader; its member list
  -- is in ascending order; it maps each configured address to a node with that consensus endpoint
  -- and a database endpoint whose port is 1000 higher, and its own address, if that is not
  -- configured, to its own endpoints, and has no further key; the current node is the member with
  -- the own address.
  pub initialize-Started :
      (config : Config) (p : Process) (c d : Address)
      → own_consensus split lexical_cast config ≡ done c
      → own_database split lexical_cast config ≡ done d
      → (q : Process) × (initialize split lexical_cast address_list config p ≡ done q)
        × Started config p as' c d q
  initialize-Started config p c d hc hd = (
    set_cluster config as' c d p,
    initialize_done config p c d hc hd,
    set_cluster-Started config as' c d p,
  )

-- The own address adds nothing to a configuration that has it.
or_else_own :
    (k : String) (as' : List Address) (c d : Address)
    → In (to_string c) (map to_string as')
    → member_at as' c d k ≡ first_member k as'
or_else_own k [] c d h = absurd h
or_else_own k (a ∷ as') c d (inl e) =
    ground (arith, e, eq_iff (to_string a) k, eq_iff (to_string c) k)
or_else_own k (a ∷ as') c d (inr h) = ground (arith, or_else_own k as' c d h)

-- Two processes with the same configured addresses, each of which has its own address among them,
-- start with the same member list.
pub initialize_same :
    (split : String → List String) (lexical_cast : String → Option ℕ) (address_list : List String)
    (as' : List Address) (config₁ config₂ : Config) (p₁ p₂ : Process) (c₁ d₁ c₂ d₂ : Address)
    → make_addresses split lexical_cast address_list ≡ done as'
    → own_consensus split lexical_cast config₁ ≡ done c₁
    → own_database split lexical_cast config₁ ≡ done d₁
    → own_consensus split lexical_cast config₂ ≡ done c₂
    → own_database split lexical_cast config₂ ≡ done d₂
    → In (to_string c₁) (map to_string as')
    → In (to_string c₂) (map to_string as')
    → (q₁ q₂ : Process) × (initialize split lexical_cast address_list config₁ p₁ ≡ done q₁)
      × (initialize split lexical_cast address_list config₂ p₂ ≡ done q₂)
      × (q₁.member_list ≡ q₂.member_list)
initialize_same split cast l as' config₁ config₂ p₁ p₂ c₁ d₁ c₂ d₂ read h₁ g₁ h₂ g₂ m₁ m₂ =
    let (q₁, e₁, s₁) = initialize-Started split cast l as' read config₁ p₁ c₁ d₁ h₁ g₁ in
    let (q₂, e₂, s₂) = initialize-Started split cast l as' read config₂ p₂ c₂ d₂ h₂ g₂ in
    (
      q₁,
      q₂,
      e₁,
      e₂,
      sorted_unique q₁.member_list q₂.member_list s₁.sorted s₂.sorted (λ k.
          s₁.member k
          ∙ or_else_own k as' c₁ d₁ m₁
          ∙ sym (or_else_own k as' c₂ d₂ m₂)
          ∙ sym (s₂.member k)),
    )
