-- ===== src/Startup.antt =====
-- src/app.cc, `Consensus::coordinate`: how a process finds the leader when it starts, or elects
-- one, and takes over the leader's store. The random delay and the prints are left out.
pub mod Laws
pub mod Joining
pub mod Start
pub mod Copies
use cs739_p2_replicated_data.Base.{
  ℕ, String, Bool, true, false, Option, none, some, List, [], ◌∷◌, str_eq, if◌then◌else◌, leb, ◌&&◌,
}
use cs739_p2_replicated_data.Map.{Map, lookup, insert, keys, size, string_key}
use cs739_p2_replicated_data.Proto.{is_ok, Reply}
use cs739_p2_replicated_data.Database.{Store, set_kv}
use cs739_p2_replicated_data.Process.{Process, own_address}
use cs739_p2_replicated_data.World.{World, Slot, update, stub, count_call}
use cs739_p2_replicated_data.Call.{call_get_leader}
use cs739_p2_replicated_data.Attempt.{Network, broadcast}
use cs739_p2_replicated_data.Election.{assign_leader, trigger_election}
use cs739_p2_replicated_data.DatabaseCall.{call_get_db}

-- `std::set<std::string>`
abbrev pub Set : Type 0
Set = Map String (Unit {0})

-- The calls of one start.
pub record Launch : Type 0 where
  pub ask : String → Slot
  pub election : Slot
  pub attempt : Network
  pub recovery : Slot

pub record Answers : Type 0 where
  pub leaders : Set
  pub live_replicas : Set

abbrev pub see_answer : Answers → String → Reply String → Answers
see_answer s a r =
    if is_ok r.status
    then record {
      leaders = if str_eq r.response "" then s.leaders else insert r.response tt s.leaders;
      live_replicas = insert a tt s.live_replicas;
    }
    else s

-- the loop of `Set_KV` over the leader's map
unfoldable pub set_all : Store → Store → Store
unfolding set_kv
set_all [] kv = kv
set_all ((key, value) ∷ db) kv = set_all db (set_kv key value kv)

abbrev pub store_all : String → Store → World → World
store_all self db w = update w self (record (w self) { kv_store = set_all db (w self).kv_store })

-- `*leaders.begin()`, if `leaders.size() == 1` and that leader is live
unfoldable pub sole : Set → Set → Option String
unfolding lookup
sole ((a, _) ∷ []) live = elim (lookup a live) [ some _ ↦ some a | none ↦ none ]
sole _ live = none

unfoldable pub sole_live : Answers → Option String
unfolding sole
sole_live s = sole s.leaders s.live_replicas

module _ (self : String) (launch : Launch) where
  unfoldable pub ask_all : List String → World → Answers × World
  ask_all members =
      broadcast (λ a. call_get_leader self (launch.ask a) a) see_answer members
        (record { leaders = []; live_replicas = [] })

  -- The end of `coordinate`. There is no result where `memberList->at` throws, which ends the
  -- program.
  unfoldable pub recover : World → Option World
  unfolding call_get_db set_all
  recover w =
      if str_eq (w self).leader ""
      then some w
      else if str_eq (w self).leader (own_address (w self))
      then some w
      else elim (lookup (w self).leader (w self).member_list) [
        | none ↦ none
        | some node ↦
            let (db, w') = call_get_db self launch.recovery node.consensus_endpoint w in
            some (store_all self db w')
      ]

  -- No valid leader was returned.
  unfoldable pub elect_or_recover : World → Option World
  unfolding recover
  elect_or_recover w = elim (w self).config.flag.election [
    | true ↦
        let (e, w') =
          trigger_election self (w self).current_node.consensus_endpoint launch.election
            launch.attempt w in
        if is_ok e.status then recover w' else some w'
    | false ↦ recover w
  ]

  unfoldable pub follow : Answers × World → Option World
  unfolding recover elect_or_recover sole_live
  follow (s, w) = elim (sole_live s) [
    | some a ↦ recover (assign_leader self a w)
    | none ↦ elect_or_recover w
  ]

  unfoldable pub coordinate : World → Option World
  unfolding recover ask_all follow
  coordinate w =
      if (w self).config.flag.leader
      then recover (assign_leader self (own_address (w self)) w)
      else follow (ask_all (keys (w self).member_list) w)
