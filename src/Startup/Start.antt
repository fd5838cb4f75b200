-- ===== src/Startup/Start.antt =====
-- `coordinate` where the members that are up agree on a leader that is up.
use cs739_p2_replicated_data.Base.{
  String, ◌≡◌, refl, ap, ◌∙◌, Bool, true, false, ◌⊎◌, arith, some, List, [], str_eq, eq_iff,
}
use cs739_p2_replicated_data.Base.Lists.{In, IsDistinct}
use cs739_p2_replicated_data.Map.{lookup, keys, string_key}
use cs739_p2_replicated_data.Process.{Process, Node, own_address}
use cs739_p2_replicated_data.ConsensusRpc.{get_leader}
use cs739_p2_replicated_data.ConsensusRpc.Effects.{SameState}
use cs739_p2_replicated_data.World.{World, count_call}
use cs739_p2_replicated_data.World.Laws.{Rel, Rel-chain, Rel-count_call, Rel-stub, update_self}
use cs739_p2_replicated_data.Call.{call_get_leader}
use cs739_p2_replicated_data.Attempt.{ping_phase}
use cs739_p2_replicated_data.Attempt.Loops.{broadcast-Rel}
use cs739_p2_replicated_data.Attempt.Settings.{
  SameSettings, SameSettings-Frame, count_incoming-SameSettings,
}
use cs739_p2_replicated_data.Attempt.Partition.{partition}
use cs739_p2_replicated_data.Election.{assign_leader}
use cs739_p2_replicated_data.DatabaseRpc.Laws.{IsFollower, at_once, own_address-config}
use cs739_p2_replicated_data.Startup.{
  Answers, see_answer, ask_all, Launch, sole_live, follow, coordinate, recover,
}
use cs739_p2_replicated_data.Startup.Joining.{ask_all-chief}
use cs739_p2_replicated_data.Startup.Laws.{or_own, recovery_merges}

get_leader-SameSettings : (c : Bool) (p : Process) → SameSettings p (get_leader c p).1
unfolding get_leader
get_leader-SameSettings true p = count_incoming-SameSettings "ConsensusRPC::get_leader" p
get_leader-SameSettings false p = count_incoming-SameSettings "ConsensusRPC::get_leader" p

module _ (up : String → Bool) (self : String) where
  ask-SameSettings :
      (a : String) (u : World)
      → Rel SameSettings u (call_get_leader self (partition up ping_phase a) a u).1
  unfolding call_get_leader
  ask-SameSettings a u =
      let name : String = "ConsensusRPCWrapperCall::get_leader" in
      Rel-chain SameSettings-Frame u (count_call self name u)
        (call_get_leader self (partition up ping_phase a) a u).1
        (Rel-count_call SameSettings-Frame self name u)
        (Rel-stub SameSettings-Frame "" get_leader get_leader-SameSettings
          (partition up ping_phase a) a (count_call self name u) tt)

  ask_all-SameSettings :
      (launch : Launch) (members : List String) (w : World)
      → launch.ask ≡ partition up ping_phase
      → Rel SameSettings w (ask_all self launch members w).1
  unfolding ask_all
  ask_all-SameSettings launch members w e = rw e (
      broadcast-Rel SameSettings-Frame (λ a. call_get_leader self (partition up ping_phase a) a)
        see_answer ask-SameSettings members (record { leaders = []; live_replicas = [] }) w)

pub assign_self :
    (self v : String) (w : World) → assign_leader self v w self ≡ record (w self) { leader = v }
unfolding assign_leader
assign_self self v w = update_self w self (record (w self) { leader = v })

assign_store :
    (self v : String) (w : World) (a : String)
    → (assign_leader self v w a).kv_store ≡ (w a).kv_store
unfolding assign_leader
assign_store self v w a = ground (arith, eq_iff self a)

follow-some :
    (self : String) (launch : Launch) (x : Answers × World) (chief : String)
    → sole_live x.0 ≡ some chief
    → follow self launch x ≡ recover self launch (assign_leader self chief x.1)
unfolding follow
follow-some self launch x chief e = rw (follow, e) refl

-- Let a process start that is not configured as the leader, and let its calls reach the members
-- that are up, no other thread taking a step. If a member `chief` that is up takes itself for the
-- leader, every other member that is up names it or nobody, it is not the starting process, and its
-- store is a map, with no key twice, then `coordinate` ends with `chief` as the leader of the
-- process, and with the chief's value for every key in its store, or its own old value where the
-- chief has none.
pub coordinate_joins :
    (up : String → Bool) (self : String) (launch : Launch) (w : World) (chief : String)
    (node : Node)
    → (w self).config.flag.leader ≡ false
    → launch.ask ≡ partition up ping_phase
    → launch.recovery ≡ at_once
    → In chief (keys (w self).member_list)
    → up chief ≡ true
    → (w chief).leader ≡ chief
    → ((a : String)
        → In a (keys (w self).member_list)
        → up a ≡ true
        → ((w a).leader ≡ "") ⊎ ((w a).leader ≡ chief))
    → str_eq chief "" ≡ false
    → str_eq chief (own_address (w self)) ≡ false
    → lookup chief (w self).member_list ≡ some node
    → IsDistinct (keys (w node.consensus_endpoint).kv_store)
    → (w' : World) × (coordinate self launch w ≡ some w')
      × ((w' self).leader ≡ chief)
      × ((j : String)
          → lookup j (w' self).kv_store
            ≡ or_own (lookup j (w node.consensus_endpoint).kv_store) (lookup j (w self).kv_store))
unfolding coordinate
coordinate_joins up self launch w chief node plain asks up_again m chief_up known agreed named other
      found distinct =
    let (w', ran, leads, stores, _) =
      recovery_merges self launch joined node follower (rw here (rw settings.member_list found))
        up_again (rw (store node.consensus_endpoint) distinct) in
    (
      w',
      run ∙ ran,
      leads ∙ ap (λ (p : Process). p.leader) here,
      (λ j. rw (← store node.consensus_endpoint, ← store self) (stores j)),
    )
  where
    members : List String
    members = keys (w self).member_list

    asked : Answers × World
    asked = ask_all self launch members w

    heard : (sole_live asked.0 ≡ some chief) × Rel SameState w asked.1
    heard = ask_all-chief up self w members chief named chief_up known agreed launch asks m

    settings : SameSettings (w self) (asked.1 self)
    settings = ask_all-SameSettings up self launch members w asks self

    joined : World
    joined = assign_leader self chief asked.1

    here : joined self ≡ record (asked.1 self) { leader = chief }
    here = assign_self self chief asked.1

    follower : IsFollower (joined self)
    follower = record {
      known = rw here named;
      other = rw here (
          rw
            (own_address-config (w self) (record (asked.1 self) { leader = chief }) settings.config)
            other);
    }

    store : (a : String) → (joined a).kv_store ≡ (w a).kv_store
    store a = assign_store self chief asked.1 a ∙ (heard.1 a).kv_store

    run : coordinate self launch w ≡ recover self launch joined
    run = rw plain (follow-some self launch asked chief heard.0)
