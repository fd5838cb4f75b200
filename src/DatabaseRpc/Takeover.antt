-- ===== src/DatabaseRpc/Takeover.antt =====
-- A `get` at a process whose leader is out of reach: the process is elected, and answers.
use cs739_p2_replicated_data.Base.{
  ℕ, suc, String, ◌≡◌, refl, sym, ap, ◌∙◌, Bool, false, [], ◌∷◌, some, str_eq, eq_refl,
}
use mathlib.Core.Path.{subst}
use cs739_p2_replicated_data.Map.{lookup, string_key}
use cs739_p2_replicated_data.Proto.{GetResponse, empty_get_response, Reply}
use cs739_p2_replicated_data.Process.{Node, own_address}
use cs739_p2_replicated_data.World.{World, steps, count_call}
use cs739_p2_replicated_data.World.Laws.{Rel-chain, Rel-count_call}
use cs739_p2_replicated_data.ConsensusRpc.Effects.{SameState}
use cs739_p2_replicated_data.Attempt.Abort.{SameState-Frame}
use cs739_p2_replicated_data.Attempt.Settings.{SameSettings, SameSettings-Frame}
use cs739_p2_replicated_data.Attempt.Partition.{partition}
use cs739_p2_replicated_data.Attempt.Liveness.{CanCommit}
use cs739_p2_replicated_data.Attempt.Receive.{SameLog-Frame, CanCommit-SameLog}
use cs739_p2_replicated_data.Election.{remote, receive, trigger_election, election_request}
use cs739_p2_replicated_data.Election.Laws.{
  for_leader, receive-SameState, receive-SameSettings, receive-SameLog,
}
use cs739_p2_replicated_data.DatabaseRpc.{Hop, Weather, first, again, local_get, get}
use cs739_p2_replicated_data.DatabaseRpc.Laws.{
  IsLeader, IsFollower, by_leader-IsFollower, own_address-config, at_once,
}
use cs739_p2_replicated_data.DatabaseRpc.Reads.{answer, get-IsLeader}
use cs739_p2_replicated_data.DatabaseRpc.Failover.{
  cut_off, forward_request-elected, elected, elected_fine, elected_process,
}

-- What the process needs: its leader is a member that it cannot reach, it can reach itself, under
-- its own address, and it can commit its election with the members that are up.
pub record CanTakeOver (up : String → Bool) (self : String) (weather : Weather) (w : World)
    : Type 0 where
  pub follower : IsFollower (w self)
  pub leader_node : Node
  pub known : lookup (w self).leader (w self).member_list ≡ some leader_node
  pub lost : (weather []).forward first ≡ cut_off
  pub election : (weather []).election ≡ at_once
  pub attempt : (weather []).attempt ≡ partition up
  pub retry : (weather []).forward again ≡ at_once
  pub address : own_address (w self) ≡ self
  pub current : (w self).current_node.consensus_endpoint ≡ self
  pub own : Node
  pub listed : lookup self (w self).member_list ≡ some own
  pub endpoint : own.consensus_endpoint ≡ self
  pub named : str_eq self "" ≡ false
  pub can : CanCommit up self (election_request (for_leader self)) w

module _ (up : String → Bool) (self : String) (weather : Weather) (key : String) (w : World)
    (h : CanTakeOver up self weather w) where
  abbrev u : World
  u = receive self "DatabaseRPC::get" w

  abbrev x : World
  x = count_call self "ConsensusRPCWrapperCall::trigger_election" u

  state : SameState (w self) (x self)
  state =
      Rel-chain SameState-Frame w u x (receive-SameState self "DatabaseRPC::get" w)
        (Rel-count_call SameState-Frame self _ u) self

  settings : SameSettings (w self) (x self)
  settings =
      Rel-chain SameSettings-Frame w u x (receive-SameSettings self "DatabaseRPC::get" w)
        (Rel-count_call SameSettings-Frame self _ u) self

  can_still : CanCommit up self (election_request (for_leader self)) x
  can_still =
      CanCommit-SameLog up self (election_request (for_leader self)) w x
        (Rel-chain SameLog-Frame w u x (receive-SameLog self "DatabaseRPC::get" w)
          (Rel-count_call SameLog-Frame self _ u))
        h.can

  abbrev v : World
  v = (elected up self self x can_still).1

  arrived_settings : SameSettings (w self) (u self)
  arrived_settings = receive-SameSettings self "DatabaseRPC::get" w self

  target : (u self).current_node.consensus_endpoint ≡ self
  target = ap (λ (n : Node). n.consensus_endpoint) arrived_settings.current_node ∙ h.current

  own_name : own_address (u self) ≡ self
  own_name = own_address-config (w self) (u self) arrived_settings.config ∙ h.address

  triggered :
      trigger_election self
        (u self).current_node.consensus_endpoint
        (weather []).election
        (weather []).attempt
        u
      ≡ elected up self self x can_still
  unfolding trigger_election remote steps
  triggered = rw (own_name, target, h.election, h.attempt) refl

  abbrev won :
      ((v self).leader ≡ self)
      × ((v self).kv_store ≡ (x self).kv_store)
      × SameSettings (x self) (v self)
  won = elected_process up self self x can_still

  takes_itself : IsLeader (v self)
  takes_itself = record {
    known = rw won.0 h.named;
    own =
        rw
          (
            won.0,
            own_address-config (x self) (v self) won.2.config,
            own_address-config (w self) (x self) settings.config,
            h.address,
          )
          (eq_refl self);
  }

  found : lookup (v self).leader (v self).member_list ≡ some h.own
  found = rw (won.0, won.2.member_list, settings.member_list) h.listed

  same_answer : local_get key (v self) ≡ local_get key (w self)
  unfolding local_get
  same_answer = rw (won.1, state.kv_store) refl

  -- The second try is a `get` at the process itself.
  again_here :
      (fuel : ℕ)
      → get (suc fuel) h.own.consensus_endpoint (λ path. weather (again ∷ path)) key false v ≡ (
        answer (local_get key (v h.own.consensus_endpoint)),
        receive h.own.consensus_endpoint "DatabaseRPC::get" v,
      )
  again_here fuel =
      get-IsLeader fuel h.own.consensus_endpoint (λ path. weather (again ∷ path)) key v
        (subst (λ a. IsLeader (v a)) (sym h.endpoint) takes_itself)

  whole :
      (fuel : ℕ)
      → get (suc (suc fuel)) self weather key false w
        ≡ get (suc fuel) h.own.consensus_endpoint (λ path. weather (again ∷ path)) key false v
  unfolding get
  whole fuel =
      let same = receive-SameState self "DatabaseRPC::get" w self in
      let run = λ (hop : Hop) (a : String). get (suc fuel) a (λ path. weather (hop ∷ path)) key in
      by_leader-IsFollower empty_get_response run self (weather []) "DatabaseRPC::get"
        (λ (z : World). (answer (local_get key (z self)), z)) w h.follower
      ∙ forward_request-elected empty_get_response run self (weather []) u v h.leader_node h.own
          (elected up self self x can_still).0 (rw (same.leader, same.member_list) h.known) h.lost
          triggered (elected_fine up self self x can_still).0 found h.retry
          (ap (λ (z : Reply GetResponse × World). z.0.status) (again_here fuel))

  -- Let a process know another member for the leader, which a call does not reach; let it be the
  -- member at its own address and reach itself; and let the members be distinct, half of them up, the
  -- process among them, and its next round for the key "leader" free at those that are up and the
  -- latest. Then a `get` at it, in a network that reaches the members that are up, with no other thread
  -- at work and with fuel for one more step, elects it: the answer is OK with what its own
  -- store holds for the key, and it is its own leader afterwards.
  pub get-CanTakeOver :
      (fuel : ℕ)
      → ((get (suc (suc fuel)) self weather key false w).0 ≡ answer (local_get key (w self)))
        × (((get (suc (suc fuel)) self weather key false w).1 self).leader ≡ self)
  get-CanTakeOver fuel = rw (whole fuel ∙ again_here fuel) (
    ap answer (ap (λ a. local_get key (v a)) h.endpoint ∙ same_answer),
    (receive-SameState h.own.consensus_endpoint "DatabaseRPC::get" v self).leader ∙ won.0,
  )
