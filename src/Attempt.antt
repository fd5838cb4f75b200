-- ===== src/Attempt.antt =====
-- src/app.cc, `Consensus::AttemptConsensus`, run by the process `self` against a network that
-- decides the fate of each call. A member is called once in each phase.
pub mod Loops
pub mod Slots
pub mod Stages
pub mod Live
pub mod Settings
pub mod Above
pub mod Liveness
pub mod Settled
pub mod Whole
pub mod Growth
pub mod Leads
pub mod History
pub mod Promise
pub mod Receive
pub mod Inform
pub mod Partition
pub mod Abort
pub mod Agreement
pub mod Adoption
pub mod Values
pub mod Chosen
pub mod Quorum
pub mod Counted
use cs739_p2_replicated_data.Base.{
  ℕ, ◌+◌, ◌/◌, String, Bool, List, [], ◌∷◌, ◌++◌, leb, if◌then◌else◌,
}
use cs739_p2_replicated_data.Base.Int.{ℤ, pos, ltb_ℤ, to_int32}
use cs739_p2_replicated_data.Base.Lists.{length}
use cs739_p2_replicated_data.Map.{get_or, keys, size, string_key}
use cs739_p2_replicated_data.Proto.{
  Operation, not_set, Request, Response, empty_request, empty_response, Status, ok, failed, aborted,
  is_ok, Reply,
}
use cs739_p2_replicated_data.World.{World, Slot}
use cs739_p2_replicated_data.Call.{call_ping, call_propose, call_accept, call_success}

pub data Phase : Type 0 where
  ping_phase propose_phase accept_phase success_phase : Phase

abbrev pub Network : Type 0
Network = Phase → String → Slot

-- A loop over nodes that makes one call to each and looks at its reply.
unfoldable pub broadcast :
    {A S : Type 0}
    → (String → World → Reply A × World)
    → (S → String → Reply A → S)
    → List String
    → S
    → World
    → S × World
broadcast call see [] s w = (s, w)
broadcast call see (a ∷ as') s w = let (r, w') = call a w in broadcast call see as' (see s a r) w'

-- `count <= std::ceil(num_replicas / 2.0) - 1`, with the 1 on the left side
unfoldable pub lacks_quorum : ℕ → ℕ → Bool
lacks_quorum num_replicas count = leb (count + 1) ((num_replicas + 1) / 2)

abbrev pub no_quorum : Reply Response
no_quorum = record {
  status = failed aborted "Not enough live servers for quorum.";
  response = empty_response;
}

-- `live_nodes.push_back(node)` where the ping succeeded
abbrev pub see_ping : List String → String → Reply Unit → List String
see_ping live a r = if is_ok r.status then live ++ a ∷ [] else live

-- What the proposal loop keeps.
pub record Proposals : Type 0 where
  pub num_accepted : ℕ
  pub accepted_id : ℤ
  pub accepted_value : String
  pub accepted_op : Operation

abbrev pub no_proposals : Proposals
no_proposals = record {
  num_accepted = 0;
  accepted_id = pos 0;
  accepted_value = "";
  accepted_op = not_set;
}

abbrev pub see_proposal : Proposals → String → Reply Response → Proposals
see_proposal s a r =
    if is_ok r.status
    then if ltb_ℤ s.accepted_id r.response.aserver_id
      then record {
        num_accepted = s.num_accepted + 1;
        accepted_id = r.response.aserver_id;
        accepted_value = r.response.value;
        accepted_op = r.response.op;
      }
      else record s { num_accepted = s.num_accepted + 1 }
    else s

-- What the acceptance loop keeps.
pub record Acceptances : Type 0 where
  pub num_final : ℕ
  pub acceptance : Response

abbrev pub no_acceptances : Acceptances
no_acceptances = record { num_final = 0; acceptance = empty_response }

abbrev pub see_acceptance : Acceptances → String → Reply Response → Acceptances
see_acceptance s a r =
    if is_ok r.status then record { num_final = s.num_final + 1; acceptance = r.response } else s

abbrev pub propose_id : ℤ
propose_id = pos 1

-- `int round = pax_log[key].size()`, on the proposer's copy of its own log
unfoldable pub next_round : String → String → World → ℤ
next_round self key w = to_int32 (size (get_or key [] (w self).pax_log))

abbrev pub prepare_request : Request → ℤ → Request
prepare_request r round = record empty_request {
  key = r.key;
  round = round;
  value = r.value;
  pserver_id = propose_id;
}

-- The accepted operation and value go before the caller's own.
abbrev pub accept_request : Request → ℤ → Proposals → Request
accept_request r round s =
    let found : Bool = ltb_ℤ (pos 0) s.accepted_id in
    record {
      key = r.key;
      value = if found then s.accepted_value else r.value;
      pserver_id = propose_id;
      aserver_id = if found then s.accepted_id else pos 0;
      round = round;
      op = if found then s.accepted_op else r.op;
    }

abbrev pub success_request : Request → Response → Request
success_request r acceptance = record {
  key = r.key;
  value = acceptance.value;
  op = acceptance.op;
  pserver_id = acceptance.pserver_id;
  aserver_id = acceptance.aserver_id;
  round = acceptance.round;
}

module _ (self : String) (net : Network) where
  unfoldable pub ping_all : List String → World → List String × World
  ping_all members = broadcast (λ a. call_ping self (net ping_phase a) a) see_ping members []

  unfoldable pub propose_all : Request → List String → World → Proposals × World
  propose_all request live =
      broadcast (λ a. call_propose self (net propose_phase a) a request) see_proposal live
        no_proposals

  unfoldable pub accept_all : Request → List String → World → Acceptances × World
  accept_all request live =
      broadcast (λ a. call_accept self (net accept_phase a) a request) see_acceptance live
        no_acceptances

  -- The replies of the success phase are ignored.
  unfoldable pub success_all : Request → List String → World → Unit {0} × World
  success_all request members =
      broadcast (λ a. call_success self (net success_phase a) a request) (λ s a r. s) members tt

  -- 3: the success stage
  unfoldable pub success_stage :
      Request → List String → Acceptances × World → Reply Response × World
  success_stage r members (s, w) =
      if lacks_quorum (length members) s.num_final then (no_quorum, w) else (
        record { status = ok; response = s.acceptance },
        (success_all (success_request r s.acceptance) members w).1,
      )

  -- 2: the accept stage
  unfoldable pub accept_stage :
      Request → ℤ → List String → List String → Proposals × World → Reply Response × World
  unfolding success_stage
  accept_stage r round members live (s, w) =
      if lacks_quorum (length members) s.num_accepted
      then (no_quorum, w)
      else success_stage r members (accept_all (accept_request r round s) live w)

  -- 1: the proposal stage
  unfoldable pub propose_stage :
      Request → ℤ → List String → List String × World → Reply Response × World
  unfolding accept_stage
  propose_stage r round members (live, w) =
      if lacks_quorum (length members) (length live)
      then (no_quorum, w)
      else accept_stage r round members live (propose_all (prepare_request r round) live w)

  -- `AttemptConsensus`. The member list is fixed before the servers start.
  unfoldable pub attempt_consensus : Request → World → Reply Response × World
  unfolding propose_stage
  attempt_consensus r w =
      let members : List String = keys (w self).member_list in
      propose_stage r (next_round self r.key w) members (ping_all members w)
