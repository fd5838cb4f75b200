-- ===== src/Election.antt =====
-- src/rpc.cc, `ConsensusRPC::elect_leader` and `ConsensusRPCWrapperCall::trigger_election`: a
-- leader is elected by an attempt for the key "leader".
pub mod Laws
use cs739_p2_replicated_data.Base.{String, Bool, true, false, if◌then◌else◌}
use cs739_p2_replicated_data.Proto.{
  Request, empty_request, set_leader, ElectLeaderRequest, Status, failed, unknown, is_ok, Reply,
}
use cs739_p2_replicated_data.Process.{Process, count_incoming, own_address}
use cs739_p2_replicated_data.ConsensusRpc.{timed_out}
use cs739_p2_replicated_data.World.{
  World, update, Slot, Delivery, delivered, expired, reply_lost, unreachable, steps, no_reply,
  no_connection, count_call,
}
use cs739_p2_replicated_data.Attempt.{Network, attempt_consensus}

-- A remote call whose handler makes calls of its own.
unfoldable pub remote :
    {A : Type 0} → A → (Bool → World → Reply A × World) → Delivery → World → Reply A × World
remote empty handler delivered w = handler false w
remote empty handler expired w =
    (record { status = no_reply; response = empty }, (handler true w).1)
remote empty handler reply_lost w =
    (record { status = no_reply; response = empty }, (handler false w).1)
remote empty handler unreachable w = (record { status = no_connection; response = empty }, w)

-- A handler at `self` counts the request.
unfoldable pub receive : String → String → World → World
receive self name w = update w self (count_incoming name (w self))

-- `Cluster::leader = value`, at `self`
unfoldable pub assign_leader : String → String → World → World
assign_leader self value w = update w self (record (w self) { leader = value })

abbrev pub election_request : ElectLeaderRequest → Request
election_request request = record empty_request {
  value = request.value;
  key = request.key;
  op = set_leader;
}

unfoldable pub elect_leader :
    String → Network → ElectLeaderRequest → Bool → World → Reply Unit × World
elect_leader self net request is_cancelled w₀ =
    let w : World = receive self "ConsensusRPC::elect_leader" w₀ in
    elim is_cancelled [
      | true ↦ (record { status = timed_out; response = tt }, w)
      | false ↦
          let (resp, w') = attempt_consensus self net (election_request request) w in
          (
            record { status = resp.status; response = tt },
            if is_ok resp.status then assign_leader self resp.response.value w' else w',
          )
    ]

-- `trigger_election` of the process `self` at the endpoint of the process `target`; `net` is the
-- network of the attempt there.
unfoldable pub trigger_election : String → String → Slot → Network → World → Reply Unit × World
trigger_election self target slot net w =
    let request : ElectLeaderRequest = record { key = "leader"; value = own_address (w self) } in
    remote tt (elect_leader target net request) slot.delivery
      (steps slot.others (count_call self "ConsensusRPCWrapperCall::trigger_election" w))
