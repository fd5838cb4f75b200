-- ===== src/Call.antt =====
-- src/rpc.cc, `ConsensusRPCWrapperCall`: the client's side of the consensus calls, made by the
-- process `self` to the endpoint of the member `a`.
use cs739_p2_replicated_data.Base.{String, []}
use cs739_p2_replicated_data.Proto.{Request, Response, empty_response, Reply, StatisticsResponse}
use cs739_p2_replicated_data.ConsensusRpc.{
  propose, accept, success, ping, get_leader, db_address_request, get_stats,
}
use cs739_p2_replicated_data.World.{World, Slot, stub, count_call}

module _ (self : String) (slot : Slot) (a : String) where
  unfoldable pub call_propose : Request → World → Reply Response × World
  call_propose request w =
      stub empty_response (λ c. propose c request) slot a
        (count_call self "ConsensusRPCWrapperCall::propose" w)

  unfoldable pub call_accept : Request → World → Reply Response × World
  call_accept request w =
      stub empty_response (λ c. accept c request) slot a
        (count_call self "ConsensusRPCWrapperCall::accept" w)

  unfoldable pub call_success : Request → World → Reply Unit × World
  call_success request w =
      stub tt (λ c. success c request) slot a (count_call self "ConsensusRPCWrapperCall::success" w)

  unfoldable pub call_ping : World → Reply Unit × World
  call_ping w = stub tt ping slot a (count_call self "ConsensusRPCWrapperCall::ping" w)

  unfoldable pub call_get_leader : World → Reply String × World
  call_get_leader w =
      stub "" get_leader slot a (count_call self "ConsensusRPCWrapperCall::get_leader" w)

  unfoldable pub call_db_address_request : World → Reply String × World
  call_db_address_request w =
      stub "" db_address_request slot a
        (count_call self "ConsensusRPCWrapperCall::db_address_request" w)

  unfoldable pub call_get_stats : World → Reply StatisticsResponse × World
  call_get_stats w =
      stub (record { incount = []; outcount = [] }) get_stats slot a
        (count_call self "ConsensusRPCWrapperCall::get_stats" w)
