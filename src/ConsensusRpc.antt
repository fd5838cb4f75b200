-- ===== src/ConsensusRpc.antt =====
-- src/rpc.cc, `ConsensusRPC`: what a process does with each request. `is_cancelled` is
-- `context->IsCancelled()` when the handler starts. Nothing is printed.
pub mod Effects
pub mod Newest
pub mod Converge
use cs739_p2_replicated_data.Base.{String, Bool, [], str_eq, if◌then◌else◌}
use cs739_p2_replicated_data.Base.Int.{pos, ltb_ℤ}
use cs739_p2_replicated_data.Proto.{
  Request, Response, empty_response, LogEntry, Status, ok, failed, cancelled, aborted, Reply,
  StatisticsResponse,
}
use cs739_p2_replicated_data.Log.{
  set_log, set_log_accept, get_log_key, get_log_entry, largest_round,
}
use cs739_p2_replicated_data.Database.{set_kv}
use cs739_p2_replicated_data.Process.{Process, count_incoming}

abbrev pub give_up : Status
give_up = failed cancelled "Deadline exceeded or Client cancelled, abandoning."

abbrev pub timed_out : Status
timed_out = failed cancelled "Request timed out"

abbrev pub stale_proposal : Status
stale_proposal = failed aborted "Proposal is out of date."

abbrev pub outdated : Status
outdated = failed aborted "Information is outdated."

-- The answer of `propose` on the entry that it has read.
abbrev pub proposal_reply : Request → LogEntry → Reply Response
proposal_reply request e =
    if ltb_ℤ request.pserver_id e.p_server_id
    then record { status = stale_proposal; response = empty_response }
    else if ltb_ℤ (pos 0) e.a_server_id
    then record {
      status = ok;
      response = record empty_response {
        aserver_id = e.a_server_id;
        op = e.op;
        value = e.accepted_value;
      };
    }
    else record {
      status = ok;
      response = record empty_response { round = request.round; pserver_id = request.pserver_id };
    }

unfoldable pub propose : Bool → Request → Process → Reply Response × Process
propose is_cancelled request p₀ =
    let p = count_incoming "ConsensusRPC::propose" p₀ in
    if is_cancelled
    then (record { status = give_up; response = empty_response }, p)
    else let (pax_log, log) =
        get_log_entry request.key request.round (set_log request.key request.round p.pax_log) in
      (proposal_reply request pax_log, record p { pax_log = log })

unfoldable pub accept : Bool → Request → Process → Reply Response × Process
accept is_cancelled request p₀ =
    let p = count_incoming "ConsensusRPC::accept" p₀ in
    if is_cancelled
    then (record { status = give_up; response = empty_response }, p)
    else let (_, log) = get_log_entry request.key request.round p.pax_log in
      (
        record {
          status = ok;
          response = record {
            op = request.op;
            value = request.value;
            pserver_id = request.pserver_id;
            aserver_id = request.aserver_id;
            round = request.round;
          };
        },
        record p {
          pax_log =
              set_log_accept request.key request.round request.pserver_id request.op request.value
                log;
        },
      )

-- The end of `success`, once the request is known to be current.
abbrev pub apply_success : Request → Process → Process
apply_success request p =
    if str_eq request.key "leader"
    then record p { leader = request.value }
    else record p { kv_store = set_kv request.key request.value p.kv_store }

unfoldable pub success : Bool → Request → Process → Reply Unit × Process
success is_cancelled request p₀ =
    let p = count_incoming "ConsensusRPC::success" p₀ in
    if is_cancelled
    then (record { status = give_up; response = tt }, p)
    else let (pax_log, log) = get_log_key request.key (
        set_log_accept request.key request.round request.pserver_id request.op request.value
          p.pax_log) in
      let p' : Process = record p { pax_log = log } in
      if ltb_ℤ request.round (largest_round pax_log)
      then (record { status = outdated; response = tt }, p')
      else (record { status = ok; response = tt }, apply_success request p')

unfoldable pub ping : Bool → Process → Reply Unit × Process
ping is_cancelled p₀ =
    let p = count_incoming "ConsensusRPC::ping" p₀ in
    (record { status = if is_cancelled then give_up else ok; response = tt }, p)

-- The response's address is never filled in.
unfoldable pub db_address_request : Bool → Process → Reply String × Process
db_address_request is_cancelled p₀ =
    let p = count_incoming "ConsensusRPC::db_address_request" p₀ in
    (record { status = if is_cancelled then give_up else ok; response = "" }, p)

unfoldable pub get_leader : Bool → Process → Reply String × Process
get_leader is_cancelled p₀ =
    let p = count_incoming "ConsensusRPC::get_leader" p₀ in
    if is_cancelled
    then (record { status = give_up; response = "" }, p)
    else (record { status = ok; response = p.leader }, p)

unfoldable pub get_stats : Bool → Process → Reply StatisticsResponse × Process
get_stats is_cancelled p₀ =
    let p = count_incoming "ConsensusRPC::get_stats" p₀ in
    if is_cancelled
    then (record { status = timed_out; response = record { incount = []; outcount = [] } }, p)
    else (
      record { status = ok; response = record { incount = p.incount; outcount = p.outcount } },
      p,
    )
