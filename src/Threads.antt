-- ===== src/Threads.antt =====
-- src/rpc.cc, the handlers `propose`, `accept` and `success` as the server's threads run them: one
-- access to the process's shared data at a time, with steps of other threads in between. Each
-- access is one step: a count, an overload of `Set_Log` (which `log_mutex` makes atomic), an
-- overload of `Get_Log` (taken as one step, although it holds no lock), `Set_KV`, or a write of the
-- leader.
pub mod Whole
pub mod Agrees
pub mod Coarse
pub mod Race
use cs739_p2_replicated_data.Base.{ℕ, String, List, [], ◌∷◌, Bool, str_eq, nat_eq, if◌then◌else◌}
use cs739_p2_replicated_data.Base.Int.{ltb_ℤ}
use cs739_p2_replicated_data.Proto.{Request, Response, empty_response, ok, Reply}
use cs739_p2_replicated_data.Log.{
  set_log, set_log_accept, get_log_key, get_log_entry, largest_round,
}
use cs739_p2_replicated_data.Process.{Process, count_incoming}
use cs739_p2_replicated_data.ConsensusRpc.{give_up, outdated, proposal_reply, apply_success}
use cs739_p2_replicated_data.World.{
  Event, propose_at, accept_at, set_leader_at, set_kv_at, count_incoming_at,
}

-- Where a handler stands, with what it still needs: at its start, with `IsCancelled()` as it will
-- find it; before a write or a read of the log; before the write that applies a success; or
-- finished, with its reply.
pub data Thread : Type 0 where
  propose_start accept_start success_start : Bool → Request → Thread
  propose_write propose_read : Request → Thread
  accept_read accept_write : Request → Thread
  success_write success_read success_apply : Request → Thread
  answered : Reply Response → Thread
  informed : Reply Unit → Thread

abbrev pub refused : Reply Response
refused = record { status = give_up; response = empty_response }

abbrev pub accepted : Request → Reply Response
accepted r = record {
  status = ok;
  response = record {
    op = r.op;
    value = r.value;
    pserver_id = r.pserver_id;
    aserver_id = r.aserver_id;
    round = r.round;
  };
}

-- One step of one thread.
unfoldable pub advance : Thread → Process → Thread × Process
advance (propose_start c r) p =
    (if c then answered refused else propose_write r, count_incoming "ConsensusRPC::propose" p)
advance (propose_write r) p =
    (propose_read r, record p { pax_log = set_log r.key r.round p.pax_log })
advance (propose_read r) p =
    let (e, log) = get_log_entry r.key r.round p.pax_log in
    (answered (proposal_reply r e), record p { pax_log = log })
advance (accept_start c r) p =
    (if c then answered refused else accept_read r, count_incoming "ConsensusRPC::accept" p)
advance (accept_read r) p =
    (accept_write r, record p { pax_log = (get_log_entry r.key r.round p.pax_log).1 })
advance (accept_write r) p = (
  answered (accepted r),
  record p { pax_log = set_log_accept r.key r.round r.pserver_id r.op r.value p.pax_log },
)
advance (success_start c r) p = (
  if c then informed (record { status = give_up; response = tt }) else success_write r,
  count_incoming "ConsensusRPC::success" p,
)
advance (success_write r) p = (
  success_read r,
  record p { pax_log = set_log_accept r.key r.round r.pserver_id r.op r.value p.pax_log },
)
advance (success_read r) p =
    let (rounds, log) = get_log_key r.key p.pax_log in
    (
      if ltb_ℤ r.round (largest_round rounds)
          then informed (record { status = outdated; response = tt })
          else success_apply r,
      record p { pax_log = log },
    )
advance (success_apply r) p = (informed (record { status = ok; response = tt }), apply_success r p)
advance (answered reply) p = (answered reply, p)
advance (informed reply) p = (informed reply, p)

-- A process with its handler threads, of which any number may be under way.
pub record System : Type 0 where
  pub process : Process
  pub thread : ℕ → Thread

-- Thread `i` moves; a thread that has finished stays as it is.
unfoldable pub turn : ℕ → System → System
turn i s =
    let (t, p) = advance (s.thread i) s.process in
    record { process = p; thread = λ j. if nat_eq i j then t else s.thread j }

-- The threads move in the order of the schedule.
unfoldable pub run : List ℕ → System → System
run [] s = s
run (i ∷ schedule) s = run schedule (turn i s)

-- What a step amounts to among the events of a world, for a process with the address `a`. The read
-- of `accept` makes a missing entry, as a proposal does; the write of `success` to the log is that
-- of an acceptance.
abbrev pub events_of : String → Thread → List Event
events_of a (propose_start c r) = count_incoming_at a "ConsensusRPC::propose" ∷ []
events_of a (propose_write r) = propose_at a r ∷ []
events_of a (propose_read r) = propose_at a r ∷ []
events_of a (accept_start c r) = count_incoming_at a "ConsensusRPC::accept" ∷ []
events_of a (accept_read r) = propose_at a r ∷ []
events_of a (accept_write r) = accept_at a r ∷ []
events_of a (success_start c r) = count_incoming_at a "ConsensusRPC::success" ∷ []
events_of a (success_write r) = accept_at a r ∷ []
events_of a (success_read r) = []
events_of a (success_apply r) =
    (if str_eq r.key "leader" then set_leader_at a r.value else set_kv_at a r.key r.value) ∷ []
events_of a (answered reply) = []
events_of a (informed reply) = []
