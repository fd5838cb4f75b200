-- ===== src/ConsensusRpc/Effects.antt =====
-- What each consensus handler replies and leaves behind, on every branch.
use cs739_p2_replicated_data.Base.{
  String, ◌≡◌, refl, Bool, true, false, arith, str_eq, if◌then◌else◌, not, ◌&&◌, [],
}
use cs739_p2_replicated_data.Base.Int.{ℤ, ltb_ℤ, int_min}
use cs739_p2_replicated_data.Map.{get_or, string_key}
use cs739_p2_replicated_data.Proto.{Request, Response, empty_response, LogEntry, ok}
use cs739_p2_replicated_data.Log.{Log, entry, set_log_accept}
use cs739_p2_replicated_data.Log.Laws.{
  same_slot, entry-set_log, entry-set_log_accept, entry-get_log_key, entry-get_log_entry,
  read-get_log_entry, read-get_log_key,
}
use cs739_p2_replicated_data.Log.Rounds.{above, largest_round-above}
use cs739_p2_replicated_data.Database.{set_kv}
use cs739_p2_replicated_data.Process.{Process, count_incoming, count_outgoing}
use cs739_p2_replicated_data.ConsensusRpc.{
  give_up, outdated, proposal_reply, propose, accept, success,
}

-- The fields that no consensus handler but `success` writes.
pub record SameState (p q : Process) : Type 0 where
  pub leader : q.leader ≡ p.leader
  pub kv_store : q.kv_store ≡ p.kv_store
  pub member_list : q.member_list ≡ p.member_list

module _ (name : String) (p : Process) where
  pub pax_log-count_incoming : (count_incoming name p).pax_log ≡ p.pax_log
  unfolding count_incoming
  pax_log-count_incoming = ground arith

  pub count_incoming-SameState : SameState p (count_incoming name p)
  unfolding count_incoming
  count_incoming-SameState = ground arith

module _ (name : String) (p : Process) where
  pub pax_log-count_outgoing : (count_outgoing name p).pax_log ≡ p.pax_log
  unfolding count_outgoing
  pax_log-count_outgoing = ground arith

  pub count_outgoing-SameState : SameState p (count_outgoing name p)
  unfolding count_outgoing
  count_outgoing-SameState = ground arith

-- A proposal that is read in time is answered from the entry of its key and round, and one that is
-- too late is given up. It leaves every entry as it was: in particular no promise is written down.
-- The store, the leader and the member list stay too.
pub propose_lem :
    (c : Bool) (r : Request) (p : Process)
    → ((propose c r p).0 ≡ (
        if c
        then record { status = give_up; response = empty_response }
        else proposal_reply r (entry r.key r.round p.pax_log)))
      × ((k : String) (n : ℤ) → entry k n (propose c r p).1.pax_log ≡ entry k n p.pax_log)
      × SameState p (propose c r p).1
propose_lem true r p =
    unfold propose in (refl, (λ k n. rw pax_log-count_incoming refl), count_incoming-SameState _ p)
propose_lem false r p =
    let same : SameState p (count_incoming "ConsensusRPC::propose" p) =
      count_incoming-SameState _ p in
    unfold propose in
    (
      simp (read-get_log_entry, entry-set_log, pax_log-count_incoming),
      (λ k n. simp (entry-get_log_entry, entry-set_log, pax_log-count_incoming)),
      record { leader = same.leader; kv_store = same.kv_store; member_list = same.member_list },
    )

-- What an acceptor replies: the request's own fields.
abbrev pub echo : Request → Response
echo r = record {
  op = r.op;
  value = r.value;
  pserver_id = r.pserver_id;
  aserver_id = r.aserver_id;
  round = r.round;
}

-- The entry after an acceptance or a success of `r`.
abbrev pub accepted_entry : Request → LogEntry → LogEntry
accepted_entry r e = record e { a_server_id = r.pserver_id; op = r.op; accepted_value = r.value }

-- An acceptance that is read in time always succeeds, echoes the request, and overwrites the entry
-- of its key and round, whatever was accepted there; one that is too late is given up
-- and changes no entry. Other
-- entries, the store, the leader and the member list stay.
pub accept_lem :
    (c : Bool) (r : Request) (p : Process)
    → ((accept c r p).0 ≡ (
        if c
        then record { status = give_up; response = empty_response }
        else record { status = ok; response = echo r }))
      × ((k : String) (n : ℤ)
          → entry k n (accept c r p).1.pax_log ≡ (
              if not c && same_slot r.key r.round k n
              then accepted_entry r (entry r.key r.round p.pax_log)
              else entry k n p.pax_log))
      × SameState p (accept c r p).1
accept_lem true r p =
    unfold accept in (refl, (λ k n. rw pax_log-count_incoming refl), count_incoming-SameState _ p)
accept_lem false r p =
    let same : SameState p (count_incoming "ConsensusRPC::accept" p) =
      count_incoming-SameState _ p in
    unfold accept in
    (
      refl,
      (λ k n. simp (entry-set_log_accept, entry-get_log_entry, pax_log-count_incoming)),
      record { leader = same.leader; kv_store = same.kv_store; member_list = same.member_list },
    )

-- The log of `success`, as its loop reads it.
abbrev pub success_log : Request → Process → Log
success_log r p = set_log_accept r.key r.round r.pserver_id r.op r.value p.pax_log

-- A success that is read in time overwrites the entry, also where it is refused.
pub entry-success :
    (c : Bool) (r : Request) (p : Process) (k : String) (n : ℤ)
    → entry k n (success c r p).1.pax_log ≡ (
        if not c && same_slot r.key r.round k n
        then accepted_entry r (entry r.key r.round p.pax_log)
        else entry k n p.pax_log)
unfolding success
entry-success c r p k n =
    let name : String = "ConsensusRPC::success" in
    let logged : (count_incoming name p).pax_log ≡ p.pax_log = pax_log-count_incoming name p in
    ground (
      arith,
      logged,
      entry-get_log_key r.key r.round k n (success_log r p),
      entry-set_log_accept r.key r.round k n r.pserver_id r.op r.value p.pax_log,
    )

-- A success with an `int` round that is read in time records its value in the log, also where it
-- is refused. It is refused as outdated exactly when the key has a larger round, and then the
-- store and the leader stay; otherwise it sets the leader, if its key is "leader", or the key's
-- value in the store, and nothing else of the two.
pub success_lem :
    (r : Request) (p : Process)
    → ltb_ℤ r.round int_min ≡ false
    → let late : Bool = above r.round (get_or r.key [] (success_log r p)) in
      ((success false r p).0 ≡ record { status = if late then outdated else ok; response = tt })
      × ((k : String) (n : ℤ)
          → entry k n (success false r p).1.pax_log ≡ (
              if same_slot r.key r.round k n
              then accepted_entry r (entry r.key r.round p.pax_log)
              else entry k n p.pax_log))
      × ((success false r p).1.leader
          ≡ (if not late && str_eq r.key "leader" then r.value else p.leader))
      × ((success false r p).1.kv_store ≡ (
          if not late && not (str_eq r.key "leader")
          then set_kv r.key r.value p.kv_store
          else p.kv_store))
success_lem r p h =
    let n : String = "ConsensusRPC::success" in
    let same : SameState p (count_incoming n p) = count_incoming-SameState n p in
    let logged : (count_incoming n p).pax_log ≡ p.pax_log = pax_log-count_incoming n p in
    let read = read-get_log_key r.key r.round (success_log r p) in
    let top = largest_round-above r.round (get_or r.key [] (success_log r p)) h in
    unfold success in
    (
      ground (arith, logged, read, top),
      entry-success false r p,
      ground (arith, logged, read, top, same.leader),
      ground (arith, logged, read, top, same.kv_store),
    )
