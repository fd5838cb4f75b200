-- ===== src/Tests/Handlers.antt =====
-- One handler at a time, on processes with something in their logs.
use cs739_p2_replicated_data.Base.{
  String, ◌≡◌, refl, Bool, false, not, ◌&&◌, ◌⊎◌, true, [], ◌∷◌, str_eq, if◌then◌else◌,
}
use cs739_p2_replicated_data.Base.Int.{ℤ, pos, ltb_ℤ}
use cs739_p2_replicated_data.Base.Lists.{In}
use cs739_p2_replicated_data.Map.{get_or, lookup, keys, string_key, int_key}
use cs739_p2_replicated_data.Proto.{Request, empty_request, empty_entry, ok, set_op}
use cs739_p2_replicated_data.Log.{Log, entry, find_max_proposal}
use cs739_p2_replicated_data.Log.Laws.{same_slot}
use cs739_p2_replicated_data.Log.Rounds.{above, find_max_proposal-cases}
use cs739_p2_replicated_data.Database.{set_kv}
use cs739_p2_replicated_data.Process.{Process}
use cs739_p2_replicated_data.ConsensusRpc.{propose, accept, success, proposal_reply, outdated}
use cs739_p2_replicated_data.ConsensusRpc.Effects.{
  SameState, echo, accepted_entry, success_log, propose_lem, accept_lem, success_lem,
}
use cs739_p2_replicated_data.Tests.{addr_1, voted}

abbrev acceptor : Process
acceptor = voted addr_1

abbrev late_request : Request
late_request = record empty_request {
  key = "k";
  value = "u";
  pserver_id = pos 1;
  round = pos 0;
  op = set_op;
}

propose_lem_example :
    ((propose false late_request acceptor).0
      ≡ proposal_reply late_request (entry "k" (pos 0) acceptor.pax_log))
    × ((k : String) (n : ℤ)
        → entry k n (propose false late_request acceptor).1.pax_log ≡ entry k n acceptor.pax_log)
    × SameState acceptor (propose false late_request acceptor).1
propose_lem_example = propose_lem false late_request acceptor

accept_lem_example :
    ((accept false late_request acceptor).0 ≡ record { status = ok; response = echo late_request })
    × ((k : String) (n : ℤ)
        → entry k n (accept false late_request acceptor).1.pax_log ≡ (
            if same_slot "k" (pos 0) k n
            then accepted_entry late_request (entry "k" (pos 0) acceptor.pax_log)
            else entry k n acceptor.pax_log))
    × SameState acceptor (accept false late_request acceptor).1
accept_lem_example = accept_lem false late_request acceptor

success_lem_example :
    let late : Bool = above (pos 0) (get_or "k" [] (success_log late_request acceptor)) in
    ((success false late_request acceptor).0
      ≡ record { status = if late then outdated else ok; response = tt })
    × ((k : String) (n : ℤ)
        → entry k n (success false late_request acceptor).1.pax_log ≡ (
            if same_slot "k" (pos 0) k n
            then accepted_entry late_request (entry "k" (pos 0) acceptor.pax_log)
            else entry k n acceptor.pax_log))
    × ((success false late_request acceptor).1.leader
        ≡ (if not late && str_eq "k" "leader" then "u" else acceptor.leader))
    × ((success false late_request acceptor).1.kv_store ≡ (
        if not late && not (str_eq "k" "leader")
        then set_kv "k" "u" acceptor.kv_store
        else acceptor.kv_store))
success_lem_example = success_lem late_request acceptor refl

-- The rounds 0, 2 and 5 of one key.
abbrev three_rounds : Log
three_rounds =
    (
      "k",
      (pos 0, empty_entry)
          ∷ (pos 2, empty_entry)
          ∷ (pos 5, record empty_entry { op = set_op; accepted_value = "u" })
          ∷ [],
    )
    ∷ []

find_max_proposal-cases_example :
    ((above (pos 1) (get_or "k" [] three_rounds) ≡ false)
      × (find_max_proposal "k" (pos 1) three_rounds ≡ ("", pos 0)))
    ⊎ ((r : ℤ) × In r (keys (get_or "k" [] three_rounds))
        × (ltb_ℤ (pos 1) r ≡ true)
        × (above r (get_or "k" [] three_rounds) ≡ false)
        × (find_max_proposal "k" (pos 1) three_rounds
            ≡ ((entry "k" r three_rounds).accepted_value, r)))
find_max_proposal-cases_example = find_max_proposal-cases "k" (pos 1) three_rounds

found_largest : find_max_proposal "k" (pos 1) three_rounds ≡ ("u", pos 5)
unfolding find_max_proposal get_or entry lookup
found_largest = refl
