-- ===== src/Tests/Interleaved.antt =====
-- Handler threads of one process whose steps interleave.
use cs739_p2_replicated_data.Base.{
  ℕ, String, ◌≡◌, refl, false, List, [], ◌∷◌, some, inl, inr, nat_eq, if◌then◌else◌,
}
use cs739_p2_replicated_data.Base.Int.{pos}
use cs739_p2_replicated_data.Map.{lookup, get_or, string_key}
use cs739_p2_replicated_data.Proto.{Request, empty_request, ok}
use cs739_p2_replicated_data.Log.{largest_round, get_log_key, set_log_accept}
use cs739_p2_replicated_data.Process.{Process}
use cs739_p2_replicated_data.ConsensusRpc.{propose, success}
use cs739_p2_replicated_data.ConsensusRpc.Converge.{successes, successes_converge}
use cs739_p2_replicated_data.World.{steps}
use cs739_p2_replicated_data.Threads.{
  propose_start, accept_start, success_start, answered, informed, advance, System, turn, run,
}
use cs739_p2_replicated_data.Threads.Agrees.{Agrees}
use cs739_p2_replicated_data.Threads.Coarse.{trace, run-Agrees, proposal_reply-run}
use cs739_p2_replicated_data.Threads.Race.{informing, overtaken, overtaken-stores_older}
use cs739_p2_replicated_data.Tests.{addr_1, addr_2, fresh, voted}

abbrev in_round : ℕ → String → Request
in_round n v = record empty_request { key = "k"; value = v; pserver_id = pos 1; round = pos n }

-- A proposal, an acceptance, and successes of two rounds, at a process that has accepted "v".
abbrev four_threads : System
four_threads = record {
  process = voted addr_1;
  thread = λ i.
      if nat_eq i 0
      then propose_start false (in_round 1 "a")
      else if nat_eq i 1
      then accept_start false (in_round 1 "b")
      else success_start false (in_round i "c");
}

abbrev mixed : List ℕ
mixed = 0 ∷ 1 ∷ 2 ∷ 0 ∷ 2 ∷ 1 ∷ 3 ∷ 1 ∷ 2 ∷ 3 ∷ 3 ∷ 2 ∷ 3 ∷ []

start_Agrees : Agrees (voted addr_1) (voted addr_1)
start_Agrees = record {
  rounds = λ k. refl;
  state = record { leader = refl; kv_store = refl; member_list = refl };
}

run-Agrees_example :
    Agrees (run mixed four_threads).process (steps (trace addr_1 mixed four_threads) voted addr_1)
run-Agrees_example = run-Agrees addr_1 mixed four_threads voted start_Agrees

-- Thread 0 has still to read what thread 1 has accepted since its write.
proposal_reply-run_example :
    (turn 0 (run mixed four_threads)).thread 0
    ≡ answered
        (propose false (in_round 1 "a") (steps (trace addr_1 mixed four_threads) voted addr_1)).0
unfolding run turn advance largest_round get_log_key set_log_accept
proposal_reply-run_example =
    proposal_reply-run addr_1 mixed four_threads voted 0 (in_round 1 "a") start_Agrees refl

overtaken-stores_older_example :
    let s : System = run overtaken (informing (in_round 1 "x") (in_round 2 "y") (voted addr_1)) in
    let p : Process = voted addr_1 in
    (lookup "k" (success false (in_round 2 "y") (success false (in_round 1 "x") p).1).1.kv_store
      ≡ some "y")
    × (lookup "k" (success false (in_round 1 "x") (success false (in_round 2 "y") p).1).1.kv_store
        ≡ some "y")
    × (s.thread 0 ≡ informed (record { status = ok; response = tt }))
    × (s.thread 1 ≡ informed (record { status = ok; response = tt }))
    × (lookup "k" s.process.kv_store ≡ some "x")
unfolding get_or
overtaken-stores_older_example =
    overtaken-stores_older (in_round 1 "x") (in_round 2 "y") (voted addr_1) refl refl refl refl refl

-- The newest success, one for an older round, and one for another key, in two orders.
successes_converge_example :
    let r : Request = in_round 3 "z" in
    let old : Request = in_round 1 "x" in
    let other : Request = record (in_round 9 "o") { key = "j" } in
    (lookup "k" (successes (other ∷ r ∷ old ∷ []) (voted addr_1)).kv_store ≡ some "z")
    × (lookup "k" (successes (old ∷ r ∷ other ∷ []) (fresh addr_2)).kv_store ≡ some "z")
unfolding get_or
successes_converge_example =
    let old : Request = in_round 1 "x" in
    let other : Request = record (in_round 9 "o") { key = "j" } in
    successes_converge (in_round 3 "z") (other ∷ []) (old ∷ []) (old ∷ []) (other ∷ [])
      (voted addr_1) (fresh addr_2) refl refl refl refl (inl refl, tt) (inr (refl, refl, refl), tt)
      (inr (refl, refl, refl), tt) (inl refl, tt)
