-- ===== src/Tests/Attempts.antt =====
-- Attempts on small clusters.
use cs739_p2_replicated_data.Base.{String, ◌≡◌, refl, ◌⊎◌, inl, inr, arith, true, false, [], ◌∷◌}
use cs739_p2_replicated_data.Base.Int.{pos, to_int32}
use cs739_p2_replicated_data.Base.Lists.{In}
use cs739_p2_replicated_data.Map.{lookup, insert, modify, get_or, keys, string_key, int_key}
use cs739_p2_replicated_data.Proto.{is_ok}
use cs739_p2_replicated_data.Log.{
  modify_entry, entry, set_log, set_log_accept, get_log_entry, get_log_key, largest_round,
}
use cs739_p2_replicated_data.Database.{set_kv}
use cs739_p2_replicated_data.Process.{count_incoming, count_outgoing, increment}
use cs739_p2_replicated_data.ConsensusRpc.{propose, accept, success, ping}
use cs739_p2_replicated_data.World.{step, deliver, stub, steps, count_call}
use cs739_p2_replicated_data.Call.{call_ping, call_propose, call_accept, call_success}
use cs739_p2_replicated_data.Attempt.{
  broadcast, lacks_quorum, next_round, ping_all, propose_all, accept_all, success_all,
  propose_stage, accept_stage, success_stage, attempt_consensus,
}
use cs739_p2_replicated_data.Base.{not, str_eq}
use cs739_p2_replicated_data.Base.Lists.{All}
use cs739_p2_replicated_data.Attempt.History.{Turn, history, Decided, history_agreement}
use cs739_p2_replicated_data.Attempt.Chosen.{Chosen, attempt-Chosen}
use cs739_p2_replicated_data.Attempt.Agreement.{Unanimous, attempt_agreement, attempt_validity}
use cs739_p2_replicated_data.Attempt.Values.{HasValue}
use cs739_p2_replicated_data.Attempt.Liveness.{attempt_commits}
use cs739_p2_replicated_data.Attempt.Partition.{partition}
use cs739_p2_replicated_data.Attempt.Inform.{Applied}
use cs739_p2_replicated_data.Attempt.Abort.{abort_applies_nothing}
use cs739_p2_replicated_data.Attempt.Quorum.{quorum_overlap, halves_pass}
use cs739_p2_replicated_data.ConsensusRpc.Effects.{SameState}
use cs739_p2_replicated_data.Tests.{
  can_commit, two_up, one_up, fresh, pair-IsDistinct, addr_0, addr_1, addr_2, members,
  members-IsDistinct, voted, reliable, set_k,
}

voted-Chosen : Chosen members "k" (pos 0) "v" voted
unfolding entry lookup get_or
voted-Chosen = record {
  voters = addr_1 ∷ addr_2 ∷ [];
  distinct = members-IsDistinct.1;
  are_members = λ a m. inr m;
  half = omega arith;
  voted = ((refl, refl), ((refl, refl), tt));
}

voted-Unanimous : Unanimous "k" (pos 0) "v" voted
unfolding entry lookup get_or
voted-Unanimous a h = ground arith

ok_v : is_ok (attempt_consensus addr_0 reliable (set_k "u") voted).0.status ≡ true
unfolding attempt_consensus lacks_quorum ping_all broadcast keys call_ping stub ping propose_all
    call_propose propose get_log_entry get_or set_log modify count_incoming count_call next_round
    accept_all accept_stage propose_stage success_all success_stage to_int32 call_accept
    call_success accept success set_kv entry get_log_key largest_round modify_entry set_log_accept
    insert lookup count_outgoing increment deliver step steps
ok_v = refl

attempt_agreement_example :
    (attempt_consensus addr_0 reliable (set_k "u") voted).0.response.value ≡ "v"
unfolding next_round to_int32 keys get_or
attempt_agreement_example =
    attempt_agreement addr_0 reliable (set_k "u") voted members-IsDistinct (λ phase a. tt) "v" refl
      voted-Chosen voted-Unanimous ok_v

attempt-Chosen_example :
    Chosen members "k"
      (pos 0)
      (attempt_consensus addr_0 reliable (set_k "u") voted).0.response.value
      (attempt_consensus addr_0 reliable (set_k "u") voted).1
unfolding next_round to_int32 keys get_or
attempt-Chosen_example =
    attempt-Chosen addr_0 reliable (set_k "u") voted (omega arith) members-IsDistinct
      (λ phase a. tt) ok_v

attempt_validity_example :
    ((attempt_consensus addr_0 reliable (set_k "u") voted).0.response.value ≡ "u")
    ⊎ ((a : String) × In a members
        × HasValue
            (attempt_consensus addr_0 reliable (set_k "u") voted).0.response.value
            (entry "k" (pos 0) (voted a).pax_log))
unfolding next_round to_int32 keys get_or
attempt_validity_example =
    attempt_validity addr_0 reliable (set_k "u") voted members-IsDistinct (λ phase a. tt)
      (omega arith) ok_v

attempt_commits_example :
    (is_ok (attempt_consensus addr_0 (partition two_up) (set_k "u") fresh).0.status ≡ true)
    × ((attempt_consensus addr_0 (partition two_up) (set_k "u") fresh).0.response.value ≡ "u")
    × All
        (λ a.
          Applied
            (set_k "u")
            (fresh a)
            ((attempt_consensus addr_0 (partition two_up) (set_k "u") fresh).1 a))
        (addr_0 ∷ addr_1 ∷ [])
unfolding keys
attempt_commits_example = attempt_commits two_up addr_0 (set_k "u") fresh (can_commit (set_k "u"))

decided : Decided members "k" (pos 0) "v" refl members-IsDistinct voted
unfolding keys
decided = record {
  members_known = λ a. ground arith;
  chosen = voted-Chosen;
  only = voted-Unanimous;
}

-- The others set the key in the next round, out of reach of the first process.
abbrev pub next : Turn
next = record { self = addr_1; net = partition (λ a. not (str_eq a addr_0)); request = set_k "x" }

abbrev pub late : Turn
late = record { self = addr_0; net = reliable; request = set_k "u" }

late_round : next_round addr_0 "k" (history (next ∷ []) voted) ≡ pos 0
unfolding attempt_consensus lacks_quorum ping_all broadcast keys call_ping stub ping propose_all
    call_propose propose get_log_entry get_or set_log modify count_incoming count_call next_round
    accept_all accept_stage propose_stage success_all success_stage to_int32 call_accept
    call_success accept success set_kv entry get_log_key largest_round modify_entry set_log_accept
    insert lookup count_outgoing increment deliver step steps history
late_round = refl

late_ok :
    is_ok (attempt_consensus addr_0 reliable (set_k "u") (history (next ∷ []) voted)).0.status
    ≡ true
unfolding attempt_consensus lacks_quorum ping_all broadcast keys call_ping stub ping propose_all
    call_propose propose get_log_entry get_or set_log modify count_incoming count_call next_round
    accept_all accept_stage propose_stage success_all success_stage to_int32 call_accept
    call_success accept success set_kv entry get_log_key largest_round modify_entry set_log_accept
    insert lookup count_outgoing increment deliver step steps history
late_ok = refl

history_agreement_example :
    ((attempt_consensus addr_0 reliable (set_k "u") (history (next ∷ []) voted)).0.response.value
      ≡ "v")
    × Decided members "k"
        (pos 0)
        "v"
        refl
        members-IsDistinct
        (attempt_consensus addr_0 reliable (set_k "u") (history (next ∷ []) voted)).1
history_agreement_example =
    history_agreement members "k" (pos 0) "v" refl members-IsDistinct (next ∷ []) voted late
      ((λ phase a. tt), tt) (λ phase a. tt) decided refl late_round late_ok

fails : is_ok (attempt_consensus addr_0 (partition one_up) (set_k "u") fresh).0.status ≡ false
unfolding attempt_consensus lacks_quorum ping_all broadcast keys call_ping stub ping propose_all
    call_propose propose get_log_entry get_or set_log modify count_incoming count_call next_round
    accept_all accept_stage propose_stage success_all success_stage to_int32 call_accept
    call_success accept success set_kv entry get_log_key largest_round modify_entry set_log_accept
    insert lookup count_outgoing increment deliver step steps
fails = refl

abort_applies_nothing_example :
    SameState
      (fresh addr_2)
      ((attempt_consensus addr_0 (partition one_up) (set_k "u") fresh).1 addr_2)
abort_applies_nothing_example =
    abort_applies_nothing addr_0 (partition one_up) (set_k "u") fresh (λ phase a. tt) fails addr_2

quorum_overlap_example : (a : String) × In a (addr_1 ∷ addr_2 ∷ []) × In a (addr_0 ∷ addr_1 ∷ [])
unfolding lacks_quorum
quorum_overlap_example =
    quorum_overlap members (addr_1 ∷ addr_2 ∷ []) (addr_0 ∷ addr_1 ∷ []) refl members-IsDistinct.1
      pair-IsDistinct (λ a m. inr m)
      (λ a m. elim m [ inl e ↦ inl e | inr n ↦ elim n [ inl e ↦ inr (inl e) | inr x ↦ absurd x ] ])
      refl refl

halves_pass_example : (lacks_quorum 4 2 ≡ false) × (lacks_quorum 4 2 ≡ false)
halves_pass_example = halves_pass (addr_0 ∷ addr_1 ∷ []) (addr_2 ∷ "127.0.1.1:8003" ∷ []) refl
