-- ===== src/Attempt/Leads.antt =====
-- A process whose log is ahead of all others: for each key it has the rounds 0, 1, and so on, and
-- no process has a round beyond. Its next round is then free, and attempts that commit keep this
-- so.
pub mod Keeps
use cs739_p2_replicated_data.Base.{
  ℕ, suc, ◌+◌, ◌*◌, ◌≤◌, ◌<◌, String, ◌≡◌, ◌≢◌, refl, sym, ap, ◌∙◌, Bool, true, false, none, inl,
  inr, arith, List, [], ◌∷◌, str_eq, eq_iff, eq_refl, Bool-cases, if◌then◌else◌,
}
use mathlib.Core.Path.{subst}
use cs739_p2_replicated_data.Base.Int.{ℤ, pos, to_int32_small}
use cs739_p2_replicated_data.Base.Lists.{length, In, IsDistinct}
use cs739_p2_replicated_data.Map.{lookup, modify, get_or, size, int_key, string_key}
use cs739_p2_replicated_data.Map.Laws.{get_or-missing}
use cs739_p2_replicated_data.Proto.{Operation, Request, Reply, Response, LogEntry, empty_entry}
use cs739_p2_replicated_data.Log.{Rounds, Log, entry}
use cs739_p2_replicated_data.Log.Latest.{rounds, rounds-modify_entry}
use cs739_p2_replicated_data.Log.Rounds.{above, RunsFrom}
use cs739_p2_replicated_data.Log.Below.{
  Below, Below-suc, Below-lookup, Below-above, Below-modify, modify-ne-none, modify-ne-none_self,
  RunsTo, RunsTo-modify, RunsTo-end,
}
use cs739_p2_replicated_data.Log.{set_log_accept, get_log_key}
use cs739_p2_replicated_data.Process.{Process, count_incoming}
use cs739_p2_replicated_data.ConsensusRpc.{success}
use cs739_p2_replicated_data.World.{World, count_call}
use cs739_p2_replicated_data.World.Laws.{update_self}
use cs739_p2_replicated_data.Call.{call_success}
use cs739_p2_replicated_data.Attempt.{broadcast, success_all, success_phase}
use cs739_p2_replicated_data.Attempt.Loops.{broadcast_inv, Rel-call_success}
use cs739_p2_replicated_data.Attempt.Partition.{stub-up}
use cs739_p2_replicated_data.World.Laws.{Rel}
use cs739_p2_replicated_data.Attempt.{Network, next_round}
use cs739_p2_replicated_data.Attempt.Stages.{members_of, replicas, round_of, result}
use cs739_p2_replicated_data.Attempt.Partition.{partition, reachable, IsFree}
use cs739_p2_replicated_data.Attempt.Liveness.{CanCommit}
use cs739_p2_replicated_data.Attempt.Growth.{
  OnRounds, Growth, Growth-Frame, rounds-get_log_key, success-Growth, attempt-Growth,
}

abbrev pub rounds_at : String → String → World → Rounds
rounds_at key a w = rounds key (w a).pax_log

-- `lead` has the rounds 0, 1, and so on of every key, and nobody has a round that it has not.
pub record Leads (lead : String) (w : World) : Type 0 where
  pub run : (key : String) → RunsFrom 0 (rounds_at key lead w)
  pub ahead : (key a : String) → Below (size (rounds_at key lead w)) (rounds_at key a w)

entry-IsFree :
    (key : String) (n : ℕ) (log : Log) → Below n (rounds key log) → IsFree (entry key (pos n) log)
unfolding entry
entry-IsFree key n log h =
    rw (get_or-missing (pos n) empty_entry (rounds key log) (Below-lookup n (rounds key log) h))
      (refl, refl)

pub next_round_small :
    (self key : String) (w : World)
    → size (rounds_at key self w) < 2147483648
    → next_round self key w ≡ pos (size (rounds_at key self w))
unfolding next_round
next_round_small self key w h = to_int32_small _ h

-- A leader in this sense can commit wherever half of the members are up, itself among them.
pub Leads-CanCommit :
    (up : String → Bool) (lead : String) (r : Request) (w : World)
    → Leads lead w
    → size (rounds_at r.key lead w) < 2147483648
    → IsDistinct (members_of lead (partition up) r w)
    → In lead (members_of lead (partition up) r w)
    → up lead ≡ true
    → replicas lead (partition up) r w
      ≤ 2 * length (reachable up (members_of lead (partition up) r w))
    → CanCommit up lead r w
Leads-CanCommit up lead r w leads small distinct m t half =
    let n = next_round_small lead r.key w small in
    record {
      distinct = distinct;
      is_member = m;
      is_up = t;
      half_up = half;
      free = λ a k. rw n (entry-IsFree r.key _ (w a).pax_log (leads.ahead r.key a));
      latest = λ a k. rw n (Below-above _ (rounds_at r.key a w) (leads.ahead r.key a));
    }

-- Who has the same logs leads them.
pub Leads-same :
    (lead : String) (w w' : World)
    → ((a : String) → (w' a).pax_log ≡ (w a).pax_log)
    → Leads lead w
    → Leads lead w'
Leads-same lead w w' same leads = record {
  run = λ key. rw (same lead) (leads.run key);
  ahead = λ key a. rw (same lead, same a) (leads.ahead key a);
}
