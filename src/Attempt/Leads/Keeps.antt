-- ===== src/Attempt/Leads/Keeps.antt =====
-- Attempts that commit keep their caller ahead of all logs.
use cs739_p2_replicated_data.Base.{
  ℕ, suc, ◌<◌, String, ◌≡◌, ◌≢◌, refl, ap, ◌∙◌, Bool, true, false, none, inl, inr, arith, List, [],
  ◌∷◌, str_eq, eq_iff, eq_refl, Bool-cases,
}
use mathlib.Core.Path.{subst}
use cs739_p2_replicated_data.Base.Int.{ℤ, pos}
use cs739_p2_replicated_data.Base.Lists.{In, In-length}
use cs739_p2_replicated_data.Map.{lookup, size, int_key, string_key}
use cs739_p2_replicated_data.Proto.{Operation, Request, Reply, Response}
use cs739_p2_replicated_data.Log.{Rounds, Log}
use cs739_p2_replicated_data.Log.Latest.{rounds, rounds-modify_entry}
use cs739_p2_replicated_data.Log.Rounds.{RunsFrom}
use cs739_p2_replicated_data.Log.Below.{
  Below, Below-suc, Below-modify, modify-ne-none, modify-ne-none_self, RunsTo, RunsTo-modify,
  RunsTo-end,
}
use cs739_p2_replicated_data.Log.{set_log_accept, get_log_key}
use cs739_p2_replicated_data.Process.{Process, count_incoming}
use cs739_p2_replicated_data.ConsensusRpc.{success}
use cs739_p2_replicated_data.World.{World, count_call}
use cs739_p2_replicated_data.World.Laws.{update_self}
use cs739_p2_replicated_data.Call.{call_success}
use cs739_p2_replicated_data.Attempt.{broadcast, success_all, success_phase}
use cs739_p2_replicated_data.Attempt.Loops.{broadcast_inv, Rel-call_success}
use cs739_p2_replicated_data.Attempt.Partition.{stub-up}
use cs739_p2_replicated_data.World.Laws.{Rel}
use cs739_p2_replicated_data.Attempt.Stages.{
  members_of, replicas, round_of, voted_on, informed, result,
}
use cs739_p2_replicated_data.Attempt.Partition.{partition}
use cs739_p2_replicated_data.Attempt.Liveness.{CanCommit}
use cs739_p2_replicated_data.Attempt.Growth.{
  OnRounds, Growth, Growth-Frame, rounds-get_log_key, success-Growth, attempt-Growth,
}
use cs739_p2_replicated_data.Attempt.Leads.{Leads, rounds_at, next_round_small}
use cs739_p2_replicated_data.Attempt.Liveness.{last, commits, last_lem}

same_rounds : Growth (λ _. ⊥) (λ m m'. m' ≡ m)
same_rounds = record { same = λ m. refl; chain = λ l m k p q. q ∙ p; write = λ round x. absurd x }

Below-Growth : (n : ℕ) → Growth (λ r. r ≡ pos n) (λ m m'. Below (suc n) m → Below (suc n) m')
Below-Growth n = record {
  same = λ m h. h;
  chain = λ l m k p q h. q (p h);
  write = λ round e f m h. rw e (Below-modify n f m h);
}

RunsTo-Growth : (n : ℕ) → Growth (λ r. r ≡ pos n) (λ m m'. RunsTo 0 n m → RunsTo 0 n m')
RunsTo-Growth n = record {
  same = λ m h. h;
  chain = λ l m k p q h. q (p h);
  write = λ round e f m h. rw e (RunsTo-modify n f m h);
}

pub has_round : (n : ℤ) → Growth (λ r. Unit {0}) (λ m m'. lookup n m ≢ none → lookup n m' ≢ none)
has_round n = record {
  same = λ m h. h;
  chain = λ l m k p q h. q (p h);
  write = λ round _ f m h. modify-ne-none round n f m h;
}

set_log_accept-has :
    (key : String) (n i : ℤ) (op : Operation) (v : String) (log : Log)
    → lookup n (rounds key (set_log_accept key n i op v log)) ≢ none
unfolding set_log_accept
set_log_accept-has key n i op v log =
    rw (rounds-modify_entry key key n _ _, eq_refl key) (modify-ne-none_self n _ (rounds key _))

success-has :
    (r : Request) (p : Process) → lookup r.round (rounds r.key (success false r p).1.pax_log) ≢ none
unfolding success
success-has r p = ground (arith, written)
  where
    log : Log
    log = (count_incoming "ConsensusRPC::success" p).pax_log

    written :
        lookup r.round (
          rounds r.key
            (get_log_key r.key (set_log_accept r.key r.round r.pserver_id r.op r.value log)).1)
        ≢ none
    written =
        rw (rounds-get_log_key r.key r.key)
          (set_log_accept-has r.key r.round r.pserver_id r.op r.value log)

-- A loop that calls `a` reaches what each call of `a` gives and every call keeps.
broadcast-reaches :
    {A S : Type 0} (call : String → World → Reply A × World) (see : S → String → Reply A → S)
    (P : World → Type 0) (a : String)
    → ((u : World) → P (call a u).1)
    → ((b : String) (u : World) → P u → P (call b u).1)
    → (as' : List String) (s : S) (w : World) → In a as'
    → P (broadcast call see as' s w).1
unfolding broadcast
broadcast-reaches call see P a gives keeps [] s w m = absurd m
broadcast-reaches call see P a gives keeps (b ∷ rest) s w (inl e) =
    broadcast_inv call see (λ _ _ u. P u) (λ c rest s u h. keeps c u h) rest (see s b (call b w).0)
      (call b w).1 (rw e (gives w))
broadcast-reaches call see P a gives keeps (b ∷ rest) s w (inr m) =
    broadcast-reaches call see P a gives keeps rest (see s b (call b w).0) (call b w).1 m

success_all-has :
    (up : String → Bool) (self : String) (r : Request) (members : List String) (w : World)
    (a : String)
    → In a members
    → up a ≡ true
    → lookup r.round (rounds_at r.key a (success_all self (partition up) r members w).1) ≢ none
unfolding success_all
success_all-has up self r members w a m t =
    broadcast-reaches (λ b. call_success self (partition up success_phase b) b r) (λ s b x. s)
      (λ u. lookup r.round (rounds_at r.key a u) ≢ none) a reached kept members tt w m
  where
    kept :
        (b : String) (u : World)
        → lookup r.round (rounds_at r.key a u) ≢ none
        → lookup r.round
            (rounds_at r.key a (call_success self (partition up success_phase b) b r u).1)
          ≢ none
    kept b u =
        Rel-call_success (Growth-Frame r.key (has_round r.round)) self (partition up) r (λ c. tt)
          (success-Growth r.key (has_round r.round) r (λ _. tt)) b u a

    reached :
        (u : World)
        → lookup r.round
            (rounds_at r.key a (call_success self (partition up success_phase a) a r u).1)
          ≢ none
    reached u =
        unfold call_success in
        rw
          (
            stub-up up tt (λ c. success c r) success_phase a
                (count_call self "ConsensusRPCWrapperCall::success" u) t,
            update_self (count_call self "ConsensusRPCWrapperCall::success" u) a _,
          )
          (success-has r (count_call self "ConsensusRPCWrapperCall::success" u a))

module _ (up : String → Bool) (lead : String) (r : Request) (w : World) (leads : Leads lead w)
    (small : size (rounds_at r.key lead w) < 2147483648) (can : CanCommit up lead r w) where
  abbrev after : World
  after = (result lead (partition up) r w).1

  abbrev n : ℕ
  n = size (rounds_at r.key lead w)

  here : round_of lead (partition up) r w ≡ pos n
  here = next_round_small lead r.key w small

  some_member : 0 < replicas lead (partition up) r w
  some_member = In-length lead _ can.is_member

  grows :
      (key : String) {W : ℤ → Type 0} {R : Rounds → Rounds → Type 0}
      → Growth W R
      → (str_eq r.key key ≡ true → W (round_of lead (partition up) r w))
      → Rel (OnRounds key R) w after
  grows key g h = attempt-Growth key g lead (partition up) r w (λ phase a. tt) some_member h

  -- The rounds of other keys stay.
  pub other_key :
      (key a : String) → str_eq r.key key ≡ false → rounds_at key a after ≡ rounds_at key a w
  other_key key a f = grows key same_rounds (λ t. cc) a

  has : lookup (pos n) (rounds_at r.key lead after) ≢ none
  has =
      let q : Request = last up lead r w can in
      rw (ap (λ (x : Reply Response × World). x.1) (commits up lead r w can).3) (
        subst (λ k. lookup k (rounds_at r.key lead (informed lead (partition up) r w)) ≢ none)
          (ap (λ (x : Request). x.round) (last_lem up lead r w can) ∙ here)
          (success_all-has up lead q (members_of lead (partition up) r w)
            (voted_on lead (partition up) r w).1 lead can.is_member can.is_up))

  -- The caller has one round more of the key.
  pub this_key :
      RunsFrom 0 (rounds_at r.key lead after) × (size (rounds_at r.key lead after) ≡ suc n)
  this_key =
      RunsTo-end n (rounds_at r.key lead after)
        (grows r.key (RunsTo-Growth n) (λ _. here) lead (leads.run r.key, omega arith, omega arith))
        has

  others-Below : (a : String) → Below (suc n) (rounds_at r.key a after)
  others-Below a = grows r.key (Below-Growth n) (λ _. here) a (Below-suc n _ (leads.ahead r.key a))

  pub attempt-Leads : Leads lead after
  attempt-Leads = record {
    run = λ key. elim (Bool-cases (str_eq r.key key)) [
      | inl t ↦ rw (← (eq_iff r.key key).0 t) this_key.0
      | inr f ↦ rw (other_key key lead f) (leads.run key)
    ];
    ahead = λ key a. elim (Bool-cases (str_eq r.key key)) [
      | inl t ↦ rw (← (eq_iff r.key key).0 t) (rw this_key.1 (others-Below a))
      | inr f ↦ rw (other_key key lead f, other_key key a f) (leads.ahead key a)
    ];
  }
