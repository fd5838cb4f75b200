-- ===== src/Attempt/Growth.antt =====
-- What the handlers and an attempt do to the rounds of one key.
use cs739_p2_replicated_data.Base.{
  ◌<◌, String, ◌≡◌, Bool, true, false, inl, inr, arith, [], str_eq, eq_iff, Bool-cases,
}
use cs739_p2_replicated_data.Base.Int.{ℤ}
use cs739_p2_replicated_data.Map.{modify, string_key, int_key}
use cs739_p2_replicated_data.Map.Laws.{get_or-modify}
use cs739_p2_replicated_data.Proto.{Request, LogEntry, empty_entry, Operation}
use cs739_p2_replicated_data.Log.{
  Rounds, Log, modify_entry, set_log, set_log_accept, get_log_entry, get_log_key,
}
use cs739_p2_replicated_data.Log.Latest.{rounds, rounds-modify_entry}
use cs739_p2_replicated_data.Process.{Process}
use cs739_p2_replicated_data.ConsensusRpc.{propose, accept, success, ping}
use cs739_p2_replicated_data.ConsensusRpc.Effects.{pax_log-count_incoming, pax_log-count_outgoing}
use cs739_p2_replicated_data.World.{World}
use cs739_p2_replicated_data.World.Laws.{Frame, Rel, Calm}
use cs739_p2_replicated_data.Attempt.{Network, Phase}
use cs739_p2_replicated_data.Attempt.Stages.{replicas, round_of, result}
use cs739_p2_replicated_data.Attempt.Chosen.{committed-echo}
use cs739_p2_replicated_data.Attempt.Whole.{attempt-Rel}

-- A relation between the rounds of the key before and after.
abbrev pub OnRounds : String → (Rounds → Rounds → Type 0) → Process → Process → Type 0
OnRounds key R p q = R (rounds key p.pax_log) (rounds key q.pax_log)

-- A relation that holds after each write to a round of which `W` holds.
pub record Growth (W : ℤ → Type 0) (R : Rounds → Rounds → Type 0) : Type 0 where
  pub same : (m : Rounds) → R m m
  pub chain : (l m k : Rounds) → R l m → R m k → R l k
  pub write :
      (round : ℤ)
      → W round
      → (f : LogEntry → LogEntry) (m : Rounds) → R m (modify round empty_entry f m)

pub rounds-get_log_key :
    (key k : String) (log : Log) → rounds key (get_log_key k log).1 ≡ rounds key log
unfolding get_log_key
rounds-get_log_key key k log =
    ground (arith, get_or-modify k key [] [] (λ (m : Rounds). m) log, eq_iff k key)

module _ (key : String) {W : ℤ → Type 0} {R : Rounds → Rounds → Type 0} (g : Growth W R) where
  pub Growth-Frame : Frame (OnRounds key R)
  Growth-Frame = record {
    same = λ p. g.same _;
    chain = λ p q s. g.chain _ _ _;
    counted = λ name p. rw (pax_log-count_outgoing name p) (g.same _);
  }

  pub ping-Growth : (c : Bool) (p : Process) → OnRounds key R p (ping c p).1
  unfolding ping
  ping-Growth c p = rw (pax_log-count_incoming _ p) (g.same _)

  -- The writes to `k` and `round`, which are allowed if `k` is the key.
  module _ (k : String) (round : ℤ) (here : str_eq k key ≡ true → W round) where
    Growth-modify_entry :
        (f : LogEntry → LogEntry) (log : Log)
        → R (rounds key log) (rounds key (modify_entry k round f log))
    Growth-modify_entry f log = elim (Bool-cases (str_eq k key)) [
      | inl t ↦
          rw (rounds-modify_entry k key round f log, t)
            (rw ((eq_iff k key).0 t) (g.write round (here t) f (rounds key log)))
      | inr x ↦ rw (rounds-modify_entry k key round f log, x) (g.same _)
    ]

    Growth-set_log : (log : Log) → R (rounds key log) (rounds key (set_log k round log))
    unfolding set_log
    Growth-set_log log = Growth-modify_entry _ log

    Growth-get_log_entry :
        (log : Log) → R (rounds key log) (rounds key (get_log_entry k round log).1)
    unfolding get_log_entry
    Growth-get_log_entry log = Growth-modify_entry _ log

    Growth-set_log_accept :
        (i : ℤ) (op : Operation) (v : String) (log : Log)
        → R (rounds key log) (rounds key (set_log_accept k round i op v log))
    unfolding set_log_accept
    Growth-set_log_accept i op v log =
        g.chain _ _ _ (Growth-modify_entry _ log)
          (g.chain _ _ _ (Growth-modify_entry _ _) (Growth-modify_entry _ _))

  module _ (r : Request) (here : str_eq r.key key ≡ true → W r.round) where
    pub propose-Growth : (c : Bool) (p : Process) → OnRounds key R p (propose c r p).1
    unfolding propose
    propose-Growth true p = rw (pax_log-count_incoming _ p) (g.same _)
    propose-Growth false p = rw (pax_log-count_incoming "ConsensusRPC::propose" p) (
        g.chain _ _ _ (Growth-set_log r.key r.round here p.pax_log)
          (Growth-get_log_entry r.key r.round here _))

    pub accept-Growth : (c : Bool) (p : Process) → OnRounds key R p (accept c r p).1
    unfolding accept
    accept-Growth true p = rw (pax_log-count_incoming _ p) (g.same _)
    accept-Growth false p = rw (pax_log-count_incoming "ConsensusRPC::accept" p) (
        g.chain _ _ _ (Growth-get_log_entry r.key r.round here p.pax_log)
          (Growth-set_log_accept r.key r.round here r.pserver_id r.op r.value _))

    success_log-Growth :
        (p : Process)
        → R (rounds key p.pax_log) (
            rounds key
              (get_log_key r.key
                (set_log_accept r.key r.round r.pserver_id r.op r.value p.pax_log)).1)
    success_log-Growth p =
        rw (rounds-get_log_key)
          (Growth-set_log_accept r.key r.round here r.pserver_id r.op r.value p.pax_log)

    pub success-Growth : (c : Bool) (p : Process) → OnRounds key R p (success c r p).1
    unfolding success
    success-Growth true p = rw (pax_log-count_incoming _ p) (g.same _)
    success-Growth false p =
        ground (arith, pax_log-count_incoming "ConsensusRPC::success" p, success_log-Growth p)

  -- An attempt in a round of which `W` holds, or for another key.
  pub attempt-Growth :
      (self : String) (net : Network) (r : Request) (w : World)
      → ((phase : Phase) (a : String) → Calm (OnRounds key R) (net phase a))
      → 0 < replicas self net r w
      → (str_eq r.key key ≡ true → W (round_of self net r w))
      → Rel (OnRounds key R) w (result self net r w).1
  attempt-Growth self net r w calm some_member here =
      attempt-Rel Growth-Frame self net r w calm ping-Growth (propose-Growth _ here)
        (λ _. accept-Growth _ here)
        (λ c. success-Growth _ (rw (committed-echo self net r w some_member c) here))
