-- ===== src/Attempt/Above.antt =====
-- An attempt makes no round of its key above its own.
use cs739_p2_replicated_data.Base.{String, ◌≡◌, refl, ◌∙◌, Bool, true, false}
use cs739_p2_replicated_data.Base.Int.{ℤ}
use cs739_p2_replicated_data.Proto.{Request}
use cs739_p2_replicated_data.Log.Latest.{
  rounds, above-set_log, above-get_log_entry, above-set_log_accept,
}
use cs739_p2_replicated_data.Log.Rounds.{above}
use cs739_p2_replicated_data.Process.{Process}
use cs739_p2_replicated_data.ConsensusRpc.{propose, accept, ping}
use cs739_p2_replicated_data.ConsensusRpc.Effects.{pax_log-count_incoming, pax_log-count_outgoing}
use cs739_p2_replicated_data.World.Laws.{Frame}

-- The key's rounds above `n` are as many, none or some, as before.
abbrev pub SameAbove : String → ℤ → Process → Process → Type 0
SameAbove key n p p' = above n (rounds key p'.pax_log) ≡ above n (rounds key p.pax_log)

pub SameAbove-Frame : (key : String) (n : ℤ) → Frame (SameAbove key n)
SameAbove-Frame key n = record {
  same = λ p. refl;
  chain = λ p q s h k. k ∙ h;
  counted = λ name p. rw (pax_log-count_outgoing name p);
}

pub ping-SameAbove :
    (key : String) (n : ℤ) (c : Bool) (p : Process) → SameAbove key n p (ping c p).1
unfolding ping
ping-SameAbove key n c p = rw (pax_log-count_incoming _ p)

pub propose-SameAbove :
    (r : Request) (c : Bool) (p : Process) → SameAbove r.key r.round p (propose c r p).1
unfolding propose
propose-SameAbove r true p = rw (pax_log-count_incoming _ p)
propose-SameAbove r false p = rw (above-get_log_entry, above-set_log, pax_log-count_incoming _ p)

pub accept-SameAbove :
    (r : Request) (c : Bool) (p : Process) → SameAbove r.key r.round p (accept c r p).1
unfolding accept
accept-SameAbove r true p = rw (pax_log-count_incoming _ p)
accept-SameAbove r false p =
    rw (above-set_log_accept, above-get_log_entry, pax_log-count_incoming _ p)
