-- ===== src/Attempt/Values.antt =====
-- A value that one key and round has accepted, and the steps that keep it.
use cs739_p2_replicated_data.Base.{String, ◌≡◌, Bool, true}
use cs739_p2_replicated_data.Base.Int.{ℤ, pos, ltb_ℤ}
use cs739_p2_replicated_data.Base.Lists.{All, All-map}
use cs739_p2_replicated_data.Proto.{Request, LogEntry}
use cs739_p2_replicated_data.Log.{entry}
use cs739_p2_replicated_data.Process.{Process}
use cs739_p2_replicated_data.ConsensusRpc.{accept, propose, success, ping}
use cs739_p2_replicated_data.ConsensusRpc.Effects.{accepted_entry}
use cs739_p2_replicated_data.World.{World, Slot}
use cs739_p2_replicated_data.World.Laws.{Frame, Calm}
use cs739_p2_replicated_data.Attempt.Slots.{
  OnEntry, Writes, OnEntry-Frame, accept-OnEntry, success-OnEntry, step-OnEntry, propose-OnEntry,
  ping-OnEntry,
}

-- The slot has accepted `v`.
abbrev pub HasValue : String → LogEntry → Type 0
HasValue v e = (ltb_ℤ (pos 0) e.a_server_id ≡ true) × (e.accepted_value ≡ v)

-- A write of `v` by a proposer whose id counts as accepted.
abbrev pub Gives : String → Request → Type 0
Gives v r = (ltb_ℤ (pos 0) r.pserver_id ≡ true) × (r.value ≡ v)

abbrev pub KeepsValue : String → LogEntry → LogEntry → Type 0
KeepsValue v e f = HasValue v e → HasValue v f

-- `a` has accepted `v` for the key in the round.
abbrev pub Voted : String → ℤ → String → World → String → Type 0
Voted key round v w a = HasValue v (entry key round (w a).pax_log)

module _ (key : String) (round : ℤ) (v : String) where
  abbrev pub Kept : Process → Process → Type 0
  Kept = OnEntry key round (KeepsValue v)

  kept_same : (e : LogEntry) → KeepsValue v e e
  kept_same e h = h

  kept_chain : (e f g : LogEntry) → KeepsValue v e f → KeepsValue v f g → KeepsValue v e g
  kept_chain e f g k l h = l (k h)

  kept_writes : (r : Request) (e : LogEntry) → Gives v r → KeepsValue v e (accepted_entry r e)
  kept_writes r e g _ = g

  pub Kept-Frame : Frame Kept
  Kept-Frame = OnEntry-Frame key round {R = KeepsValue v} kept_same kept_chain

  pub ping-Kept : (c : Bool) (p : Process) → Kept p (ping c p).1
  ping-Kept = ping-OnEntry key round {R = KeepsValue v} kept_same kept_chain

  pub propose-Kept : (r : Request) (c : Bool) (p : Process) → Kept p (propose c r p).1
  propose-Kept = propose-OnEntry key round {R = KeepsValue v} kept_same kept_chain

  pub accept-Kept : (r : Request) → Gives v r → (c : Bool) (p : Process) → Kept p (accept c r p).1
  accept-Kept r g c p =
      accept-OnEntry key round {R = KeepsValue v} kept_same kept_chain kept_writes r c p (λ _. g)

  pub success-Kept : (r : Request) → Gives v r → (c : Bool) (p : Process) → Kept p (success c r p).1
  success-Kept r g c p =
      success-OnEntry key round {R = KeepsValue v} kept_same kept_chain kept_writes r c p (λ _. g)

  -- No other thread writes another value, or a value that does not count, to this key and round.
  abbrev pub Agrees : Slot → Type 0
  Agrees slot = All (Writes key round (Gives v)) slot.others

  pub Agrees-Calm : (slot : Slot) → Agrees slot → Calm Kept slot
  Agrees-Calm slot =
      All-map _ _ slot.others
        (step-OnEntry key round {R = KeepsValue v} kept_same kept_chain kept_writes)
