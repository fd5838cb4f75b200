-- ===== src/Attempt/Slots.antt =====
-- One key and round in the logs of all processes: which steps keep an accepted value there.
use cs739_p2_replicated_data.Base.{
  String, ◌≡◌, Bool, true, false, not, ◌&&◌, arith, eq_iff, if◌then◌else◌, Bool-cases, inl, inr,
}
use cs739_p2_replicated_data.Base.Int.{ℤ, eqb_ℤ_iff}
use cs739_p2_replicated_data.Proto.{Request, LogEntry}
use cs739_p2_replicated_data.Log.{entry}
use cs739_p2_replicated_data.Log.Laws.{same_slot}
use cs739_p2_replicated_data.Process.{Process}
use cs739_p2_replicated_data.ConsensusRpc.{propose, accept, success, ping}
use cs739_p2_replicated_data.ConsensusRpc.Effects.{
  pax_log-count_incoming, pax_log-count_outgoing, propose_lem, accept_lem, entry-success,
  accepted_entry,
}
use cs739_p2_replicated_data.World.{
  Event, propose_at, accept_at, success_at, set_leader_at, set_kv_at, count_incoming_at,
  count_outgoing_at, step,
}
use cs739_p2_replicated_data.World.Laws.{Frame, Allows, Rel-update}

module _ (key : String) (round : ℤ) where
  -- A relation between the slot's entry before and after.
  abbrev pub OnEntry : (LogEntry → LogEntry → Type 0) → Process → Process → Type 0
  OnEntry R p q = R (entry key round p.pax_log) (entry key round q.pax_log)

  -- The writes to this slot are among those of which `P` holds.
  abbrev pub Writes : (Request → Type 0) → Event → Type 0
  Writes P (accept_at a r) = same_slot r.key r.round key round ≡ true → P r
  Writes P (success_at a r) = same_slot r.key r.round key round ≡ true → P r
  Writes P _ = Unit

  module _ {R : LogEntry → LogEntry → Type 0} (same : (e : LogEntry) → R e e)
      (chain : (e f g : LogEntry) → R e f → R f g → R e g) where
    pub OnEntry-Frame : Frame (OnEntry R)
    OnEntry-Frame = record {
      same = λ p. same _;
      chain = λ p q s. chain _ _ _;
      counted = λ n p. rw (pax_log-count_outgoing n p) (same _);
    }

    pub ping-OnEntry : (c : Bool) (p : Process) → OnEntry R p (ping c p).1
    unfolding ping
    ping-OnEntry c p = rw (pax_log-count_incoming _ p) (same _)

    pub propose-OnEntry : (r : Request) (c : Bool) (p : Process) → OnEntry R p (propose c r p).1
    propose-OnEntry r c p = rw ((propose_lem c r p).1 key round) (same _)

    module _ {P : Request → Type 0}
        (writes : (r : Request) (e : LogEntry) → P r → R e (accepted_entry r e)) where
      pub written :
          (r : Request) (c : Bool) (p : Process)
          → (same_slot r.key r.round key round ≡ true → P r)
          → R (entry key round p.pax_log) (
              if not c && same_slot r.key r.round key round
              then accepted_entry r (entry r.key r.round p.pax_log)
              else entry key round p.pax_log)
      written r true p k = same _
      written r false p k = elim (Bool-cases (same_slot r.key r.round key round)) [
        | inl t ↦ rw t (here t)
        | inr f ↦ rw f (same _)
      ]
        where
          slot :
              same_slot r.key r.round key round ≡ true
              → entry r.key r.round p.pax_log ≡ entry key round p.pax_log
          slot t = ground (arith, eq_iff r.key key, eqb_ℤ_iff r.round round)

          here :
              same_slot r.key r.round key round ≡ true
              → R (entry key round p.pax_log) (accepted_entry r (entry r.key r.round p.pax_log))
          here t = rw (slot t) (writes r _ (k t))

      pub accept-OnEntry :
          (r : Request) (c : Bool) (p : Process)
          → (same_slot r.key r.round key round ≡ true → P r)
          → OnEntry R p (accept c r p).1
      accept-OnEntry r c p k = rw ((accept_lem c r p).1 key round) (written r c p k)

      pub success-OnEntry :
          (r : Request) (c : Bool) (p : Process)
          → (same_slot r.key r.round key round ≡ true → P r)
          → OnEntry R p (success c r p).1
      success-OnEntry r c p k = rw (entry-success c r p key round) (written r c p k)

      -- The step of an event whose writes are among `P` keeps the relation everywhere.
      pub step-OnEntry : (e : Event) → Writes P e → Allows (OnEntry R) e
      unfolding step
      step-OnEntry (propose_at a r) h w =
          Rel-update OnEntry-Frame w a _ (propose-OnEntry r false (w a))
      step-OnEntry (accept_at a r) h w =
          Rel-update OnEntry-Frame w a _ (accept-OnEntry r false (w a) h)
      step-OnEntry (success_at a r) h w =
          Rel-update OnEntry-Frame w a _ (success-OnEntry r false (w a) h)
      step-OnEntry (set_leader_at a v) h w = Rel-update OnEntry-Frame w a _ (same _)
      step-OnEntry (set_kv_at a k v) h w = Rel-update OnEntry-Frame w a _ (same _)
      step-OnEntry (count_incoming_at a n) h w =
          Rel-update OnEntry-Frame w a _ (rw (pax_log-count_incoming n (w a)) (same _))
      step-OnEntry (count_outgoing_at a n) h w =
          Rel-update OnEntry-Frame w a _ (rw (pax_log-count_outgoing n (w a)) (same _))
