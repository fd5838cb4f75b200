-- ===== src/Attempt/Settled.antt =====
-- What an attempt does to a key and round in which a value has been chosen before.
use cs739_p2_replicated_data.Base.{◌%◌, ◌<◌, String, ◌≡◌, refl, true, false, arith, eq_iff, List}
use cs739_p2_replicated_data.Base.Int.{ℤ, eqb_ℤ_iff}
use cs739_p2_replicated_data.Base.Lists.{length, IsDistinct, All-map}
use cs739_p2_replicated_data.Proto.{Request, LogEntry}
use cs739_p2_replicated_data.Log.Laws.{same_slot}
use cs739_p2_replicated_data.ConsensusRpc.Effects.{accepted_entry}
use cs739_p2_replicated_data.World.{World, Slot}
use cs739_p2_replicated_data.World.Laws.{Frame, Rel, Calm}
use cs739_p2_replicated_data.Attempt.{Network, Phase, lacks_quorum}
use cs739_p2_replicated_data.Attempt.Slots.{
  OnEntry, OnEntry-Frame, ping-OnEntry, propose-OnEntry, accept-OnEntry, success-OnEntry,
  step-OnEntry,
}
use cs739_p2_replicated_data.Attempt.Whole.{attempt-Rel}
use cs739_p2_replicated_data.Attempt.Stages.{
  members_of, replicas, round_of, proposed, final_request, result,
}
use cs739_p2_replicated_data.Attempt.Values.{HasValue, Gives}
use cs739_p2_replicated_data.Attempt.Adoption.{IsAccepted, Untouched}
use cs739_p2_replicated_data.Attempt.Chosen.{Chosen, committed-echo}
use cs739_p2_replicated_data.Attempt.Agreement.{Unanimous, final_value-Chosen}

-- Whatever the entry has accepted is `v`.
abbrev IsOnly : String → LogEntry → Type 0
IsOnly v e = IsAccepted e → e.accepted_value ≡ v

-- An entry that has accepted `v` keeps it, and one that has accepted no other value accepts none.
abbrev pub Settled : String → LogEntry → LogEntry → Type 0
Settled v e f = (HasValue v e → HasValue v f) × (IsOnly v e → IsOnly v f)

module _ (key : String) (round : ℤ) (v : String) where
  settled_same : (e : LogEntry) → Settled v e e
  settled_same e = ((λ h. h), (λ h. h))

  settled_chain : (e f g : LogEntry) → Settled v e f → Settled v f g → Settled v e g
  settled_chain e f g h k = ((λ x. k.0 (h.0 x)), (λ x. k.1 (h.1 x)))

  settled_writes : (r : Request) (e : LogEntry) → Gives v r → Settled v e (accepted_entry r e)
  settled_writes r e g = ((λ _. g), (λ _ _. g.1))

  abbrev frame : Frame (OnEntry key round (Settled v))
  frame = OnEntry-Frame key round {R = Settled v} settled_same settled_chain

  settled_calm :
      (slot : Slot) → Untouched key round slot → Calm (OnEntry key round (Settled v)) slot
  settled_calm slot h =
      All-map _ _ slot.others
        (step-OnEntry key round {R = Settled v} settled_same settled_chain {P = λ _. ⊥}
          (λ r e x. absurd x))
        h

  module _ (self : String) (net : Network) (r : Request) (w : World)
      (quiet : (phase : Phase) (a : String) → Untouched key round (net phase a))
      (some_member : 0 < replicas self net r w)
      (proper : lacks_quorum (replicas self net r w) (proposed self net r w).0.num_accepted ≡ false
        → same_slot r.key (round_of self net r w) key round ≡ true
        → (final_request self net r w).value ≡ v) where
    abbrev calm : (phase : Phase) (a : String) → Calm (OnEntry key round (Settled v)) (net phase a)
    calm phase a = settled_calm (net phase a) (quiet phase a)

    -- If the attempt goes on with no other value than `v`, where it works in this key and round,
    -- the entry of every process is settled.
    pub attempt-Settled : Rel (OnEntry key round (Settled v)) w (result self net r w).1
    attempt-Settled =
        attempt-Rel frame self net r w calm
          (ping-OnEntry key round {R = Settled v} settled_same settled_chain)
          (propose-OnEntry key round {R = Settled v} settled_same settled_chain _)
          (λ enough c p.
            accept-OnEntry key round {R = Settled v} settled_same settled_chain settled_writes _ c p
              (λ t. (refl, proper enough t)))
          (λ done c p.
            success-OnEntry key round {R = Settled v} settled_same settled_chain settled_writes _ c
              p (rw (committed-echo self net r w some_member done) (λ t. (refl, proper done.1 t))))

  -- A value that was chosen, and is the only one, stays so through an attempt.
  module _ (members : List String) (self : String) (net : Network) (r : Request) (w : World)
      (odd : length members % 2 ≡ 1) (distinct : IsDistinct members)
      (same_members : members_of self net r w ≡ members)
      (quiet : (phase : Phase) (a : String) → Untouched key round (net phase a))
      (chosen : Chosen members key round v w) (only : Unanimous key round v w) where
    proper_value :
        lacks_quorum (replicas self net r w) (proposed self net r w).0.num_accepted ≡ false
        → same_slot r.key (round_of self net r w) key round ≡ true
        → (final_request self net r w).value ≡ v
    proper_value enough here =
        let k : r.key ≡ key = ground (arith, here, eq_iff r.key key) in
        let n : round_of self net r w ≡ round =
          ground (arith, here, eqb_ℤ_iff (round_of self net r w) round) in
        final_value-Chosen self net r w (rw same_members distinct) (rw (n, k) quiet) v
          (rw same_members odd) (rw (same_members, n, k) chosen) (rw (n, k) only) enough

    some_replica : 0 < replicas self net r w
    some_replica = rw same_members (omega (arith, odd))

    pub settled : Rel (OnEntry key round (Settled v)) w (result self net r w).1
    settled = attempt-Settled self net r w quiet some_replica proper_value

    pub attempt-Unanimous : Unanimous key round v (result self net r w).1
    attempt-Unanimous a = (settled a).1 (only a)

    pub still_Chosen : Chosen members key round v (result self net r w).1
    still_Chosen = record {
      voters = chosen.voters;
      distinct = chosen.distinct;
      are_members = chosen.are_members;
      half = chosen.half;
      voted = All-map _ _ chosen.voters (λ a h. (settled a).0 h) chosen.voted;
    }
