-- ===== src/Attempt/Agreement.antt =====
-- Which value an attempt returns: its own or one accepted before, and the chosen one if there is
-- one and the cluster has an odd number of members.
use cs739_p2_replicated_data.Base.{
  ℕ, ◌%◌, ◌<◌, String, ◌≡◌, sym, ap, ◌∙◌, true, false, ◌⊎◌, inl, inr, arith, [], Bool-cases,
}
use cs739_p2_replicated_data.Base.Int.{ℤ, pos, ltb_ℤ}
use cs739_p2_replicated_data.Base.Lists.{length, In, IsDistinct, All-get}
use cs739_p2_replicated_data.Proto.{Request, Response, Reply, is_ok, LogEntry}
use cs739_p2_replicated_data.Log.{entry}
use cs739_p2_replicated_data.World.{World}
use cs739_p2_replicated_data.Attempt.{
  Network, Phase, ping_phase, propose_phase, lacks_quorum, prepare_request,
}
use cs739_p2_replicated_data.Attempt.Loops.{Rel-ping_all}
use cs739_p2_replicated_data.Attempt.Stages.{
  members_of, replicas, round_of, pinged, proposed, final_request, result, Commits, attempt-ok,
}
use cs739_p2_replicated_data.Attempt.Live.{Live, ping_all-live}
use cs739_p2_replicated_data.Attempt.Quorum.{quorum_overlap, half_quorum}
use cs739_p2_replicated_data.Attempt.Values.{HasValue}
use cs739_p2_replicated_data.Attempt.Adoption.{
  IsAccepted, Same-Frame, Untouched, Untouched-Calm, ping-Same, Reports, propose_all-Reports,
}
use cs739_p2_replicated_data.Attempt.Chosen.{Chosen, committed-echo}

-- Whatever has been accepted for the key in the round is `v`.
abbrev pub Unanimous : String → ℤ → String → World → Type 0
Unanimous key round v w =
    (a : String)
    → IsAccepted (entry key round (w a).pax_log)
    → (entry key round (w a).pax_log).accepted_value ≡ v

module _ (self : String) (net : Network) (r : Request) (w : World)
    (distinct : IsDistinct (members_of self net r w))
    (calm : (phase : Phase) (a : String)
      → Untouched r.key (round_of self net r w) (net phase a)) where
  abbrev slot_entry : String → World → LogEntry
  slot_entry a u = entry r.key (round_of self net r w) (u a).pax_log

  live : Live (members_of self net r w) [] (pinged self net r w).0
  live = ping_all-live self net (members_of self net r w) w distinct

  reports :
      Reports self net
        (prepare_request r (round_of self net r w))
        (calm propose_phase)
        w
        (pinged self net r w).0
        []
        (proposed self net r w).0
        (proposed self net r w).1
  reports =
      propose_all-Reports self net (prepare_request r (round_of self net r w)) (calm propose_phase)
        w (pinged self net r w).0 (pinged self net r w).1 live.live_distinct
        (Rel-ping_all (Same-Frame r.key (round_of self net r w)) self net
          (λ a. Untouched-Calm r.key (round_of self net r w) (net ping_phase a) (calm ping_phase a))
          (ping-Same r.key (round_of self net r w)) (members_of self net r w) w)

  -- The value that goes to the accept stage is the caller's, or one that a member had accepted.
  pub final_value :
      ((final_request self net r w).value ≡ r.value)
      ⊎ ((a : String) × In a (members_of self net r w)
          × HasValue (final_request self net r w).value (slot_entry a w))
  final_value = elim reports.source [
    | inl z ↦ inl (rw z)
    | inr (a, m, v) ↦ elim (Bool-cases (ltb_ℤ (pos 0) (proposed self net r w).0.accepted_id)) [
      | inl t ↦ inr (a, live.live_members a m, rw t v)
      | inr f ↦ inl (rw f)
    ]
  ]

  result_value :
      0 < replicas self net r w
      → is_ok (result self net r w).0.status ≡ true
      → (result self net r w).0.response.value ≡ (final_request self net r w).value
  result_value some_member out =
      let c : Commits self net r w = attempt-ok self net r w out in
      ap (λ (x : Reply Response × World). x.0.response.value) c.3
      ∙ ap (λ (x : Response). x.value) (committed-echo self net r w some_member c)

  -- In a cluster of distinct members, at least one, and while no other thread writes to its key
  -- and round, an attempt that returns OK returns the
  -- caller's value, or a value that some member had accepted for the key in the round before.
  pub attempt_validity :
      0 < replicas self net r w
      → is_ok (result self net r w).0.status ≡ true
      → ((result self net r w).0.response.value ≡ r.value)
        ⊎ ((a : String) × In a (members_of self net r w)
            × HasValue (result self net r w).0.response.value (slot_entry a w))
  attempt_validity some_member out = rw (result_value some_member out) final_value

  -- If a quorum has accepted `v` and nobody another value, an attempt in the same round that gets
  -- past the proposal stage goes on with `v`.
  pub final_value-Chosen :
      (v : String)
      → replicas self net r w % 2 ≡ 1
      → Chosen (members_of self net r w) r.key (round_of self net r w) v w
      → Unanimous r.key (round_of self net r w) v w
      → lacks_quorum (replicas self net r w) (proposed self net r w).0.num_accepted ≡ false
      → (final_request self net r w).value ≡ v
  final_value-Chosen v odd chosen all_same enough =
      let n : ℕ = replicas self net r w in
      let enough' : lacks_quorum n (length reports.roll.voters) ≡ false =
        rw (reports.roll.counted, ← reports.counted) enough in
      let (b, in_chosen, in_voters) =
        quorum_overlap (members_of self net r w) chosen.voters reports.roll.voters odd
          chosen.distinct reports.roll.distinct chosen.are_members
          (λ a m. live.live_members a (reports.roll.voters_live a m)) (half_quorum n _ chosen.half)
          enough' in
      let t : ltb_ℤ (pos 0) (proposed self net r w).0.accepted_id ≡ true =
        reports.seen b in_voters (All-get _ chosen.voters chosen.voted b in_chosen).0 in
      rw t (adopted t)
    where
      adopted :
          ltb_ℤ (pos 0) (proposed self net r w).0.accepted_id ≡ true
          → (proposed self net r w).0.accepted_value ≡ v
      adopted t = elim reports.source [ inl z ↦ cc | inr (a, m, x) ↦ sym x.1 ∙ all_same a x.0 ]

  -- Agreement: in a cluster of distinct members, odd in number, if a quorum has accepted `v` for
  -- the key in the round and nobody another value, then an attempt in the same round that returns
  -- OK returns `v`, whoever makes it, whatever it was asked to set, and whichever messages are
  -- lost, while no other thread writes to the key and round.
  pub attempt_agreement :
      (v : String)
      → replicas self net r w % 2 ≡ 1
      → Chosen (members_of self net r w) r.key (round_of self net r w) v w
      → Unanimous r.key (round_of self net r w) v w
      → is_ok (result self net r w).0.status ≡ true
      → (result self net r w).0.response.value ≡ v
  attempt_agreement v odd chosen all_same out =
      result_value (omega arith) out
      ∙ final_value-Chosen v odd chosen all_same (attempt-ok self net r w out).1
