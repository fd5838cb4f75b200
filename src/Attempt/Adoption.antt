-- ===== src/Attempt/Adoption.antt =====
-- What the proposal loop finds out, while no other thread writes to the key and round.
use cs739_p2_replicated_data.Base.{
  ℕ, ◌+◌, String, ◌≡◌, refl, sym, ap, ◌∙◌, Bool, true, false, ◌⊎◌, inl, inr, arith, List, [], ◌∷◌,
  Bool-cases,
}
use mathlib.Core.Path.{subst}
use cs739_p2_replicated_data.Base.Int.{ℤ, pos, ltb_ℤ}
use cs739_p2_replicated_data.Base.Lists.{In, IsDistinct, All, All-map}
use cs739_p2_replicated_data.Proto.{Request, Response, Reply, LogEntry, is_ok, empty_response}
use cs739_p2_replicated_data.Log.{entry}
use cs739_p2_replicated_data.Process.{Process}
use cs739_p2_replicated_data.ConsensusRpc.{propose, ping, proposal_reply}
use cs739_p2_replicated_data.ConsensusRpc.Effects.{propose_lem, accepted_entry}
use cs739_p2_replicated_data.World.{World, Slot, stub, count_call}
use cs739_p2_replicated_data.World.Laws.{
  Frame, Rel, Calm, Rel-chain, Rel-count_call, Rel-steps, deliver-ok, arrival,
}
use cs739_p2_replicated_data.Call.{call_propose}
use cs739_p2_replicated_data.Attempt.{
  propose_phase, Network, Proposals, see_proposal, no_proposals, propose_all,
}
use cs739_p2_replicated_data.Attempt.Loops.{broadcast_inv, Rel-call_propose}
use cs739_p2_replicated_data.Attempt.Slots.{
  OnEntry, Writes, OnEntry-Frame, ping-OnEntry, propose-OnEntry, step-OnEntry,
}
use cs739_p2_replicated_data.Attempt.Live.{Roll, empty_roll, vote, skip}
use cs739_p2_replicated_data.Attempt.Values.{HasValue}

abbrev pub IsAccepted : LogEntry → Type 0
IsAccepted e = ltb_ℤ (pos 0) e.a_server_id ≡ true

-- One reply that counts, to the proposal loop: the id stays or grows, and a growing id comes with
-- the value that the acceptor has accepted.
see_proposal-reply :
    (s : Proposals) (a : String) (r : Request) (e : LogEntry)
    → ltb_ℤ s.accepted_id (pos 0) ≡ false
    → is_ok (proposal_reply r e).status ≡ true
    → let s' : Proposals = see_proposal s a (proposal_reply r e) in
      (s'.num_accepted ≡ s.num_accepted + 1)
      × (ltb_ℤ s'.accepted_id (pos 0) ≡ false)
      × (IsAccepted e → ltb_ℤ (pos 0) s'.accepted_id ≡ true)
      × (ltb_ℤ (pos 0) s.accepted_id ≡ true → ltb_ℤ (pos 0) s'.accepted_id ≡ true)
      × (((s'.accepted_id ≡ s.accepted_id) × (s'.accepted_value ≡ s.accepted_value))
          ⊎ HasValue s'.accepted_value e)
see_proposal-reply s a r e h k = ground arith

module _ (key : String) (round : ℤ) where
  -- The entry of the key and round is as it was.
  abbrev pub Same : Process → Process → Type 0
  Same = OnEntry key round (λ e f. f ≡ e)

  abbrev NoWrite : Request → Type 0
  NoWrite r = ⊥

  same_refl : (e : LogEntry) → e ≡ e
  same_refl e = refl

  same_chain : (e f g : LogEntry) → f ≡ e → g ≡ f → g ≡ e
  same_chain e f g p q = q ∙ p

  same_writes : (r : Request) (e : LogEntry) → ⊥ → accepted_entry r e ≡ e
  same_writes r e h = absurd h

  pub Same-Frame : Frame Same
  Same-Frame = OnEntry-Frame key round {R = λ e f. f ≡ e} same_refl same_chain

  -- No other thread writes to this key and round.
  abbrev pub Untouched : Slot → Type 0
  Untouched slot = All (Writes key round (λ _. ⊥)) slot.others

  pub Untouched-Calm : (slot : Slot) → Untouched slot → Calm Same slot
  Untouched-Calm slot =
      All-map _ _ slot.others
        (step-OnEntry key round {R = λ e f. f ≡ e} same_refl same_chain {P = λ _. ⊥} same_writes)

  pub ping-Same : (c : Bool) (p : Process) → Same p (ping c p).1
  ping-Same = ping-OnEntry key round {R = λ e f. f ≡ e} same_refl same_chain

  pub propose-Same : (r : Request) (c : Bool) (p : Process) → Same p (propose c r p).1
  propose-Same = propose-OnEntry key round {R = λ e f. f ≡ e} same_refl same_chain

module _ (self : String) (net : Network) (r : Request)
    (calm : (a : String) → Untouched r.key r.round (net propose_phase a)) (w₀ : World) where
  abbrev pub call : String → World → Reply Response × World
  call a w = call_propose self (net propose_phase a) a r w

  -- the acceptor's entry before the attempt
  abbrev pub before : String → LogEntry
  before a = entry r.key r.round (w₀ a).pax_log

  pub call_propose-Same : (a : String) (w : World) → Rel (Same r.key r.round) w (call a w).1
  call_propose-Same =
      Rel-call_propose (Same-Frame r.key r.round) self net r
        (λ a. Untouched-Calm r.key r.round (net propose_phase a) (calm a))
        (propose-Same r.key r.round r)

  -- A reply that counts tells of the entry as it was before the attempt.
  pub call_propose-reply :
      (a : String) (w : World)
      → Rel (Same r.key r.round) w₀ w
      → is_ok (call a w).0.status ≡ true
      → (call a w).0 ≡ proposal_reply r (before a)
  unfolding call_propose stub
  call_propose-reply a w same h =
      let name : String = "ConsensusRPCWrapperCall::propose" in
      let u : World = arrival self name (net propose_phase a) w in
      let ran = deliver-ok empty_response (λ c. propose c r) (net propose_phase a).delivery a u h in
      let moved : Rel (Same r.key r.round) w u =
        Rel-chain (Same-Frame r.key r.round) w (count_call self name w) u
          (Rel-count_call (Same-Frame r.key r.round) self name w)
          (Rel-steps (Same-Frame r.key r.round) (net propose_phase a).others
            (count_call self name w)
            (Untouched-Calm r.key r.round (net propose_phase a) (calm a))) in
      ap (λ (x : Reply Response × World). x.0) ran
      ∙ (propose_lem false r (u a)).0
      ∙ ap (proposal_reply r) (moved a ∙ same a)

  -- What the proposal loop keeps: a voter that had accepted a value is seen, and a value that is
  -- kept was accepted by a live node.
  pub record Reports (live rest : List String) (s : Proposals) (w : World) : Type 0 where
    pub votes : ℕ
    pub counted : s.num_accepted ≡ votes
    pub roll : Roll live rest votes
    pub same : Rel (Same r.key r.round) w₀ w
    pub nonneg : ltb_ℤ s.accepted_id (pos 0) ≡ false
    pub seen :
        (a : String) → In a roll.voters → IsAccepted (before a) → ltb_ℤ (pos 0) s.accepted_id ≡ true
    pub source :
        (ltb_ℤ (pos 0) s.accepted_id ≡ false)
        ⊎ ((a : String) × In a live × HasValue s.accepted_value (before a))

  counted-Reports :
      (live : List String) (a : String) (rest : List String) (s : Proposals) (w w' : World)
      → Reports live (a ∷ rest) s w
      → Rel (Same r.key r.round) w w'
      → is_ok (proposal_reply r (before a)).status ≡ true
      → Reports live rest (see_proposal s a (proposal_reply r (before a))) w'
  counted-Reports live a rest s w w' h moved k = record {
    votes = h.votes + 1;
    counted = f.0 ∙ ap (λ (n : ℕ). n + 1) h.counted;
    roll = vote a rest h.roll;
    same = Rel-chain (Same-Frame r.key r.round) w₀ w w' h.same moved;
    nonneg = f.1;
    seen = λ b m acc. elim m [
      | inl e ↦ f.2 (subst (λ x. IsAccepted (before x)) (sym e) acc)
      | inr n ↦ f.3 (h.seen b n acc)
    ];
    source = elim f.4 [
      | inl e ↦ elim h.source [ inl z ↦ inl (rw e.0 z) | inr (b, m, v) ↦ inr (b, m, rw e.1 v) ]
      | inr v ↦ inr (a, h.roll.rest_live a (inl refl), v)
    ];
  }
    where
      f :
          let s' : Proposals = see_proposal s a (proposal_reply r (before a)) in
          (s'.num_accepted ≡ s.num_accepted + 1)
          × (ltb_ℤ s'.accepted_id (pos 0) ≡ false)
          × (IsAccepted (before a) → ltb_ℤ (pos 0) s'.accepted_id ≡ true)
          × (ltb_ℤ (pos 0) s.accepted_id ≡ true → ltb_ℤ (pos 0) s'.accepted_id ≡ true)
          × (((s'.accepted_id ≡ s.accepted_id) × (s'.accepted_value ≡ s.accepted_value))
              ⊎ HasValue s'.accepted_value (before a))
      f = see_proposal-reply s a r (before a) h.nonneg k

  see_proposal-Reports :
      (live : List String) (a : String) (rest : List String) (s : Proposals) (w : World)
      → Reports live (a ∷ rest) s w
      → Reports live rest (see_proposal s a (call a w).0) (call a w).1
  see_proposal-Reports live a rest s w h = elim (Bool-cases (is_ok (call a w).0.status)) [
    | inl t ↦
        let e : (call a w).0 ≡ proposal_reply r (before a) = call_propose-reply a w h.same t in
        rw e (counted-Reports live a rest s w (call a w).1 h (call_propose-Same a w) (rw e at t))
    | inr f ↦ rw f (record {
      votes = h.votes;
      counted = h.counted;
      roll = skip a rest h.roll;
      same = Rel-chain (Same-Frame r.key r.round) w₀ w (call a w).1 h.same (call_propose-Same a w);
      nonneg = h.nonneg;
      seen = h.seen;
      source = h.source;
    })
  ]

  pub propose_all-Reports :
      (live : List String) (w : World)
      → IsDistinct live
      → Rel (Same r.key r.round) w₀ w
      → Reports live [] (propose_all self net r live w).0 (propose_all self net r live w).1
  unfolding propose_all
  propose_all-Reports live w d same =
      broadcast_inv call see_proposal (Reports live) (see_proposal-Reports live) live no_proposals w
        (record {
          votes = 0;
          counted = refl;
          roll = empty_roll d;
          same = same;
          nonneg = refl;
          seen = λ a m. absurd m;
          source = inl refl;
        })
