-- ===== src/Attempt/Chosen.antt =====
-- A successful attempt leaves its value accepted by a quorum.
use cs739_p2_replicated_data.Base.{
  ◌*◌, ◌≤◌, ◌<◌, String, ◌≡◌, refl, ap, ◌∙◌, true, false, ◌⊎◌, inl, inr, arith, List, [], ◌∷◌,
  Bool-cases, eq_refl,
}
use cs739_p2_replicated_data.Base.Int.{ℤ, pos, ltb_ℤ, eqb_ℤ_refl}
use cs739_p2_replicated_data.Base.Lists.{length, In, IsDistinct, All, All-map}
use cs739_p2_replicated_data.Proto.{Request, Response, Reply, is_ok, empty_response}
use cs739_p2_replicated_data.ConsensusRpc.{accept}
use cs739_p2_replicated_data.ConsensusRpc.Effects.{accept_lem, echo}
use cs739_p2_replicated_data.World.{World, Slot, update, stub}
use cs739_p2_replicated_data.World.Laws.{Rel, deliver-ok, update_self, arrival}
use cs739_p2_replicated_data.Call.{call_accept}
use cs739_p2_replicated_data.Attempt.{
  Phase, accept_phase, success_phase, Network, see_acceptance, no_acceptances, Acceptances,
  accept_all, success_request,
}
use cs739_p2_replicated_data.Attempt.Loops.{broadcast_inv, Rel-call_accept, Rel-success_all}
use cs739_p2_replicated_data.Attempt.Live.{Live, ping_all-live, Roll, empty_roll, vote, skip}
use cs739_p2_replicated_data.Attempt.Quorum.{quorum_half}
use cs739_p2_replicated_data.Attempt.Stages.{
  members_of, replicas, round_of, pinged, proposed, final_request, voted_on, informed, result,
  Commits, attempt-ok,
}
use cs739_p2_replicated_data.Attempt.Live.{Live, ping_all-live, Roll, empty_roll, vote, skip}
use cs739_p2_replicated_data.Attempt.Values.{
  Voted, Agrees, Agrees-Calm, Kept, Kept-Frame, accept-Kept, success-Kept,
}

module _ (self : String) (slot : Slot) (a : String) (r : Request) (w : World) where
  -- A call of `accept` that succeeds echoes the request, and the value is in the acceptor's log.
  call_accept-ok :
      is_ok (call_accept self slot a r w).0.status ≡ true
      → ltb_ℤ (pos 0) r.pserver_id ≡ true
      → ((call_accept self slot a r w).0.response ≡ echo r)
        × Voted r.key r.round r.value (call_accept self slot a r w).1 a
  unfolding call_accept stub
  call_accept-ok h p =
      let name : String = "ConsensusRPCWrapperCall::accept" in
      let ran =
        deliver-ok empty_response (λ c. accept c r) slot.delivery a (arrival self name slot w) h in
      rw ran (after (arrival self name slot w))
    where
      after :
          (u : World)
          → ((accept false r (u a)).0.response ≡ echo r)
            × Voted r.key r.round r.value (update u a (accept false r (u a)).1) a
      after u = (
        ap (λ (x : Reply Response). x.response) (accept_lem false r (u a)).0,
        rw
            (
              update_self u a (accept false r (u a)).1,
              (accept_lem false r (u a)).1 r.key r.round,
              eq_refl,
              eqb_ℤ_refl,
            )
            (p, refl),
      )

-- What the acceptance loop keeps: the voters that it has counted have accepted the value.
record Voters (key : String) (round : ℤ) (r : Request) (live rest : List String) (s : Acceptances)
    (w : World) : Type 0 where
  roll : Roll live rest s.num_final
  voted : All (Voted key round r.value w) roll.voters

module _ (self : String) (net : Network) (r : Request)
    (calm : (a : String) → Agrees r.key r.round r.value (net accept_phase a))
    (p : ltb_ℤ (pos 0) r.pserver_id ≡ true) where
  abbrev call : String → World → Reply Response × World
  call a w = call_accept self (net accept_phase a) a r w

  call-Kept : (a : String) (w : World) → Rel (Kept r.key r.round r.value) w (call a w).1
  call-Kept =
      Rel-call_accept (Kept-Frame r.key r.round r.value) self net r
        (λ a. Agrees-Calm r.key r.round r.value (net accept_phase a) (calm a))
        (accept-Kept r.key r.round r.value r (p, refl))

  see_acceptance-Voters :
      (live : List String) (a : String) (rest : List String) (s : Acceptances) (w : World)
      → Voters r.key r.round r live (a ∷ rest) s w
      → Voters r.key r.round r live rest (see_acceptance s a (call a w).0) (call a w).1
  see_acceptance-Voters live a rest s w h = elim (Bool-cases (is_ok (call a w).0.status)) [
    | inl t ↦ rw t (record {
      roll = vote a rest h.roll;
      voted = ((call_accept-ok self (net accept_phase a) a r w t p).1, still);
    })
    | inr f ↦ rw f (record { roll = skip a rest h.roll; voted = still })
  ]
    where
      still : All (Voted r.key r.round r.value (call a w).1) h.roll.voters
      still = All-map _ _ h.roll.voters (λ b. call-Kept a w b) h.voted

  accept_all-Voters :
      (live : List String) (w : World)
      → IsDistinct live
      → Voters r.key r.round r live []
          (accept_all self net r live w).0
          (accept_all self net r live w).1
  unfolding accept_all
  accept_all-Voters live w d =
      broadcast_inv call see_acceptance (Voters r.key r.round r live) (see_acceptance-Voters live)
        live no_acceptances w (record { roll = empty_roll d; voted = tt })

-- A quorum of distinct members has accepted `v` for the key in the round.
pub record Chosen (members : List String) (key : String) (round : ℤ) (v : String) (w : World)
    : Type 0 where
  pub voters : List String
  pub distinct : IsDistinct voters
  pub are_members : (a : String) → In a voters → In a members
  pub half : length members ≤ 2 * length voters
  pub voted : All (Voted key round v w) voters

-- Whatever the other threads do, the replies that count echo the request.
accept_all-echo :
    (self : String) (net : Network) (q : Request) (live : List String) (w : World)
    → ltb_ℤ (pos 0) q.pserver_id ≡ true
    → let s : Acceptances = (accept_all self net q live w).0 in
      (s.num_final ≡ 0) ⊎ (s.acceptance ≡ echo q)
unfolding accept_all
accept_all-echo self net q live w p =
    broadcast_inv (λ a. call_accept self (net accept_phase a) a q) see_acceptance
      (λ rest s u. (s.num_final ≡ 0) ⊎ (s.acceptance ≡ echo q)) keep live no_acceptances w
      (inl refl)
  where
    keep :
        (a : String) (rest : List String) (s : Acceptances) (u : World)
        → (s.num_final ≡ 0) ⊎ (s.acceptance ≡ echo q)
        → let s' : Acceptances =
            see_acceptance s a (call_accept self (net accept_phase a) a q u).0 in
          (s'.num_final ≡ 0) ⊎ (s'.acceptance ≡ echo q)
    keep a rest s u h =
        elim (Bool-cases (is_ok (call_accept self (net accept_phase a) a q u).0.status)) [
          | inl t ↦ rw t (inr (call_accept-ok self (net accept_phase a) a q u t p).0)
          | inr f ↦ rw f h
        ]

module _ (self : String) (net : Network) (r : Request) (w : World)
    (some_member : 0 < replicas self net r w) where
  -- A committed attempt has the echo of its accept request.
  pub committed-echo :
      Commits self net r w
      → (voted_on self net r w).0.acceptance ≡ echo (final_request self net r w)
  committed-echo (f, g, h, e) =
      elim (accept_all-echo self net (final_request self net r w) (pinged self net r w).0
        (proposed self net r w).1 refl) [
          | inl z ↦ absurd (omega (arith, quorum_half _ _ h))
          | inr k ↦ k
        ]

  committed-Chosen :
      IsDistinct (members_of self net r w)
      → ((phase : Phase) (a : String)
          → Agrees r.key (round_of self net r w) (final_request self net r w).value (net phase a))
      → Commits self net r w
      → Chosen
          (members_of self net r w)
          r.key
          (round_of self net r w)
          (final_request self net r w).value
          (informed self net r w)
  committed-Chosen d calm c = record {
    voters = votes.roll.voters;
    distinct = votes.roll.distinct;
    are_members = λ a m. live.live_members a (votes.roll.voters_live a m);
    half = omega (arith, votes.roll.counted, quorum_half _ _ c.2);
    voted = All-map _ _ votes.roll.voters kept votes.voted;
  }
    where
      q : Request
      q = final_request self net r w

      live : Live (members_of self net r w) [] (pinged self net r w).0
      live = ping_all-live self net (members_of self net r w) w d

      votes :
          Voters r.key q.round q
            (pinged self net r w).0
            []
            (voted_on self net r w).0
            (voted_on self net r w).1
      votes =
          accept_all-Voters self net q (calm accept_phase) refl (pinged self net r w).0
            (proposed self net r w).1 live.live_distinct

      last : Request
      last = success_request r (voted_on self net r w).0.acceptance

      kept : Rel (Kept r.key q.round q.value) (voted_on self net r w).1 (informed self net r w)
      kept =
          Rel-success_all (Kept-Frame r.key q.round q.value) self net last
            (λ a. Agrees-Calm r.key q.round q.value (net success_phase a) (calm success_phase a))
            (success-Kept r.key q.round q.value last (rw (committed-echo c) (refl, refl)))
            (members_of self net r w) (voted_on self net r w).1

  -- In a cluster of distinct members, at least one, an attempt that returns OK leaves the value
  -- that it returns accepted, for the key and in the round that the caller's log gave, by at least
  -- half of the members, provided that no other thread writes another value to that key and round
  -- meanwhile.
  pub attempt-Chosen :
      IsDistinct (members_of self net r w)
      → ((phase : Phase) (a : String)
          → Agrees r.key
              (round_of self net r w)
              (result self net r w).0.response.value
              (net phase a))
      → is_ok (result self net r w).0.status ≡ true
      → Chosen
          (members_of self net r w)
          r.key
          (round_of self net r w)
          (result self net r w).0.response.value
          (result self net r w).1
  attempt-Chosen d calm out =
      let c : Commits self net r w = attempt-ok self net r w out in
      let e : (result self net r w).0.response.value ≡ (final_request self net r w).value =
        ap (λ (x : Reply Response × World). x.0.response.value) c.3
        ∙ ap (λ (x : Response). x.value) (committed-echo c) in
      rw (ap (λ (x : Reply Response × World). x.1) c.3, e)
        (committed-Chosen d (λ phase a. rw e at (calm phase a)) c)
