-- ===== src/Attempt/Whole.antt =====
-- One rule for relations between a process before and after a whole attempt.
use cs739_p2_replicated_data.Base.{String, ◌≡◌, ap, Bool, false, inl, inr}
use cs739_p2_replicated_data.Proto.{Request, Response, Reply}
use cs739_p2_replicated_data.Process.{Process}
use cs739_p2_replicated_data.ConsensusRpc.{propose, accept, success, ping}
use cs739_p2_replicated_data.World.{World}
use cs739_p2_replicated_data.World.Laws.{Frame, Rel, Calm, Rel-chain}
use cs739_p2_replicated_data.Attempt.{
  Network, Phase, ping_phase, propose_phase, accept_phase, success_phase, prepare_request,
  success_request, lacks_quorum,
}
use cs739_p2_replicated_data.Attempt.Loops.{
  Rel-ping_all, Rel-propose_all, Rel-accept_all, Rel-success_all,
}
use cs739_p2_replicated_data.Attempt.Stages.{
  members_of, replicas, round_of, pinged, proposed, final_request, voted_on, informed, result,
  Commits, attempt-cases,
}

-- The request of the success stage.
abbrev pub last_request : String → Network → Request → World → Request
last_request self net r w = success_request r (voted_on self net r w).0.acceptance

-- What keeps the relation in each handler, with the requests that the attempt sends, keeps it
-- through the attempt.
module _ {R : Process → Process → Type 0} (f : Frame R) (self : String) (net : Network)
    (r : Request) (w : World) (calm : (phase : Phase) (a : String) → Calm R (net phase a))
    (keep_ping : (c : Bool) (p : Process) → R p (ping c p).1)
    (keep_propose : (c : Bool) (p : Process)
      → R p (propose c (prepare_request r (round_of self net r w)) p).1)
    (keep_accept : lacks_quorum (replicas self net r w) (proposed self net r w).0.num_accepted
        ≡ false
      → (c : Bool) (p : Process) → R p (accept c (final_request self net r w) p).1)
    (keep_success : Commits self net r w
      → (c : Bool) (p : Process) → R p (success c (last_request self net r w) p).1) where
  after_ping : Rel R w (pinged self net r w).1
  after_ping = Rel-ping_all f self net (calm ping_phase) keep_ping (members_of self net r w) w

  after_propose : Rel R w (proposed self net r w).1
  after_propose = Rel-chain f w (pinged self net r w).1 (proposed self net r w).1 after_ping (
      Rel-propose_all f self net (prepare_request r (round_of self net r w)) (calm propose_phase)
        keep_propose (pinged self net r w).0 (pinged self net r w).1)

  after_accept :
      lacks_quorum (replicas self net r w) (proposed self net r w).0.num_accepted ≡ false
      → Rel R w (voted_on self net r w).1
  after_accept enough =
      Rel-chain f w (proposed self net r w).1 (voted_on self net r w).1 after_propose (
        Rel-accept_all f self net (final_request self net r w) (calm accept_phase)
          (keep_accept enough) (pinged self net r w).0 (proposed self net r w).1)

  after_success : Commits self net r w → Rel R w (informed self net r w)
  after_success c =
      Rel-chain f w (voted_on self net r w).1 (informed self net r w) (after_accept c.1) (
        Rel-success_all f self net (last_request self net r w) (calm success_phase) (keep_success c)
          (members_of self net r w) (voted_on self net r w).1)

  pub attempt-Rel : Rel R w (result self net r w).1
  attempt-Rel = elim (attempt-cases self net r w) [
    | inl (t, e) ↦ rw (ap (λ (x : Reply Response × World). x.1) e) after_ping
    | inr (inl (g, t, e)) ↦ rw (ap (λ (x : Reply Response × World). x.1) e) after_propose
    | inr (inr (inl (g, h, t, e))) ↦
        rw (ap (λ (x : Reply Response × World). x.1) e) (after_accept h)
    | inr (inr (inr c)) ↦ rw (ap (λ (x : Reply Response × World). x.1) c.3) (after_success c)
  ]
