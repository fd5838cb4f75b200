-- ===== src/Attempt/Abort.antt =====
-- An attempt that fails applies nothing.
use cs739_p2_replicated_data.Base.{String, ◌≡◌, refl, ap, ◌∙◌, Bool, false, inl, inr}
use cs739_p2_replicated_data.Base.Lists.{All, All-map}
use cs739_p2_replicated_data.Proto.{Request, Response, Reply, is_ok}
use cs739_p2_replicated_data.Process.{Process}
use cs739_p2_replicated_data.ConsensusRpc.{ping}
use cs739_p2_replicated_data.ConsensusRpc.Effects.{
  SameState, count_incoming-SameState, count_outgoing-SameState, propose_lem, accept_lem,
}
use cs739_p2_replicated_data.World.{
  World, Event, propose_at, accept_at, success_at, set_leader_at, set_kv_at, count_incoming_at,
  count_outgoing_at, step,
}
use cs739_p2_replicated_data.World.Laws.{Frame, Rel, Allows, Calm, Rel-chain, Rel-update}
use cs739_p2_replicated_data.Attempt.{
  Network, Phase, ping_phase, propose_phase, accept_phase, prepare_request,
}
use cs739_p2_replicated_data.Attempt.Loops.{Rel-ping_all, Rel-propose_all, Rel-accept_all}
use cs739_p2_replicated_data.Attempt.Stages.{
  members_of, round_of, pinged, proposed, final_request, voted_on, result, attempt-cases,
}

pub SameState-Frame : Frame SameState
SameState-Frame = record {
  same = λ p. record { leader = refl; kv_store = refl; member_list = refl };
  chain = λ p q s h k. record {
    leader = k.leader ∙ h.leader;
    kv_store = k.kv_store ∙ h.kv_store;
    member_list = k.member_list ∙ h.member_list;
  };
  counted = count_outgoing-SameState;
}

ping-SameState : (c : Bool) (p : Process) → SameState p (ping c p).1
unfolding ping
ping-SameState c p = count_incoming-SameState _ p

-- The event sets no leader and no value of the store.
abbrev pub AppliesNothing : Event → Type 0
AppliesNothing (success_at a r) = ⊥
AppliesNothing (set_leader_at a v) = ⊥
AppliesNothing (set_kv_at a k v) = ⊥
AppliesNothing _ = Unit

step-SameState : (e : Event) → AppliesNothing e → Allows SameState e
unfolding step
step-SameState (propose_at a r) h w = Rel-update SameState-Frame w a _ (propose_lem false r (w a)).2
step-SameState (accept_at a r) h w = Rel-update SameState-Frame w a _ (accept_lem false r (w a)).2
step-SameState (success_at a r) h w = absurd h
step-SameState (set_leader_at a v) h w = absurd h
step-SameState (set_kv_at a k v) h w = absurd h
step-SameState (count_incoming_at a n) h w =
    Rel-update SameState-Frame w a _ (count_incoming-SameState n (w a))
step-SameState (count_outgoing_at a n) h w =
    Rel-update SameState-Frame w a _ (count_outgoing-SameState n (w a))

module _ (self : String) (net : Network) (r : Request) (w : World)
    (quiet : (phase : Phase) (a : String) → All AppliesNothing (net phase a).others) where
  calm : (phase : Phase) (a : String) → Calm SameState (net phase a)
  calm phase a = All-map _ _ (net phase a).others step-SameState (quiet phase a)

  after_ping : Rel SameState w (pinged self net r w).1
  after_ping =
      Rel-ping_all SameState-Frame self net (calm ping_phase) ping-SameState
        (members_of self net r w) w

  after_propose : Rel SameState w (proposed self net r w).1
  after_propose =
      Rel-chain SameState-Frame w (pinged self net r w).1 (proposed self net r w).1 after_ping (
        Rel-propose_all SameState-Frame self net (prepare_request r (round_of self net r w))
          (calm propose_phase)
          (λ c p. (propose_lem c (prepare_request r (round_of self net r w)) p).2)
          (pinged self net r w).0 (pinged self net r w).1)

  pub after_accept : Rel SameState w (voted_on self net r w).1
  after_accept =
      Rel-chain SameState-Frame w (proposed self net r w).1 (voted_on self net r w).1 after_propose
        (Rel-accept_all SameState-Frame self net (final_request self net r w) (calm accept_phase)
          (λ c p. (accept_lem c (final_request self net r w) p).2) (pinged self net r w).0
          (proposed self net r w).1)

  -- An attempt that does not return OK leaves every process with the leader, the store and the
  -- member list that it had, if the other threads set no leader and no value meanwhile.
  pub abort_applies_nothing :
      is_ok (result self net r w).0.status ≡ false
      → (a : String) → SameState (w a) ((result self net r w).1 a)
  abort_applies_nothing h a = elim (attempt-cases self net r w) [
    | inl (t, e) ↦ rw (ap (λ (x : Reply Response × World). x.1) e) (after_ping a)
    | inr (inl (f, t, e)) ↦ rw (ap (λ (x : Reply Response × World). x.1) e) (after_propose a)
    | inr (inr (inl (f, g, t, e))) ↦
        rw (ap (λ (x : Reply Response × World). x.1) e) (after_accept a)
    | inr (inr (inr (f, g, t, e))) ↦ cc (ap (λ (x : Reply Response × World). is_ok x.0.status) e)
  ]
