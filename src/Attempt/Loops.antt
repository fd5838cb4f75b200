-- ===== src/Attempt/Loops.antt =====
-- Rules for the loops of `AttemptConsensus`: an invariant over the nodes still to call, and a
-- relation of processes that every call keeps.
use cs739_p2_replicated_data.Base.{String, Bool, List, [], ◌∷◌}
use cs739_p2_replicated_data.Proto.{Request, Reply, empty_response}
use cs739_p2_replicated_data.Process.{Process}
use cs739_p2_replicated_data.ConsensusRpc.{propose, accept, success, ping}
use cs739_p2_replicated_data.World.{World, count_call, stub}
use cs739_p2_replicated_data.World.Laws.{
  Frame, Rel, Calm, Rel-same, Rel-chain, Rel-count_call, Rel-stub,
}
use cs739_p2_replicated_data.Call.{call_ping, call_propose, call_accept, call_success}
use cs739_p2_replicated_data.Attempt.{
  Phase, ping_phase, propose_phase, accept_phase, success_phase, Network, broadcast, see_ping,
  see_proposal, no_proposals, see_acceptance, no_acceptances, ping_all, propose_all, accept_all,
  success_all,
}

-- The invariant speaks of the nodes still to call, of what the loop has kept, and of the world.
pub broadcast_inv :
    {A S : Type 0} (call : String → World → Reply A × World) (see : S → String → Reply A → S)
    (Inv : List String → S → World → Type 0)
    → ((a : String) (rest : List String) (s : S) (w : World)
        → Inv (a ∷ rest) s w
        → Inv rest (see s a (call a w).0) (call a w).1)
    → (as' : List String) (s : S) (w : World) → Inv as' s w
    → Inv [] (broadcast call see as' s w).0 (broadcast call see as' s w).1
unfolding broadcast
broadcast_inv call see Inv keep [] s w h = h
broadcast_inv call see Inv keep (a ∷ rest) s w h =
    broadcast_inv call see Inv keep rest (see s a (call a w).0) (call a w).1 (keep a rest s w h)

module _ {R : Process → Process → Type 0} (f : Frame R) where
  pub broadcast-Rel :
      {A S : Type 0} (call : String → World → Reply A × World) (see : S → String → Reply A → S)
      → ((a : String) (w : World) → Rel R w (call a w).1)
      → (as' : List String) (s : S) (w : World) → Rel R w (broadcast call see as' s w).1
  unfolding broadcast
  broadcast-Rel call see keep [] s w = Rel-same f w
  broadcast-Rel call see keep (a ∷ rest) s w =
      Rel-chain f w (call a w).1 _ (keep a w)
        (broadcast-Rel call see keep rest (see s a (call a w).0) (call a w).1)

  -- A call made by `self`: it is counted, others take their steps, and the handler runs or not.
  Rel-call :
      {A : Type 0} (empty : A) (handler : Bool → Process → Reply A × Process)
      → ((c : Bool) (p : Process) → R p (handler c p).1)
      → (self name : String) (net : Network) (phase : Phase) (a : String) (w : World)
      → Calm R (net phase a)
      → Rel R w (stub empty handler (net phase a) a (count_call self name w)).1
  Rel-call empty handler keep self name net phase a w calm =
      Rel-chain f w (count_call self name w) _ (Rel-count_call f self name w)
        (Rel-stub f empty handler keep (net phase a) a (count_call self name w) calm)

  module _ (self : String) (net : Network) where
    module _ (calm : (a : String) → Calm R (net ping_phase a))
        (keep : (c : Bool) (p : Process) → R p (ping c p).1) where
      pub Rel-call_ping :
          (a : String) (w : World) → Rel R w (call_ping self (net ping_phase a) a w).1
      unfolding call_ping
      Rel-call_ping a w = Rel-call tt ping keep self _ net ping_phase a w (calm a)

      pub Rel-ping_all : (as' : List String) (w : World) → Rel R w (ping_all self net as' w).1
      unfolding ping_all
      Rel-ping_all as' = broadcast-Rel _ see_ping Rel-call_ping as' []

    module _ (r : Request) (calm : (a : String) → Calm R (net propose_phase a))
        (keep : (c : Bool) (p : Process) → R p (propose c r p).1) where
      pub Rel-call_propose :
          (a : String) (w : World) → Rel R w (call_propose self (net propose_phase a) a r w).1
      unfolding call_propose
      Rel-call_propose a w =
          Rel-call empty_response (λ c. propose c r) keep self _ net propose_phase a w (calm a)

      pub Rel-propose_all :
          (as' : List String) (w : World) → Rel R w (propose_all self net r as' w).1
      unfolding propose_all
      Rel-propose_all as' = broadcast-Rel _ see_proposal Rel-call_propose as' no_proposals

    module _ (r : Request) (calm : (a : String) → Calm R (net accept_phase a))
        (keep : (c : Bool) (p : Process) → R p (accept c r p).1) where
      pub Rel-call_accept :
          (a : String) (w : World) → Rel R w (call_accept self (net accept_phase a) a r w).1
      unfolding call_accept
      Rel-call_accept a w =
          Rel-call empty_response (λ c. accept c r) keep self _ net accept_phase a w (calm a)

      pub Rel-accept_all : (as' : List String) (w : World) → Rel R w (accept_all self net r as' w).1
      unfolding accept_all
      Rel-accept_all as' = broadcast-Rel _ see_acceptance Rel-call_accept as' no_acceptances

    module _ (r : Request) (calm : (a : String) → Calm R (net success_phase a))
        (keep : (c : Bool) (p : Process) → R p (success c r p).1) where
      pub Rel-call_success :
          (a : String) (w : World) → Rel R w (call_success self (net success_phase a) a r w).1
      unfolding call_success
      Rel-call_success a w =
          Rel-call tt (λ c. success c r) keep self _ net success_phase a w (calm a)

      pub Rel-success_all :
          (as' : List String) (w : World) → Rel R w (success_all self net r as' w).1
      unfolding success_all
      Rel-success_all as' = broadcast-Rel _ (λ s a r. s) Rel-call_success as' tt
