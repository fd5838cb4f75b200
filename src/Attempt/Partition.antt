-- ===== src/Attempt/Partition.antt =====
-- A network that reaches some processes and not the others, while no other thread takes a step:
-- what each loop of an attempt does there.
use cs739_p2_replicated_data.Base.{
  ℕ, ◌+◌, String, ◌≡◌, refl, sym, ap, ◌∙◌, Bool, true, false, inl, inr, arith, List, [], ◌∷◌, ◌++◌,
  Bool-cases, if◌then◌else◌,
}
use mathlib.Core.List.{append_assoc, append-nil}
use cs739_p2_replicated_data.Base.Int.{pos, ltb_ℤ}
use cs739_p2_replicated_data.Base.Lists.{In, length, All}
use cs739_p2_replicated_data.Proto.{Request, Reply, LogEntry, is_ok, empty_response}
use cs739_p2_replicated_data.Log.{entry}
use cs739_p2_replicated_data.Process.{Process}
use cs739_p2_replicated_data.ConsensusRpc.{propose, accept, ping, proposal_reply}
use cs739_p2_replicated_data.ConsensusRpc.Effects.{accept_lem, propose_lem}
use cs739_p2_replicated_data.World.{
  World, Delivery, delivered, unreachable, update, count_call, stub, no_connection,
}
use cs739_p2_replicated_data.World.Laws.{Rel, Rel-count_call, Rel-chain}
use cs739_p2_replicated_data.Call.{call_ping, call_propose, call_accept}
use cs739_p2_replicated_data.Attempt.{
  Network, Phase, ping_phase, propose_phase, accept_phase, Proposals, see_ping, see_proposal,
  see_acceptance, no_proposals, no_acceptances, ping_all, propose_all, accept_all,
}
use cs739_p2_replicated_data.Attempt.Loops.{broadcast_inv}
use cs739_p2_replicated_data.Attempt.Adoption.{Same, call_propose-Same, Same-Frame}

module _ (up : String → Bool) where
  abbrev fate : Bool → Delivery
  fate true = delivered
  fate false = unreachable

  -- Calls to the processes that are `up` are delivered, all others find nobody.
  abbrev pub partition : Network
  partition phase a = record { others = []; delivery = fate (up a) }

  -- the addresses of the list that are up, in its order
  abbrev pub reachable : List String → List String
  reachable [] = []
  reachable (a ∷ as') = if up a then a ∷ reachable as' else reachable as'

  pub reachable-up : (as' : List String) → All (λ a. up a ≡ true) (reachable as')
  reachable-up [] = tt
  reachable-up (a ∷ as') = elim (Bool-cases (up a)) [
    | inl t ↦ rw t (t, reachable-up as')
    | inr f ↦ rw f (reachable-up as')
  ]

  pub All-reachable :
      (P : String → Type 0) (as' : List String)
      → ((a : String) → In a as' → up a ≡ true → P a)
      → All P (reachable as')
  All-reachable P [] h = tt
  All-reachable P (a ∷ as') h = elim (Bool-cases (up a)) [
    | inl t ↦ rw t (h a (inl refl) t, All-reachable P as' (λ b m. h b (inr m)))
    | inr f ↦ rw f (All-reachable P as' (λ b m. h b (inr m)))
  ]

  module _ {A : Type 0} (empty : A) (handler : Bool → Process → Reply A × Process) (phase : Phase)
      (a : String) (w : World) where
    pub stub-up :
        up a ≡ true
        → stub empty handler (partition phase a) a w
          ≡ ((handler false (w a)).0, update w a (handler false (w a)).1)
    unfolding stub
    stub-up t = rw t

    pub stub-down :
        up a ≡ false
        → stub empty handler (partition phase a) a w
          ≡ (record { status = no_connection; response = empty }, w)
    unfolding stub
    stub-down f = rw f

  module _ (self : String) where
    ping-ok :
        (a : String) (w : World)
        → is_ok (call_ping self (partition ping_phase a) a w).0.status ≡ up a
    unfolding call_ping ping
    ping-ok a w = elim (Bool-cases (up a)) [
      | inl t ↦
          rw (stub-up tt ping ping_phase a (count_call self "ConsensusRPCWrapperCall::ping" w) t)
            (sym t)
      | inr f ↦
          rw (stub-down tt ping ping_phase a (count_call self "ConsensusRPCWrapperCall::ping" w) f)
            (sym f)
    ]

    -- The live nodes are the members that are up.
    pub ping_all-reachable :
        (members : List String) (w : World)
        → (ping_all self partition members w).0 ≡ reachable members
    unfolding ping_all
    ping_all-reachable members w =
        sym (append-nil _)
        ∙ broadcast_inv (λ a. call_ping self (partition ping_phase a) a) see_ping
            (λ rest live u. live ++ reachable rest ≡ reachable members) keep members [] w refl
      where
        keep :
            (a : String) (rest live : List String) (u : World)
            → live ++ reachable (a ∷ rest) ≡ reachable members
            → see_ping live a (call_ping self (partition ping_phase a) a u).0 ++ reachable rest
              ≡ reachable members
        keep a rest live u h = elim (Bool-cases (up a)) [
          | inl t ↦ rw (ping-ok a u, t) (rw append_assoc (rw t at h))
          | inr f ↦ rw (ping-ok a u, f) (rw f at h)
        ]

-- The entry is in the way of no proposal with id 1: nothing is accepted, nothing larger promised.
abbrev pub IsFree : LogEntry → Type 0
IsFree e = (ltb_ℤ (pos 0) e.a_server_id ≡ false) × (ltb_ℤ (pos 1) e.p_server_id ≡ false)

module _ (up : String → Bool) (self : String) (r : Request) (first : r.pserver_id ≡ pos 1) where
  -- What the proposal loop keeps.
  abbrev FreeLoop : World → ℕ → List String → Proposals → World → Type 0
  FreeLoop w₀ n rest s u =
      (s.num_accepted + length rest ≡ n)
      × (s.accepted_id ≡ pos 0)
      × All (λ a. up a ≡ true) rest
      × Rel (Same r.key r.round) w₀ u

  free-reply :
      (s : Proposals) (a : String) (e : LogEntry)
      → IsFree e
      → s.accepted_id ≡ pos 0
      → (is_ok (proposal_reply r e).status ≡ true)
        × (see_proposal s a (proposal_reply r e) ≡ record s { num_accepted = s.num_accepted + 1 })
  free-reply s a e h z = ground arith

  call_propose-up :
      (a : String) (w : World)
      → up a ≡ true
      → (call_propose self (partition up propose_phase a) a r w).0
        ≡ proposal_reply r
            (entry r.key r.round (count_call self "ConsensusRPCWrapperCall::propose" w a).pax_log)
  unfolding call_propose
  call_propose-up a w t =
      let u : World = count_call self "ConsensusRPCWrapperCall::propose" w in
      rw (stub-up up empty_response (λ c. propose c r) propose_phase a u t)
        (propose_lem false r (u a)).0

  -- Every node that is up counts the proposal, and none reports a value.
  pub propose_all-free :
      (live : List String) (w₀ w : World)
      → All (λ a. up a ≡ true) live
      → Rel (Same r.key r.round) w₀ w
      → ((a : String) → up a ≡ true → IsFree (entry r.key r.round (w₀ a).pax_log))
      → ((propose_all self (partition up) r live w).0.num_accepted ≡ length live)
        × ((propose_all self (partition up) r live w).0.accepted_id ≡ pos 0)
  unfolding propose_all
  propose_all-free live w₀ w ups same free =
      let end =
        broadcast_inv (λ a. call_propose self (partition up propose_phase a) a r) see_proposal
          (FreeLoop w₀ (length live)) keep live no_proposals w (omega arith, refl, ups, same) in
      (omega (arith, end.0), end.1)
    where
      keep :
          (a : String) (rest : List String) (s : Proposals) (u : World)
          → FreeLoop w₀ (length live) (a ∷ rest) s u
          → FreeLoop w₀
              (length live)
              rest
              (see_proposal s a (call_propose self (partition up propose_phase a) a r u).0)
              (call_propose self (partition up propose_phase a) a r u).1
      keep a rest s u (n, z, ups, same) =
          let counted =
            Rel-count_call (Same-Frame r.key r.round) self "ConsensusRPCWrapperCall::propose" u a in
          let reply : (call_propose self (partition up propose_phase a) a r u).0
              ≡ proposal_reply r (entry r.key r.round (w₀ a).pax_log) =
            call_propose-up a u ups.0 ∙ ap (proposal_reply r) (counted ∙ same a) in
          let moved = call_propose-Same self (partition up) r (λ a. tt) w₀ a u in
          let seen = free-reply s a (entry r.key r.round (w₀ a).pax_log) (free a ups.0) z in
          rw (reply, seen.1)
            (
              omega (arith, n),
              z,
              ups.1,
              Rel-chain (Same-Frame r.key r.round) w₀ u
                  (call_propose self (partition up propose_phase a) a r u).1 same moved,
            )

  call_accept-up :
      (a : String) (w : World)
      → up a ≡ true
      → is_ok (call_accept self (partition up accept_phase a) a r w).0.status ≡ true
  unfolding call_accept
  call_accept-up a w t =
      let u : World = count_call self "ConsensusRPCWrapperCall::accept" w in
      rw
        (
          stub-up up empty_response (λ c. accept c r) accept_phase a u t,
          (accept_lem false r (u a)).0,
        )
        refl

  -- Every node that is up counts as an acceptance.
  pub accept_all-up :
      (live : List String) (w : World)
      → All (λ a. up a ≡ true) live
      → (accept_all self (partition up) r live w).0.num_final ≡ length live
  unfolding accept_all
  accept_all-up live w ups =
      let end =
        broadcast_inv (λ a. call_accept self (partition up accept_phase a) a r) see_acceptance
          (λ rest s u. (s.num_final + length rest ≡ length live) × All (λ a. up a ≡ true) rest)
          (λ a rest s u h. rw (call_accept-up a u h.1.0) (omega (arith, h.0), h.1.1)) live
          no_acceptances w (omega arith, ups) in
      omega (arith, end.0)
