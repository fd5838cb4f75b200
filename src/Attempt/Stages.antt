-- ===== src/Attempt/Stages.antt =====
-- The stages of one attempt by name, and where it can stop.
use cs739_p2_replicated_data.Base.{ℕ, String, ◌≡◌, true, false, ◌⊎◌, inl, inr, List, Bool-cases, ap}
use cs739_p2_replicated_data.Base.Int.{ℤ}
use cs739_p2_replicated_data.Base.Lists.{length}
use cs739_p2_replicated_data.Map.{keys}
use cs739_p2_replicated_data.Proto.{Request, Response, Reply, ok, is_ok}
use cs739_p2_replicated_data.World.{World}
use cs739_p2_replicated_data.Attempt.{
  Network, Acceptances, Proposals, lacks_quorum, ping_all, propose_all, accept_all, success_all,
  success_stage, accept_stage, propose_stage, attempt_consensus, prepare_request, accept_request,
  next_round, success_request, no_quorum,
}

module _ (self : String) (net : Network) (r : Request) (w : World) where
  abbrev pub members_of : List String
  members_of = keys (w self).member_list

  abbrev pub replicas : ℕ
  replicas = length members_of

  abbrev pub round_of : ℤ
  round_of = next_round self r.key w

  -- the nodes that answered the pings, and the world after the ping loop
  abbrev pub pinged : List String × World
  pinged = ping_all self net members_of w

  abbrev pub proposed : Proposals × World
  proposed = propose_all self net (prepare_request r round_of) pinged.0 pinged.1

  -- the request of the accept stage
  abbrev pub final_request : Request
  final_request = accept_request r round_of proposed.0

  abbrev pub voted_on : Acceptances × World
  voted_on = accept_all self net final_request pinged.0 proposed.1

  -- the world after the success stage
  abbrev pub informed : World
  informed =
      (success_all self net (success_request r voted_on.0.acceptance) members_of voted_on.1).1

  abbrev pub result : Reply Response × World
  result = attempt_consensus self net r w

  abbrev pub StopsAfterPing : Type 0
  StopsAfterPing =
      (lacks_quorum replicas (length pinged.0) ≡ true) × (result ≡ (no_quorum, pinged.1))

  abbrev pub StopsAfterPropose : Type 0
  StopsAfterPropose =
      (lacks_quorum replicas (length pinged.0) ≡ false)
      × (lacks_quorum replicas proposed.0.num_accepted ≡ true)
      × (result ≡ (no_quorum, proposed.1))

  abbrev pub StopsAfterAccept : Type 0
  StopsAfterAccept =
      (lacks_quorum replicas (length pinged.0) ≡ false)
      × (lacks_quorum replicas proposed.0.num_accepted ≡ false)
      × (lacks_quorum replicas voted_on.0.num_final ≡ true)
      × (result ≡ (no_quorum, voted_on.1))

  abbrev pub Commits : Type 0
  Commits =
      (lacks_quorum replicas (length pinged.0) ≡ false)
      × (lacks_quorum replicas proposed.0.num_accepted ≡ false)
      × (lacks_quorum replicas voted_on.0.num_final ≡ false)
      × (result ≡ (record { status = ok; response = voted_on.0.acceptance }, informed))

  -- An attempt stops after the phase that first lacks a quorum, with ABORTED, or informs all.
  pub attempt-cases : StopsAfterPing ⊎ (StopsAfterPropose ⊎ (StopsAfterAccept ⊎ Commits))
  unfolding attempt_consensus propose_stage accept_stage success_stage
  attempt-cases = elim (Bool-cases (lacks_quorum replicas (length pinged.0))) [
    | inl t ↦ inl (t, rw t)
    | inr f ↦ elim (Bool-cases (lacks_quorum replicas proposed.0.num_accepted)) [
      | inl t ↦ inr (inl (f, t, rw (f, t)))
      | inr g ↦ elim (Bool-cases (lacks_quorum replicas voted_on.0.num_final)) [
        | inl t ↦ inr (inr (inl (f, g, t, rw (f, g, t))))
        | inr h ↦ inr (inr (inr (f, g, h, rw (f, g, h))))
      ]
    ]
  ]

  -- Only an attempt that commits returns OK.
  pub attempt-ok : is_ok result.0.status ≡ true → Commits
  attempt-ok h = elim attempt-cases [
    | inl (t, e) ↦ absurd (refused e h)
    | inr (inl (f, t, e)) ↦ absurd (refused e h)
    | inr (inr (inl (f, g, t, e))) ↦ absurd (refused e h)
    | inr (inr (inr c)) ↦ c
  ]
    where
      refused : {u : World} → result ≡ (no_quorum, u) → is_ok result.0.status ≡ true → ⊥
      refused e h = cc (ap (λ (x : Reply Response × World). is_ok x.0.status) e)
