-- ===== src/Attempt/Promise.antt =====
-- No promise is ever written to a log.
use cs739_p2_replicated_data.Base.{ℕ, String, ◌≡◌, refl, ◌∙◌, true, false, arith, List, [], ◌∷◌}
use cs739_p2_replicated_data.Base.Int.{ℤ, pos, ltb_ℤ}
use cs739_p2_replicated_data.Base.Lists.{All-In}
use cs739_p2_replicated_data.Proto.{Request, LogEntry, is_ok}
use cs739_p2_replicated_data.Log.{entry}
use cs739_p2_replicated_data.ConsensusRpc.{propose, proposal_reply}
use cs739_p2_replicated_data.ConsensusRpc.Effects.{propose_lem, accepted_entry}
use cs739_p2_replicated_data.World.{
  World, Slot, Event, propose_at, accept_at, success_at, set_leader_at, set_kv_at,
  count_incoming_at, count_outgoing_at,
}
use cs739_p2_replicated_data.World.Laws.{Frame, Rel, Rel-chain, Rel-same, Calm, Allows}
use cs739_p2_replicated_data.Attempt.{Network, attempt_consensus}
use cs739_p2_replicated_data.Attempt.Slots.{
  OnEntry, Writes, OnEntry-Frame, ping-OnEntry, propose-OnEntry, accept-OnEntry, success-OnEntry,
  step-OnEntry,
}
use cs739_p2_replicated_data.Attempt.Whole.{attempt-Rel}
use cs739_p2_replicated_data.Attempt.History.{Turn, history}

abbrev SamePromise : LogEntry → LogEntry → Type 0
SamePromise e f = f.p_server_id ≡ e.p_server_id

module _ (key : String) (round : ℤ) where
  promise_same : (e : LogEntry) → SamePromise e e
  promise_same e = refl

  promise_chain : (e f g : LogEntry) → SamePromise e f → SamePromise f g → SamePromise e g
  promise_chain e f g p q = q ∙ p

  promise_writes : (r : Request) (e : LogEntry) → Unit {0} → SamePromise e (accepted_entry r e)
  promise_writes r e _ = refl

  abbrev frame : Frame (OnEntry key round SamePromise)
  frame = OnEntry-Frame key round {R = SamePromise} promise_same promise_chain

  any_event : (e : Event) → Allows (OnEntry key round SamePromise) e
  any_event e =
      step-OnEntry key round {R = SamePromise} promise_same promise_chain {P = λ _. Unit}
        promise_writes e (all_writes e)
    where
      all_writes : (e : Event) → Writes key round (λ _. Unit) e
      all_writes (accept_at a r) = λ _. tt
      all_writes (success_at a r) = λ _. tt
      all_writes (propose_at a r) = tt
      all_writes (set_leader_at a v) = tt
      all_writes (set_kv_at a k v) = tt
      all_writes (count_incoming_at a n) = tt
      all_writes (count_outgoing_at a n) = tt

  any_slot : (slot : Slot) → Calm (OnEntry key round SamePromise) slot
  any_slot slot = All-In _ slot.others (λ e _. any_event e)

  attempt-SamePromise :
      (self : String) (net : Network) (r : Request) (w : World)
      → Rel (OnEntry key round SamePromise) w (attempt_consensus self net r w).1
  attempt-SamePromise self net r w =
      attempt-Rel frame self net r w (λ phase a. any_slot (net phase a))
        (ping-OnEntry key round {R = SamePromise} promise_same promise_chain)
        (propose-OnEntry key round {R = SamePromise} promise_same promise_chain _)
        (λ _ c p.
          accept-OnEntry key round {R = SamePromise} promise_same promise_chain promise_writes _ c p
            (λ _. tt))
        (λ _ c p.
          success-OnEntry key round {R = SamePromise} promise_same promise_chain promise_writes _ c
            p (λ _. tt))

  history-SamePromise :
      (ts : List Turn) (w : World) → Rel (OnEntry key round SamePromise) w (history ts w)
  unfolding history
  history-SamePromise [] w = Rel-same frame w
  history-SamePromise (t ∷ ts) w =
      let w' : World = (attempt_consensus t.self t.net t.request w).1 in
      Rel-chain frame w w' (history ts w') (attempt-SamePromise t.self t.net t.request w)
        (history-SamePromise ts w')

-- No log has a promise.
abbrev pub NoPromise : World → Type 0
NoPromise w = (a key : String) (round : ℤ) → (entry key round (w a).pax_log).p_server_id ≡ pos 0

reply-ok :
    (r : Request) (e : LogEntry)
    → e.p_server_id ≡ pos 0
    → ltb_ℤ r.pserver_id (pos 0) ≡ false
    → is_ok (proposal_reply r e).status ≡ true
reply-ok r e h k = ground arith

-- Where no log has a promise, none has one after any series of attempts, whatever their networks
-- do and whichever handlers the other threads run meanwhile; and then no proposal with an id of 0
-- or more that is read in time is ever refused as out of date, but answered with OK.
pub history-NoPromise :
    (ts : List Turn) (w : World)
    → NoPromise w
    → NoPromise (history ts w)
      × ((a : String) (id : ℕ) (r : Request)
          → is_ok (propose false (record r { pserver_id = pos id }) (history ts w a)).0.status
            ≡ true)
history-NoPromise ts w none_yet =
    let still : NoPromise (history ts w) =
      λ a key round. history-SamePromise key round ts w a ∙ none_yet a key round in
    (
      still,
      (λ a id r.
          let q : Request = record r { pserver_id = pos id } in
          rw ((propose_lem false q (history ts w a)).0) (
            reply-ok q (entry q.key q.round (history ts w a).pax_log) (still a q.key q.round)
              (ground arith))),
    )
