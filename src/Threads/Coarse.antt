-- ===== src/Threads/Coarse.antt =====
-- Threads step by step against whole handlers one after the other.
use cs739_p2_replicated_data.Base.{
  ℕ, String, ◌≡◌, refl, true, false, arith, List, [], ◌∷◌, ◌++◌, nat_eq,
}
use cs739_p2_replicated_data.Proto.{Request}
use cs739_p2_replicated_data.Log.Laws.{read-get_log_entry}
use cs739_p2_replicated_data.Log.Same.{SameRounds, get_log_entry-set_log, entry-SameRounds}
use cs739_p2_replicated_data.Process.{Process}
use cs739_p2_replicated_data.ConsensusRpc.{propose}
use cs739_p2_replicated_data.ConsensusRpc.Effects.{propose_lem}
use cs739_p2_replicated_data.World.{World, Event, step, steps}
use cs739_p2_replicated_data.World.Laws.{update_self}
use cs739_p2_replicated_data.Threads.{
  Thread, propose_start, propose_write, propose_read, accept_start, accept_read, accept_write,
  success_start, success_write, success_read, success_apply, answered, informed, advance, System,
  turn, run, events_of,
}
use cs739_p2_replicated_data.Threads.Agrees.{
  Agrees, Agrees-count_incoming, Agrees-count_incoming₂, propose-Agrees, accept-Agrees,
  read_key-Agrees, apply-Agrees,
}

-- One step of a thread, against its events at a process that showed the same before.
advance-Agrees :
    (a : String) (w : World) (t : Thread) (p : Process)
    → Agrees p (w a)
    → Agrees (advance t p).1 (steps (events_of a t) w a)
unfolding advance steps step
advance-Agrees a w (propose_start c r) p h =
    rw (update_self w a _) (Agrees-count_incoming _ _ _ (Agrees-count_incoming₂ _ _ _ h))
advance-Agrees a w (propose_write r) p h = rw (update_self w a _) (propose-Agrees r p (w a) h)
advance-Agrees a w (propose_read r) p h =
    rw (update_self w a _, get_log_entry-set_log r.key r.round p.pax_log)
      (propose-Agrees r p (w a) h)
advance-Agrees a w (accept_start c r) p h =
    rw (update_self w a _) (Agrees-count_incoming _ _ _ (Agrees-count_incoming₂ _ _ _ h))
advance-Agrees a w (accept_read r) p h =
    rw (update_self w a _, get_log_entry-set_log r.key r.round p.pax_log)
      (propose-Agrees r p (w a) h)
advance-Agrees a w (accept_write r) p h = rw (update_self w a _) (accept-Agrees r p (w a) h)
advance-Agrees a w (success_start c r) p h =
    rw (update_self w a _) (Agrees-count_incoming _ _ _ (Agrees-count_incoming₂ _ _ _ h))
advance-Agrees a w (success_write r) p h = rw (update_self w a _) (accept-Agrees r p (w a) h)
advance-Agrees a w (success_read r) p h = read_key-Agrees r p (w a) h
advance-Agrees a w (success_apply r) p h = apply-Agrees a w r p h
advance-Agrees a w (answered reply) p h = h
advance-Agrees a w (informed reply) p h = h

-- The events of a schedule, in the order of its steps.
unfoldable pub trace : String → List ℕ → System → List Event
unfolding turn
trace a [] s = []
trace a (i ∷ schedule) s = events_of a (s.thread i) ++ trace a schedule (turn i s)

steps-append : (es fs : List Event) (w : World) → steps (es ++ fs) w ≡ steps fs (steps es w)
unfolding steps
steps-append [] fs w = refl
steps-append (e ∷ es) fs w = steps-append es fs (step w e)

-- Let two processes show the same: the same rounds of every key in the log, store, leader and
-- members. Then, whatever the order in which the threads of the one move, it shows the same as the
-- other at which the events of these steps happen one after the other: whole proposals and
-- acceptances, counts, and single writes of the store and the leader.
pub run-Agrees :
    (a : String) (schedule : List ℕ) (s : System) (w : World)
    → Agrees s.process (w a)
    → Agrees (run schedule s).process (steps (trace a schedule s) w a)
unfolding run trace turn steps
run-Agrees a [] s w h = h
run-Agrees a (i ∷ schedule) s w h =
    rw (steps-append (events_of a (s.thread i)) (trace a schedule (turn i s)) w) (
      run-Agrees a schedule (turn i s) (steps (events_of a (s.thread i)) w)
        (advance-Agrees a w (s.thread i) s.process h))

nat_eq_refl : (i : ℕ) → nat_eq i i ≡ true
nat_eq_refl i = ground arith

-- In any order of the threads' steps, a proposal that is about to read the log gets, by its next
-- step, the reply of a whole proposal after the events of the steps so far.
pub proposal_reply-run :
    (a : String) (schedule : List ℕ) (s : System) (w : World) (i : ℕ) (r : Request)
    → Agrees s.process (w a)
    → (run schedule s).thread i ≡ propose_read r
    → (turn i (run schedule s)).thread i
      ≡ answered (propose false r (steps (trace a schedule s) w a)).0
unfolding turn advance
proposal_reply-run a schedule s w i r h e =
    let p : Process = (run schedule s).process in
    let w' : World = steps (trace a schedule s) w in
    let same : SameRounds p.pax_log (w' a).pax_log = (run-Agrees a schedule s w h).rounds in
    rw
      (
        e,
        nat_eq_refl i,
        read-get_log_entry r.key r.round p.pax_log,
        (propose_lem false r (w' a)).0,
        entry-SameRounds r.key r.round p.pax_log (w' a).pax_log same,
      )
      refl
