-- ===== src/World.antt =====
-- The running processes, by consensus address, and what the network and the other threads do
-- around one remote call. Each handler is one step; steps of different calls interleave freely.
pub mod Laws
pub mod Counts
use cs739_p2_replicated_data.Base.{String, List, [], ◌∷◌, true, false, Bool, str_eq, if◌then◌else◌}
use cs739_p2_replicated_data.Proto.{
  Request, Status, failed, deadline_exceeded, unavailable, Reply, empty_response,
}
use cs739_p2_replicated_data.Database.{set_kv}
use cs739_p2_replicated_data.Process.{Process, count_incoming, count_outgoing}
use cs739_p2_replicated_data.ConsensusRpc.{propose, accept, success}

-- Where nothing runs at an address, every call to it is `unreachable`.
abbrev pub World : Type 0
World = String → Process

abbrev pub update : World → String → Process → World
update w a p b = if str_eq a b then p else w b

-- What becomes of one call. A request that is handled after its caller gave up is `unreachable`
-- for the caller, and an event of a later slot.
pub data Delivery : Type 0 where
  delivered : Delivery
  expired : Delivery
  reply_lost : Delivery
  unreachable : Delivery

-- A step of another thread, at the process with the given address: an incoming request, or a
-- write of `elect_leader` or `coordinate`.
pub data Event : Type 0 where
  propose_at accept_at success_at : String → Request → Event
  set_leader_at : String → String → Event
  set_kv_at : String → String → String → Event
  count_incoming_at count_outgoing_at : String → String → Event

-- One remote call: the steps of others since the caller's last call, and the call's fate.
pub record Slot : Type 0 where
  pub others : List Event
  pub delivery : Delivery

unfoldable pub step : World → Event → World
unfolding set_kv
step w (propose_at a r) = update w a (propose false r (w a)).1
step w (accept_at a r) = update w a (accept false r (w a)).1
step w (success_at a r) = update w a (success false r (w a)).1
step w (set_leader_at a v) = update w a (record (w a) { leader = v })
step w (set_kv_at a k v) = update w a (record (w a) { kv_store = set_kv k v (w a).kv_store })
step w (count_incoming_at a n) = update w a (count_incoming n (w a))
step w (count_outgoing_at a n) = update w a (count_outgoing n (w a))

unfoldable pub steps : List Event → World → World
steps [] w = w
steps (e ∷ es) w = steps es (step w e)

abbrev pub no_reply : Status
no_reply = failed deadline_exceeded "Deadline Exceeded"

abbrev pub no_connection : Status
no_connection = failed unavailable "failed to connect to all addresses"

module _ {A : Type 0} (empty : A) (handler : Bool → Process → Reply A × Process) where
  unfoldable pub deliver : Delivery → String → World → Reply A × World
  deliver delivered a w = let (r, p) = handler false (w a) in (r, update w a p)
  deliver expired a w =
      (record { status = no_reply; response = empty }, update w a (handler true (w a)).1)
  deliver reply_lost a w =
      (record { status = no_reply; response = empty }, update w a (handler false (w a)).1)
  deliver unreachable a w = (record { status = no_connection; response = empty }, w)

  -- A generated gRPC stub: the call, in its slot.
  unfoldable pub stub : Slot → String → World → Reply A × World
  unfolding deliver steps
  stub slot a w = deliver slot.delivery a (steps slot.others w)

-- The caller counts the call before it makes it.
unfoldable pub count_call : String → String → World → World
count_call self name w = update w self (count_outgoing name (w self))
