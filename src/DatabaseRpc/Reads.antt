-- ===== src/DatabaseRpc/Reads.antt =====
-- `DatabaseRPC::get` at the leader, and a `get` whose deadline has passed.
use cs739_p2_replicated_data.Base.{
  ℕ, suc, String, ◌≡◌, refl, true, false, inl, inr, Option-cases, [], ◌∷◌,
}
use cs739_p2_replicated_data.Map.{lookup, get_or, string_key}
use cs739_p2_replicated_data.Proto.{GetResponse, empty_get_response, ok, Reply}
use cs739_p2_replicated_data.Process.{Process}
use cs739_p2_replicated_data.Database.{get_kv}
use cs739_p2_replicated_data.ConsensusRpc.{give_up}
use cs739_p2_replicated_data.ConsensusRpc.Effects.{SameState}
use cs739_p2_replicated_data.World.{World}
use cs739_p2_replicated_data.Election.{receive}
use cs739_p2_replicated_data.Election.Laws.{receive-SameState}
use cs739_p2_replicated_data.DatabaseRpc.{Weather, local_get, by_leader, get}
use cs739_p2_replicated_data.DatabaseRpc.Laws.{IsLeader, by_leader-IsLeader}

abbrev arrived : String → World → World
arrived self w = receive self "DatabaseRPC::get" w

abbrev pub answer : GetResponse → Reply GetResponse
answer r = record { status = ok; response = r }

pub local_get-SameState :
    (key : String) (p q : Process) → SameState p q → local_get key q ≡ local_get key p
unfolding local_get
local_get-SameState key p q h = rw (h.kv_store) refl

-- The text of the leader's own answer: its store's value, or none.
pub value-local_get :
    (key : String) (p : Process) → (local_get key p).value ≡ get_or key "" p.kv_store
unfolding local_get get_kv get_or
value-local_get key p = elim (Option-cases (lookup key p.kv_store)) [
  | inl e ↦ rw (e, get_kv, get_or) refl
  | inr (v, e) ↦ rw (e, get_kv, get_or) refl
]

module _ (fuel : ℕ) (self : String) (weather : Weather) (key : String) (w : World) where
  -- A request whose deadline has passed.
  pub get-cancelled :
      get (suc fuel) self weather key true w
      ≡ (record { status = give_up; response = empty_get_response }, arrived self w)
  unfolding get by_leader
  get-cancelled = refl

  -- The leader answers out of its own store, and changes only its counters.
  pub get-IsLeader :
      IsLeader (w self)
      → get (suc fuel) self weather key false w ≡ (answer (local_get key (w self)), arrived self w)
  unfolding get
  get-IsLeader h =
      rw
        (by_leader-IsLeader empty_get_response
          (λ hop a. get fuel a (λ path. weather (hop ∷ path)) key) self (weather [])
          "DatabaseRPC::get" (λ u. (answer (local_get key (u self)), u)) w h)
        (rw
          (local_get-SameState key (w self) (arrived self w self)
            (receive-SameState self "DatabaseRPC::get" w self))
          refl)
