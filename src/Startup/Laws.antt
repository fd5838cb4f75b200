-- ===== src/Startup/Laws.antt =====
-- What a process has after it has recovered from the leader.
use cs739_p2_replicated_data.Base.{
  String, ◌≡◌, refl, ap, ◌∙◌, Bool, false, ◌⊎◌, inl, inr, Option, none, some, [], ◌∷◌, str_eq,
  eq_iff, if◌then◌else◌, Bool-cases,
}
use cs739_p2_replicated_data.Base.Lists.{In, IsDistinct}
use cs739_p2_replicated_data.Map.{lookup, keys, string_key}
use cs739_p2_replicated_data.Database.{Store, set_kv}
use cs739_p2_replicated_data.Process.{Process, Node}
use cs739_p2_replicated_data.ConsensusRpc.Effects.{SameState, count_incoming-SameState}
use cs739_p2_replicated_data.World.{World, Slot, stub, deliver, steps, count_call, update}
use cs739_p2_replicated_data.World.Laws.{Rel, Rel-chain, Rel-update, Rel-count_call, update_self}
use cs739_p2_replicated_data.Attempt.Abort.{SameState-Frame}
use cs739_p2_replicated_data.DatabaseRpc.{get_full_db}
use cs739_p2_replicated_data.DatabaseRpc.Laws.{IsFollower, at_once}
use cs739_p2_replicated_data.DatabaseCall.{call_get_db}
use cs739_p2_replicated_data.Database.Laws.{lookup-set_kv}
use cs739_p2_replicated_data.Startup.{Launch, recover, set_all, store_all}

lookup-missing : (k : String) (db : Store) → ¬ In k (keys db) → lookup k db ≡ none
unfolding lookup keys
lookup-missing k [] h = refl
lookup-missing k ((j, v) ∷ db) h = elim (Bool-cases (str_eq j k)) [
  | inl t ↦ absurd (h (inl ((eq_iff j k).0 t)))
  | inr f ↦ rw f (lookup-missing k db (λ m. h (inr m)))
]

-- The leader's value, or else the own one.
abbrev pub or_own : Option String → Option String → Option String
or_own (some v) o = some v
or_own none o = o

-- The store after the loop has the leader's values, and its own for the leader's missing keys.
pub lookup-set_all :
    (db kv : Store) (j : String)
    → IsDistinct (keys db)
    → lookup j (set_all db kv) ≡ or_own (lookup j db) (lookup j kv)
unfolding set_all keys
lookup-set_all [] kv j d = unfold lookup in refl
lookup-set_all ((k, v) ∷ db) kv j d =
    lookup-set_all db (set_kv k v kv) j d.1
    ∙ ap (or_own (lookup j db)) (lookup-set_kv k j v kv)
    ∙ step
  where
    step :
        or_own (lookup j db) (if str_eq k j then some v else lookup j kv)
        ≡ or_own (lookup j ((k, v) ∷ db)) (lookup j kv)
    step = elim (Bool-cases (str_eq k j)) [
      | inl t ↦
          unfold lookup in rw (t, lookup-missing j db (λ m. d.0 (rw ((eq_iff k j).0 t) m))) refl
      | inr f ↦ unfold lookup in rw f refl
    ]

get_full_db-SameState : (c : Bool) (p : Process) → SameState p (get_full_db c p).1
unfolding get_full_db
get_full_db-SameState c p = count_incoming-SameState "DatabaseRPC::get_db" p

get_full_db-store : (c : Bool) (p : Process) → (get_full_db c p).0.response ≡ p.kv_store
unfolding get_full_db
get_full_db-store c p = (count_incoming-SameState "DatabaseRPC::get_db" p).kv_store

-- A call that reaches the process has its store, and changes counters only.
pub call_get_db-at_once :
    (self a : String) (slot : Slot) (w : World)
    → slot ≡ at_once
    → ((call_get_db self slot a w).0 ≡ (w a).kv_store)
      × Rel SameState w (call_get_db self slot a w).1
unfolding call_get_db stub deliver steps
call_get_db-at_once self a slot w h =
    let f = SameState-Frame in
    let u : World = count_call self "DatabaseRPCWrapperCall::get_db" w in
    let counted : Rel SameState w u = Rel-count_call f self "DatabaseRPCWrapperCall::get_db" w in
    rw h (
      get_full_db-store false (u a) ∙ (counted a).kv_store,
      Rel-chain f w u (update u a (get_full_db false (u a)).1) counted
          (Rel-update f u a _ (get_full_db-SameState false (u a))),
    )

-- A process that knows another member for the leader, and reaches it, recovers: for every key its
-- store then has the leader's value, or its own old value where the leader has none, it has the
-- same leader as before, and each other process has the leader, the store and the member list that
-- it had. The leader's store is a map, with no key twice.
pub recovery_merges :
    (self : String) (launch : Launch) (w : World) (node : Node)
    → IsFollower (w self)
    → lookup (w self).leader (w self).member_list ≡ some node
    → launch.recovery ≡ at_once
    → IsDistinct (keys (w node.consensus_endpoint).kv_store)
    → (w' : World) × (recover self launch w ≡ some w')
      × ((w' self).leader ≡ (w self).leader)
      × ((j : String)
          → lookup j (w' self).kv_store
            ≡ or_own (lookup j (w node.consensus_endpoint).kv_store) (lookup j (w self).kv_store))
      × ((a : String) → (self ≡ a) ⊎ SameState (w a) (w' a))
unfolding recover
recovery_merges self launch w node follower known up distinct = (
  store_all self got.0 got.1,
  rw (follower.known, follower.other, known) refl,
  rw
      (update_self got.1 self
        (record (got.1 self) { kv_store = set_all got.0 (got.1 self).kv_store }))
      (reached.1 self).leader,
  (λ j.
      rw
        (update_self got.1 self
          (record (got.1 self) { kv_store = set_all got.0 (got.1 self).kv_store }))
        (rw (reached.0, (reached.1 self).kv_store)
          (lookup-set_all (w lead).kv_store (w self).kv_store j distinct))),
  (λ a. elim (Bool-cases (str_eq self a)) [
    | inl t ↦ inl ((eq_iff self a).0 t)
    | inr f ↦ inr (rw f (reached.1 a))
  ]),
)
  where
    lead : String
    lead = node.consensus_endpoint

    got : Store × World
    got = call_get_db self launch.recovery lead w

    reached : (got.0 ≡ (w lead).kv_store) × Rel SameState w got.1
    reached = call_get_db-at_once self lead launch.recovery w up
