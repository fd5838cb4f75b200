-- ===== src/Startup/Copies.antt =====
-- A process that starts with an empty store takes over the leader's store as it is.
use cs739_p2_replicated_data.Base.{String, ◌≡◌, refl, ◌∙◌, Option, none, some, [], ◌∷◌}
use cs739_p2_replicated_data.Map.{lookup, string_key}
use cs739_p2_replicated_data.Map.Sorted.{IsSorted, insert-IsSorted, keys-IsDistinct}
use cs739_p2_replicated_data.Map.Unique.{sorted_unique}
use cs739_p2_replicated_data.Database.{Store, set_kv}
use cs739_p2_replicated_data.Process.{Node}
use cs739_p2_replicated_data.ConsensusRpc.Effects.{SameState}
use cs739_p2_replicated_data.World.{World}
use cs739_p2_replicated_data.World.Laws.{Rel, update_self}
use cs739_p2_replicated_data.DatabaseRpc.Laws.{IsFollower, at_once}
use cs739_p2_replicated_data.DatabaseCall.{call_get_db}
use cs739_p2_replicated_data.Startup.{Launch, recover, set_all, store_all}
use cs739_p2_replicated_data.Startup.Laws.{lookup-set_all, or_own, call_get_db-at_once}

set_all-IsSorted : (db kv : Store) → IsSorted kv → IsSorted (set_all db kv)
unfolding set_all set_kv
set_all-IsSorted [] kv s = s
set_all-IsSorted ((k, v) ∷ db) kv s = set_all-IsSorted db (set_kv k v kv) (insert-IsSorted k v kv s)

or_nothing : (o : Option String) → or_own o none ≡ o
or_nothing none = refl
or_nothing (some v) = refl

set_all_empty : (db : Store) → IsSorted db → set_all db [] ≡ db
set_all_empty db s =
    sorted_unique (set_all db []) db (set_all-IsSorted db [] (unfold IsSorted in tt)) s (λ k.
      lookup-set_all db [] k (keys-IsDistinct db s) ∙ (unfold lookup in or_nothing (lookup k db)))

-- A process whose store is empty, which knows another member for the leader and reaches it,
-- has exactly the leader's store when it has recovered, if the keys of that store ascend.
pub recovery_copies :
    (self : String) (launch : Launch) (w : World) (node : Node)
    → IsFollower (w self)
    → lookup (w self).leader (w self).member_list ≡ some node
    → launch.recovery ≡ at_once
    → IsSorted (w node.consensus_endpoint).kv_store
    → (w self).kv_store ≡ []
    → (w' : World) × (recover self launch w ≡ some w')
      × ((w' self).kv_store ≡ (w node.consensus_endpoint).kv_store)
unfolding recover
recovery_copies self launch w node follower known up sorted fresh = (
  store_all self got.0 got.1,
  rw (follower.known, follower.other, known) refl,
  rw
      (update_self got.1 self
        (record (got.1 self) { kv_store = set_all got.0 (got.1 self).kv_store }))
      (rw (reached.0, (reached.1 self).kv_store, fresh) (set_all_empty (w lead).kv_store sorted)),
)
  where
    lead : String
    lead = node.consensus_endpoint

    got : Store × World
    got = call_get_db self launch.recovery lead w

    reached : (got.0 ≡ (w lead).kv_store) × Rel SameState w got.1
    reached = call_get_db-at_once self lead launch.recovery w up
