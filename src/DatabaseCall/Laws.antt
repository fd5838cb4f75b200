-- ===== src/DatabaseCall/Laws.antt =====
-- What a user reads through a process that need not be the leader.
use cs739_p2_replicated_data.Base.{ℕ, suc, ◌≤◌, false, String, ◌≡◌, refl, ap, ◌∙◌, []}
use cs739_p2_replicated_data.Map.{get_or, string_key}
use cs739_p2_replicated_data.ConsensusRpc.Effects.{SameState}
use cs739_p2_replicated_data.World.{
  World, Delivery, delivered, expired, reply_lost, unreachable, Slot, steps, count_call,
}
use cs739_p2_replicated_data.World.Laws.{Rel, Rel-chain, Rel-count_call}
use cs739_p2_replicated_data.Attempt.Abort.{SameState-Frame}
use cs739_p2_replicated_data.Attempt.Settings.{SameSettings, SameSettings-Frame}
use cs739_p2_replicated_data.Election.{remote}
use cs739_p2_replicated_data.Election.Laws.{receive-SameState}
use cs739_p2_replicated_data.DatabaseRpc.{Weather, local_get, get}
use cs739_p2_replicated_data.DatabaseRpc.Reads.{answer, value-local_get, get-cancelled}
use cs739_p2_replicated_data.DatabaseRpc.Chains.{Chain, Chain-same, AllArrive, get-Chain}
use cs739_p2_replicated_data.DatabaseCall.{call_get, text_of}

-- The user's own call, with no other thread at work before it.
abbrev pub alone : Delivery → Slot
alone fate = record { others = []; delivery = fate }

-- What the user sees where the leader's store holds `value`.
abbrev pub seen : Delivery → String → String
seen delivered value = value
seen expired value = "RPC failed !"
seen reply_lost value = "RPC failed !"
seen unreachable value = "RPC failed !"

-- Let no other thread be at work. Where `n` processes, from `self` on, forward a `get` one to the
-- next, each of these calls arrives, and the last process takes itself for the leader, any fuel
-- above `n` is enough: the user's `get` at `self` returns the value of the key in the leader's
-- store, "" if the store has no such key; if the user's own call expires, does not arrive, or its
-- reply is lost, it returns "RPC failed !". No process's leader, store or member list changes.
pub user_reads_leader :
    (n fuel : ℕ) (user self lead : String) (fate : Delivery) (weather : Weather) (key : String)
    (w : World)
    → n ≤ fuel
    → Chain w n self lead
    → AllArrive weather
    → ((call_get user (alone fate) self (suc fuel) weather key w).0
        ≡ seen fate (get_or key "" (w lead).kv_store))
      × Rel SameState w (call_get user (alone fate) self (suc fuel) weather key w).1
unfolding call_get remote steps
user_reads_leader n fuel user self lead fate weather key w enough chain arrive =
    elim fate
      as (λ d.
        ((call_get user (alone d) self (suc fuel) weather key w).0
          ≡ seen d (get_or key "" (w lead).kv_store))
        × Rel SameState w (call_get user (alone d) self (suc fuel) weather key w).1) [
          | delivered ↦ (ap text_of served.0 ∙ value, after served.1)
          | expired ↦
              rw (get-cancelled fuel self weather key u)
                (refl, after (receive-SameState self "DatabaseRPC::get" u))
          | reply_lost ↦ (refl, after served.1)
          | unreachable ↦ (refl, counted)
        ]
  where
    u : World
    u = count_call user "DatabaseRPCWrapperCall::get" w

    counted : Rel SameState w u
    counted = Rel-count_call SameState-Frame user "DatabaseRPCWrapperCall::get" w

    settings : Rel SameSettings w u
    settings = Rel-count_call SameSettings-Frame user "DatabaseRPCWrapperCall::get" w

    served :
        ((get (suc fuel) self weather key false u).0 ≡ answer (local_get key (u lead)))
        × Rel SameState u (get (suc fuel) self weather key false u).1
    served =
        get-Chain n fuel self lead weather key u enough
          (Chain-same w u n self lead counted settings chain) arrive

    after : {v : World} → Rel SameState u v → Rel SameState w v
    after {v} h = Rel-chain SameState-Frame w u v counted h

    value : (local_get key (u lead)).value ≡ get_or key "" (w lead).kv_store
    value = value-local_get key (u lead) ∙ ap (λ m. get_or key "" m) ((counted lead).kv_store)
