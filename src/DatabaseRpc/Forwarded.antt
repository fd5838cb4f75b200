-- ===== src/DatabaseRpc/Forwarded.antt =====
-- A `set` that is forwarded from process to process is served by the leader.
use cs739_p2_replicated_data.Base.{
  ℕ, zero, suc, ◌≤◌, arith, String, ◌≡◌, refl, ap, ◌∙◌, Bool, true, false, [], ◌∷◌, List, some,
  str_eq,
}
use cs739_p2_replicated_data.Base.Lists.{All, All-map}
use cs739_p2_replicated_data.Map.{lookup, keys, string_key}
use cs739_p2_replicated_data.Proto.{SetRequest, Status, ok, failed, is_ok}
use cs739_p2_replicated_data.Database.{set_kv}
use cs739_p2_replicated_data.Process.{Node}
use cs739_p2_replicated_data.ConsensusRpc.Effects.{SameState}
use cs739_p2_replicated_data.World.{World}
use cs739_p2_replicated_data.World.Laws.{Rel}
use cs739_p2_replicated_data.Attempt.{attempt_consensus}
use cs739_p2_replicated_data.Attempt.Liveness.{CanCommit}
use cs739_p2_replicated_data.Attempt.Partition.{partition, reachable}
use cs739_p2_replicated_data.Attempt.Receive.{CanCommit-SameLog}
use cs739_p2_replicated_data.Election.{receive}
use cs739_p2_replicated_data.Election.Laws.{receive-SameState, receive-SameLog}
use cs739_p2_replicated_data.DatabaseRpc.{Hop, Weather, first, set, set_attempt}
use cs739_p2_replicated_data.DatabaseRpc.Laws.{IsFollower, by_leader-forwarded, at_once}
use cs739_p2_replicated_data.DatabaseRpc.Chains.{Chain, leads, follows, Chain-receive, AllArrive}
use cs739_p2_replicated_data.DatabaseRpc.Writes.{set_then_get}

ok_status : (s : Status) → is_ok s ≡ true → s ≡ ok
ok_status ok h = refl
ok_status (failed c m) h = cc h

-- One forwarded `set` that is answered with OK.
forwarded :
    (fuel : ℕ) (self : String) (weather : Weather) (request : SetRequest) (w : World) (node : Node)
    → IsFollower (w self)
    → lookup (w self).leader (w self).member_list ≡ some node
    → (weather []).forward first ≡ at_once
    → (set
        (suc fuel)
        node.consensus_endpoint
        (λ path. weather (first ∷ path))
        request
        false
        (receive self "DatabaseRPC::set" w)).0.status
      ≡ ok
    → set (suc (suc fuel)) self weather request false w
      ≡ set
          (suc fuel)
          node.consensus_endpoint
          (λ path. weather (first ∷ path))
          request
          false
          (receive self "DatabaseRPC::set" w)
unfolding set
forwarded fuel self weather request w node f k up fine =
    by_leader-forwarded tt (λ hop a. set (suc fuel) a (λ path. weather (hop ∷ path)) request) self
      (weather []) "DatabaseRPC::set"
      (λ v.
        let (resp, v') = attempt_consensus self (weather []).attempt (set_attempt request) v in
        (record { status = resp.status; response = tt }, v'))
      w node f k up fine

-- Each member that is up has its old store with the value set.
abbrev pub StoredBy : (String → Bool) → String → SetRequest → World → World → Type 0
StoredBy up lead request w w' =
    All (λ a. (w' a).kv_store ≡ set_kv request.key request.value (w a).kv_store)
      (reachable up (keys (w lead).member_list))

StoredBy-same :
    (up : String → Bool) (lead : String) (request : SetRequest) (w u v : World)
    → Rel SameState w u
    → StoredBy up lead request u v
    → StoredBy up lead request w v
StoredBy-same up lead request w u v here h =
    All-map (λ a. (v a).kv_store ≡ set_kv request.key request.value (u a).kv_store)
      (λ a. (v a).kv_store ≡ set_kv request.key request.value (w a).kv_store)
      (reachable up (keys (w lead).member_list))
      (λ a e. e ∙ ap (set_kv request.key request.value) (here a).kv_store)
      (rw (here lead).member_list at h)

-- Every attempt reaches the members that are up, with no other thread at work.
abbrev pub AllPartitioned : (String → Bool) → Weather → Type 0
AllPartitioned up weather = (path : List Hop) → (weather path).attempt ≡ partition up

module _ (up : String → Bool) (request : SetRequest)
    (ordinary : str_eq request.key "leader" ≡ false) where
  -- Where `n` processes forward a `set` of another key than "leader" one to the next, each call
  -- arrives, and the last process takes itself for the leader and can commit the request in a
  -- network that reaches the members that are up, any fuel above `n` is enough for the answer OK,
  -- and afterwards the store of each member that is up is its old store with the value set.
  pub set-Chain :
      (n fuel : ℕ) (self lead : String) (weather : Weather) (w : World)
      → n ≤ fuel
      → Chain w n self lead
      → AllArrive weather
      → AllPartitioned up weather
      → CanCommit up lead (set_attempt request) w
      → ((set (suc fuel) self weather request false w).0.status ≡ ok)
        × StoredBy up lead request w (set (suc fuel) self weather request false w).1
  set-Chain _ fuel _ _ weather w b (leads lead h) arrive net can =
      let served = set_then_get fuel lead weather request w up (net []) can ordinary h in
      (ok_status _ served.0, served.2)
  set-Chain _ zero _ _ weather w b (follows n self lead node f k c) arrive net can =
      absurd (omega (arith, b))
  set-Chain _ (suc fuel) _ _ weather w b (follows n self lead node f k c) arrive net can =
      let u : World = receive self "DatabaseRPC::set" w in
      let here : Rel SameState w u = receive-SameState self "DatabaseRPC::set" w in
      let inner =
        set-Chain n fuel node.consensus_endpoint lead (λ path. weather (first ∷ path)) u
          (omega (arith, b))
          (Chain-receive self "DatabaseRPC::set" w n node.consensus_endpoint lead c)
          (λ path. arrive (first ∷ path)) (λ path. net (first ∷ path))
          (CanCommit-SameLog up lead (set_attempt request) w u
            (receive-SameLog self "DatabaseRPC::set" w) can) in
      rw (forwarded fuel self weather request w node f k (arrive []) inner.0) (
        inner.0,
        StoredBy-same up lead request w u
            (set (suc fuel) node.consensus_endpoint (λ path. weather (first ∷ path)) request false
              u).1
            here inner.1,
      )
