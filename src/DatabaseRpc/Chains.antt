-- ===== src/DatabaseRpc/Chains.antt =====
-- A `get` that is forwarded from process to process ends at the leader.
use cs739_p2_replicated_data.Base.{
  ℕ, zero, suc, ◌≤◌, arith, String, ◌≡◌, refl, ap, ◌∙◌, false, [], ◌∷◌, List, some,
}
use cs739_p2_replicated_data.Map.{lookup, string_key}
use cs739_p2_replicated_data.Proto.{GetResponse, empty_get_response, ok, Reply}
use cs739_p2_replicated_data.Process.{Node}
use cs739_p2_replicated_data.ConsensusRpc.Effects.{SameState}
use cs739_p2_replicated_data.World.{World}
use cs739_p2_replicated_data.World.Laws.{Rel, Rel-chain}
use cs739_p2_replicated_data.Attempt.Abort.{SameState-Frame}
use cs739_p2_replicated_data.Attempt.Settings.{SameSettings}
use cs739_p2_replicated_data.Election.{receive}
use cs739_p2_replicated_data.Election.Laws.{receive-SameState, receive-SameSettings}
use cs739_p2_replicated_data.DatabaseRpc.{Hop, Weather, first, local_get, get}
use cs739_p2_replicated_data.DatabaseRpc.Laws.{
  IsLeader, IsFollower, IsLeader-same, IsFollower-same, by_leader-forwarded, at_once,
}
use cs739_p2_replicated_data.DatabaseRpc.Reads.{answer, local_get-SameState, get-IsLeader}

-- `self` takes another process for the leader, and that one another, until after `n` such
-- steps `lead` takes itself for the leader.
pub data Chain (w : World) : ℕ → String → String → Type 0 where
  leads : (lead : String) → IsLeader (w lead) → Chain w 0 lead lead
  follows :
      (n : ℕ) (self lead : String) (node : Node)
      → IsFollower (w self)
      → lookup (w self).leader (w self).member_list ≡ some node
      → Chain w n node.consensus_endpoint lead
      → Chain w (suc n) self lead

pub Chain-same :
    (w u : World) (n : ℕ) (self lead : String)
    → Rel SameState w u
    → Rel SameSettings w u
    → Chain w n self lead
    → Chain u n self lead
Chain-same w u _ _ _ same kept (leads lead h) =
    leads lead (IsLeader-same (w lead) (u lead) (same lead).leader (kept lead).config h)
Chain-same w u _ _ _ same kept (follows n self lead node f k c) =
    follows n self lead node
      (IsFollower-same (w self) (u self) (same self).leader (kept self).config f)
      (rw ((same self).leader, (same self).member_list) k)
      (Chain-same w u n node.consensus_endpoint lead same kept c)

pub Chain-receive :
    (at name : String) (w : World) (n : ℕ) (self lead : String)
    → Chain w n self lead
    → Chain (receive at name w) n self lead
Chain-receive at name w n self lead =
    Chain-same w (receive at name w) n self lead (receive-SameState at name w)
      (receive-SameSettings at name w)

-- Every forwarded request arrives.
abbrev pub AllArrive : Weather → Type 0
AllArrive weather = (path : List Hop) → (weather path).forward first ≡ at_once

-- One forwarded `get` that is answered with OK.
forwarded :
    (fuel : ℕ) (self : String) (weather : Weather) (key : String) (w : World) (node : Node)
    → IsFollower (w self)
    → lookup (w self).leader (w self).member_list ≡ some node
    → (weather []).forward first ≡ at_once
    → (get
        (suc fuel)
        node.consensus_endpoint
        (λ path. weather (first ∷ path))
        key
        false
        (receive self "DatabaseRPC::get" w)).0.status
      ≡ ok
    → get (suc (suc fuel)) self weather key false w
      ≡ get
          (suc fuel)
          node.consensus_endpoint
          (λ path. weather (first ∷ path))
          key
          false
          (receive self "DatabaseRPC::get" w)
unfolding get
forwarded fuel self weather key w node f k up fine =
    by_leader-forwarded empty_get_response
      (λ hop a. get (suc fuel) a (λ path. weather (hop ∷ path)) key) self (weather [])
      "DatabaseRPC::get" (λ v. (answer (local_get key (v self)), v)) w node f k up fine

-- Where `n` processes forward a `get` one to the next, and each call arrives, any fuel above `n`
-- is enough: the answer is OK with what the store of the last process, which takes itself for the
-- leader, holds for the key, and no process's leader, store or member list changes.
pub get-Chain :
    (n fuel : ℕ) (self lead : String) (weather : Weather) (key : String) (w : World)
    → n ≤ fuel
    → Chain w n self lead
    → AllArrive weather
    → ((get (suc fuel) self weather key false w).0 ≡ answer (local_get key (w lead)))
      × Rel SameState w (get (suc fuel) self weather key false w).1
get-Chain _ fuel _ _ weather key w b (leads lead h) arrive =
    rw (get-IsLeader fuel lead weather key w h) (refl, receive-SameState lead "DatabaseRPC::get" w)
get-Chain _ zero _ _ weather key w b (follows n self lead node f k c) arrive =
    absurd (omega (arith, b))
get-Chain _ (suc fuel) _ _ weather key w b (follows n self lead node f k c) arrive =
    let u : World = receive self "DatabaseRPC::get" w in
    let here : Rel SameState w u = receive-SameState self "DatabaseRPC::get" w in
    let inner =
      get-Chain n fuel node.consensus_endpoint lead (λ path. weather (first ∷ path)) key u
        (omega (arith, b))
        (Chain-receive self "DatabaseRPC::get" w n node.consensus_endpoint lead c)
        (λ path. arrive (first ∷ path)) in
    let fine = ap (λ (x : Reply GetResponse). x.status) inner.0 in
    rw (forwarded fuel self weather key w node f k (arrive []) fine) (
      inner.0 ∙ ap answer (local_get-SameState key (w lead) (u lead) (here lead)),
      Rel-chain SameState-Frame w u _ here inner.1,
    )
