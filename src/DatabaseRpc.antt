-- ===== src/DatabaseRpc.antt =====
-- src/rpc.cc, `DatabaseRPC`: the requests of users, answered by the leader. The database endpoint
-- of a member is that of the process with the member's consensus address, since the program takes
-- each database port to lie 1000 above the consensus port.
pub mod Laws
pub mod Reads
pub mod Chains
pub mod Failover
pub mod Takeover
pub mod Forwarded
pub mod Writes
use cs739_p2_replicated_data.Base.{
  ℕ, zero, suc, String, Bool, true, false, Option, none, some, List, [], ◌∷◌, str_eq, if◌then◌else◌,
}
use cs739_p2_replicated_data.Base.Int.{ℤ, pos, eqb_ℤ}
use cs739_p2_replicated_data.Map.{lookup, string_key}
use cs739_p2_replicated_data.Proto.{
  Request, empty_request, GetResponse, empty_get_response, SetRequest, Status, ok, failed, aborted,
  unknown, is_ok, Reply,
}
use cs739_p2_replicated_data.Database.{Store, get_kv, get_db}
use cs739_p2_replicated_data.Process.{Process, own_address, count_incoming}
use cs739_p2_replicated_data.ConsensusRpc.{give_up}
use cs739_p2_replicated_data.World.{World, Slot, steps, no_reply}
use cs739_p2_replicated_data.Attempt.{Network, attempt_consensus}
use cs739_p2_replicated_data.Election.{remote, receive, trigger_election}

abbrev pub no_leader_set : Status
no_leader_set = failed aborted "No leader set"

abbrev pub no_suitable_leader : Status
no_suitable_leader = failed aborted "Could not find a suitable leader."

abbrev pub new_leader_failed : Status
new_leader_failed = failed aborted "New leader was not able to get value."

-- gRPC's answer where a handler throws, here `std::out_of_range` from `memberList->at`
abbrev pub unexpected : Status
unexpected = failed unknown "Unexpected error in RPC handling"

-- The two calls by which a handler forwards its request.
pub data Hop : Type 0 where
  first again : Hop

-- What happens around one run of a handler: its two forwarded calls, the election that it may
-- trigger, and the attempt that the election or the handler itself makes.
pub record Conditions : Type 0 where
  pub forward : Hop → Slot
  pub election : Slot
  pub attempt : Network

-- The conditions of a handler, and of those that run its forwarded requests.
abbrev pub Weather : Type 0
Weather = List Hop → Conditions

-- The answer to a `get` out of the leader's own store.
unfoldable pub local_get : String → Process → GetResponse
local_get key p =
    let (value, error) = get_kv key p.kv_store in
    if eqb_ℤ error (pos 0)
    then record empty_get_response { value = value }
    else record { value = ""; error = pos 1 }

-- The shape that `get` and `set` share when the leader is another process: forward the request,
-- elect a leader if that fails, and forward it once more.
module _ {A : Type 0} (empty : A) (run : Hop → String → Bool → World → Reply A × World)
    (self : String) (c : Conditions) where
  -- `Cluster::memberList->at(Cluster::leader)->databaseEndpoint.stub->stub`, and the call
  unfoldable pub forward_to_leader :
      Hop → World → (Reply A → World → Reply A × World) → Reply A × World
  forward_to_leader hop w next = elim (lookup (w self).leader (w self).member_list) [
    | none ↦ (record { status = unexpected; response = empty }, w)
    | some node ↦
        let (r, w') =
          remote empty (run hop node.consensus_endpoint) (c.forward hop).delivery
            (steps (c.forward hop).others w) in
        next r w'
  ]

  unfoldable pub second_try : World → Reply A × World
  unfolding forward_to_leader
  second_try w = forward_to_leader again w λ r w'.
      if is_ok r.status
      then (record { status = ok; response = r.response }, w')
      else (record { status = new_leader_failed; response = empty }, w')

  unfoldable pub forward_request : World → Reply A × World
  unfolding forward_to_leader second_try
  forward_request w = forward_to_leader first w λ r w₁. elim (is_ok r.status) [
    | true ↦ (record { status = ok; response = r.response }, w₁)
    | false ↦
        let (e, w₂) =
          trigger_election self (w₁ self).current_node.consensus_endpoint c.election c.attempt w₁ in
        elim (is_ok e.status) [
          | true ↦ second_try w₂
          | false ↦ (record { status = no_suitable_leader; response = empty }, w₂)
        ]
  ]

  -- The start of both handlers: `own` answers where this process is the leader.
  unfoldable pub by_leader : String → (World → Reply A × World) → Bool → World → Reply A × World
  unfolding forward_request
  by_leader name own is_cancelled w₀ =
      let w : World = receive self name w₀ in
      elim is_cancelled [
        | true ↦ (record { status = give_up; response = empty }, w)
        | false ↦ elim (str_eq (w self).leader "") [
          | true ↦ (record { status = no_leader_set; response = empty }, w)
          | false ↦ elim (str_eq (w self).leader (own_address (w self))) [
            | true ↦ own w
            | false ↦ forward_request w
          ]
        ]
      ]

-- `get`. A chain of forwarded requests as long as the fuel ends by its deadline.
unfoldable pub get : ℕ → String → Weather → String → Bool → World → Reply GetResponse × World
get zero self weather key is_cancelled w =
    (record { status = no_reply; response = empty_get_response }, w)
get (suc fuel) self weather key is_cancelled w =
    by_leader empty_get_response (λ hop a. get fuel a (λ path. weather (hop ∷ path)) key) self
      (weather []) "DatabaseRPC::get"
      (λ u. (record { status = ok; response = local_get key (u self) }, u)) is_cancelled w

abbrev pub set_attempt : SetRequest → Request
set_attempt request = record empty_request { key = request.key; value = request.value }

-- `set`: the value is stored by the success phase of the attempt.
unfoldable pub set : ℕ → String → Weather → SetRequest → Bool → World → Reply Unit × World
set zero self weather request is_cancelled w = (record { status = no_reply; response = tt }, w)
set (suc fuel) self weather request is_cancelled w =
    by_leader tt (λ hop a. set fuel a (λ path. weather (hop ∷ path)) request) self (weather [])
      "DatabaseRPC::set"
      (λ u.
        let (resp, u') = attempt_consensus self (weather []).attempt (set_attempt request) u in
        (record { status = resp.status; response = tt }, u'))
      is_cancelled w

-- `get_db`, which does not look at the deadline
unfoldable pub get_full_db : Bool → Process → Reply Store × Process
get_full_db is_cancelled p₀ =
    let p = count_incoming "DatabaseRPC::get_db" p₀ in
    (record { status = ok; response = get_db p.kv_store }, p)
