-- ===== src/Session.antt =====
-- A series of user requests at the leader, one after the other, each in its own weather, and what
-- they promise: the replies of one map.
pub mod Steps
pub mod Refines
use cs739_p2_replicated_data.Base.{
  ℕ, ◌*◌, ◌≤◌, String, ◌≡◌, Bool, true, false, Option, none, some, List, [], ◌∷◌, str_eq,
  if◌then◌else◌,
}
use cs739_p2_replicated_data.Base.Int.{pos}
use cs739_p2_replicated_data.Base.Lists.{length}
use cs739_p2_replicated_data.Proto.{GetResponse, SetRequest, Status, ok, Reply}
use cs739_p2_replicated_data.World.{World}
use cs739_p2_replicated_data.Attempt.Partition.{partition, reachable}
use cs739_p2_replicated_data.DatabaseRpc.{Weather, get, set}
use cs739_p2_replicated_data.DatabaseRpc.Reads.{answer}

pub data Command : Type 0 where
  set_of : SetRequest → Command
  get_of : String → Command

-- What the user gets back.
pub data Answer : Type 0 where
  stored : Status → Answer
  found : Reply GetResponse → Answer

pub record Order : Type 0 where
  pub command : Command
  pub weather : Weather

-- The leader needs no fuel beyond the first step.
pub serve : String → Weather → Command → World → Answer × World
serve lead weather (set_of request) w =
    let (r, w') = set 1 lead weather request false w in (stored r.status, w')
serve lead weather (get_of key) w = let (r, w') = get 1 lead weather key false w in (found r, w')

pub serve_all : String → List Order → World → List Answer × World
unfolding serve
serve_all lead [] w = ([], w)
serve_all lead (o ∷ os) w =
    let (a, w₁) = serve lead o.weather o.command w in
    let (rest, w₂) = serve_all lead os w₁ in (a ∷ rest, w₂)

-- The promise: a map from keys to values.
abbrev pub Contents : Type 0
Contents = String → Option String

abbrev pub response_of : Option String → GetResponse
response_of none = record { value = ""; error = pos 1 }
response_of (some v) = record { value = v; error = pos 0 }

abbrev pub promise : Command → Contents → Answer × Contents
promise (set_of request) s =
    (stored ok, λ j. if str_eq request.key j then some request.value else s j)
promise (get_of key) s = (found (answer (response_of (s key))), s)

pub promise_all : List Order → Contents → List Answer × Contents
promise_all [] s = ([], s)
promise_all (o ∷ os) s =
    let (a, s₁) = promise o.command s in let (rest, s₂) = promise_all os s₁ in (a ∷ rest, s₂)

-- A `set` is for another key than "leader", and is served in a network that reaches the leader and
-- at least half of the members, with no other thread at work. A `get` needs nothing.
module _ (lead : String) (members : List String) where
  pub record Reaches (weather : Weather) : Type 0 where
    pub up : String → Bool
    pub partitioned : (weather []).attempt ≡ partition up
    pub is_up : up lead ≡ true
    pub half_up : length members ≤ 2 * length (reachable up members)

  abbrev pub Servable : Weather → Command → Type 0
  Servable weather (set_of request) = (str_eq request.key "leader" ≡ false) × Reaches weather
  Servable weather (get_of key) = Unit
