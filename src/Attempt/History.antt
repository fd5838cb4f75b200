-- ===== src/Attempt/History.antt =====
-- Attempts one after the other, by any processes and in any networks.
use cs739_p2_replicated_data.Base.{◌%◌, String, ◌≡◌, ap, ◌∙◌, true, List, [], ◌∷◌}
use cs739_p2_replicated_data.Base.Int.{ℤ}
use cs739_p2_replicated_data.Base.Lists.{length, IsDistinct, All}
use cs739_p2_replicated_data.Map.{keys}
use cs739_p2_replicated_data.Proto.{Request, is_ok}
use cs739_p2_replicated_data.World.{World}
use cs739_p2_replicated_data.Attempt.{Network, Phase, attempt_consensus, next_round}
use cs739_p2_replicated_data.Attempt.Stages.{members_of}
use cs739_p2_replicated_data.Attempt.Adoption.{Untouched}
use cs739_p2_replicated_data.Attempt.Chosen.{Chosen}
use cs739_p2_replicated_data.Attempt.Agreement.{Unanimous, attempt_agreement}
use cs739_p2_replicated_data.Attempt.Settings.{attempt-SameSettings}
use cs739_p2_replicated_data.Attempt.Settled.{attempt-Unanimous, still_Chosen}

-- One attempt: who makes it, what happens to its calls, and what it was asked for.
pub record Turn : Type 0 where
  pub self : String
  pub net : Network
  pub request : Request

-- The attempts of the list, each begun when the one before has ended.
unfoldable pub history : List Turn → World → World
history [] w = w
history (t ∷ ts) w = history ts (attempt_consensus t.self t.net t.request w).1

-- Every process has these members.
abbrev pub Members : List String → World → Type 0
Members members w = (a : String) → keys (w a).member_list ≡ members

module _ (members : List String) (key : String) (round : ℤ) (v : String)
    (odd : length members % 2 ≡ 1) (distinct : IsDistinct members) where
  -- No other thread than the attempts writes to the key and round.
  abbrev pub Quiet : Turn → Type 0
  Quiet t = (phase : Phase) (a : String) → Untouched key round (t.net phase a)

  -- `v` is chosen, and the only value that is accepted.
  pub record Decided (w : World) : Type 0 where
    pub members_known : Members members w
    pub chosen : Chosen members key round v w
    pub only : Unanimous key round v w

  turn-Decided :
      (t : Turn) (w : World)
      → Quiet t
      → Decided w
      → Decided (attempt_consensus t.self t.net t.request w).1
  turn-Decided t w quiet d = record {
    members_known = λ a.
        ap keys (attempt-SameSettings t.self t.net t.request w a).member_list ∙ d.members_known a;
    chosen =
        still_Chosen key round v members t.self t.net t.request w odd distinct
          (d.members_known t.self) quiet d.chosen d.only;
    only =
        attempt-Unanimous key round v members t.self t.net t.request w odd distinct
          (d.members_known t.self) quiet d.chosen d.only;
  }

  history-Decided : (ts : List Turn) (w : World) → All Quiet ts → Decided w → Decided (history ts w)
  unfolding history
  history-Decided [] w quiet d = d
  history-Decided (t ∷ ts) w quiet d =
      history-Decided ts (attempt_consensus t.self t.net t.request w).1 quiet.1
        (turn-Decided t w quiet.0 d)

  -- In a cluster of distinct members, odd in number and known to every process, let a quorum have
  -- accepted `v` for the key in the round and nobody another value. Then, after any series of
  -- attempts, whoever makes them, for whatever keys and values and in whatever rounds, and
  -- whichever messages are lost, another attempt for the key that works in the round and returns OK
  -- returns `v`, and `v` is still chosen and the only value; all this while no other thread writes
  -- to the key and round.
  pub history_agreement :
      (ts : List Turn) (w : World) (t : Turn)
      → All Quiet ts
      → Quiet t
      → Decided w
      → t.request.key ≡ key
      → next_round t.self t.request.key (history ts w) ≡ round
      → is_ok (attempt_consensus t.self t.net t.request (history ts w)).0.status ≡ true
      → ((attempt_consensus t.self t.net t.request (history ts w)).0.response.value ≡ v)
        × Decided (attempt_consensus t.self t.net t.request (history ts w)).1
  history_agreement ts w t quiet calm d k n out =
      let d' : Decided (history ts w) = history-Decided ts w quiet d in
      let same : members_of t.self t.net t.request (history ts w) ≡ members =
        d'.members_known t.self in
      (
        attempt_agreement t.self t.net t.request (history ts w) (rw same distinct) (rw (n, k) calm)
            v (rw same odd) (rw (same, n, k) d'.chosen) (rw (n, k) d'.only) out,
        turn-Decided t (history ts w) calm d',
      )
