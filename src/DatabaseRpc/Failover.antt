-- ===== src/DatabaseRpc/Failover.antt =====
-- A `get` at a process whose leader is out of reach: the process is elected, and answers.
use cs739_p2_replicated_data.Base.{String, ◌≡◌, refl, sym, ap, ◌∙◌, Bool, true, false, [], some}
use cs739_p2_replicated_data.Map.{lookup, string_key}
use cs739_p2_replicated_data.Proto.{Request, ok, is_ok, Reply}
use cs739_p2_replicated_data.Process.{Node}
use cs739_p2_replicated_data.World.{World, Slot, unreachable, no_connection, steps}
use cs739_p2_replicated_data.ConsensusRpc.Effects.{SameState}
use cs739_p2_replicated_data.Attempt.Settings.{SameSettings, attempt-SameSettings}
use cs739_p2_replicated_data.Attempt.Partition.{partition}
use cs739_p2_replicated_data.Attempt.Inform.{Applied}
use cs739_p2_replicated_data.Attempt.Liveness.{CanCommit, attempt_informs}
use cs739_p2_replicated_data.Attempt.Receive.{CanCommit-SameLog}
use cs739_p2_replicated_data.Startup.Start.{assign_self}
use cs739_p2_replicated_data.Election.{
  remote, elect_leader, trigger_election, election_request, assign_leader,
}
use cs739_p2_replicated_data.Election.Laws.{
  arrived, for_leader, tried, receive-SameState, receive-SameSettings, receive-SameLog,
}
use cs739_p2_replicated_data.DatabaseRpc.{
  Conditions, Hop, first, again, forward_request, forward_to_leader, second_try, no_suitable_leader,
}
use cs739_p2_replicated_data.DatabaseRpc.Laws.{at_once}

-- A call that does not reach its process.
abbrev pub cut_off : Slot
cut_off = record { others = []; delivery = unreachable }

module _ {A : Type 0} (empty : A) (run : Hop → String → Bool → World → Reply A × World)
    (self : String) (c : Conditions) where
  lost :
      (u : World) (a : String)
      → c.forward first ≡ cut_off
      → remote empty (run first a) (c.forward first).delivery (steps (c.forward first).others u)
        ≡ (record { status = no_connection; response = empty }, u)
  unfolding remote steps
  lost u a cut = rw cut refl

  arrives :
      (v : World) (a : String)
      → c.forward again ≡ at_once
      → remote empty (run again a) (c.forward again).delivery (steps (c.forward again).others v)
        ≡ run again a false v
  unfolding remote steps
  arrives v a up = rw up refl

  second_try-at_once :
      (v : World) (own : Node)
      → lookup (v self).leader (v self).member_list ≡ some own
      → c.forward again ≡ at_once
      → (run again own.consensus_endpoint false v).0.status ≡ ok
      → second_try empty run self c v ≡ run again own.consensus_endpoint false v
  unfolding second_try forward_to_leader
  second_try-at_once v own found up fine =
      rw (found, second_try, forward_to_leader)
        (simp (arrives v own.consensus_endpoint up, fine) ended)
    where
      x : Reply A × World
      x = run again own.consensus_endpoint false v

      ended : (record { status = ok; response = x.0.response }, x.1) ≡ x
      ended = ap (λ s. (record { status = s; response = x.0.response }, x.1)) (sym fine)

  -- The first call fails, the election succeeds, and the second call succeeds.
  pub forward_request-elected :
      (u v : World) (node own : Node) (t : Reply Unit)
      → lookup (u self).leader (u self).member_list ≡ some node
      → c.forward first ≡ cut_off
      → trigger_election self (u self).current_node.consensus_endpoint c.election c.attempt u
        ≡ (t, v)
      → is_ok t.status ≡ true
      → lookup (v self).leader (v self).member_list ≡ some own
      → c.forward again ≡ at_once
      → (run again own.consensus_endpoint false v).0.status ≡ ok
      → forward_request empty run self c u ≡ run again own.consensus_endpoint false v
  unfolding forward_request forward_to_leader
  forward_request-elected u v node own t known cut elected won found up fine =
      asked
      ∙ ap after_first (lost u node.consensus_endpoint cut)
      ∙ ap after_election elected
      ∙ rw won (second_try-at_once v own found up fine)
    where
      after_election : Reply Unit × World → Reply A × World
      after_election (e, w₂) = elim (is_ok e.status) [
        | true ↦ second_try empty run self c w₂
        | false ↦ (record { status = no_suitable_leader; response = empty }, w₂)
      ]

      after_first : Reply A × World → Reply A × World
      after_first (r, w₁) = elim (is_ok r.status) [
        | true ↦ (record { status = ok; response = r.response }, w₁)
        | false ↦ after_election (
            trigger_election self (w₁ self).current_node.consensus_endpoint c.election c.attempt w₁)
      ]

      asked :
          forward_request empty run self c u
          ≡ after_first (
              remote empty
                (run first node.consensus_endpoint)
                (c.forward first).delivery
                (steps (c.forward first).others u))
      asked = rw (known, forward_request, forward_to_leader) refl

-- The elected process: its leader, its store and its settings.
module _ (up : String → Bool) (self candidate : String) (w : World)
    (can : CanCommit up self (election_request (for_leader candidate)) w) where
  abbrev r : Request
  r = election_request (for_leader candidate)

  abbrev pub elected : Reply Unit × World
  elected = elect_leader self (partition up) (for_leader candidate) false w

  can_still : CanCommit up self r (arrived self w)
  can_still =
      CanCommit-SameLog up self r w (arrived self w)
        (receive-SameLog self "ConsensusRPC::elect_leader" w) can

  same : SameState (w self) (arrived self w self)
  same = receive-SameState self "ConsensusRPC::elect_leader" w self

  abbrev tried_world : World
  tried_world = (tried self (partition up) (for_leader candidate) w).1

  outcome :
      (is_ok (tried self (partition up) (for_leader candidate) w).0.status ≡ true)
      × ((tried self (partition up) (for_leader candidate) w).0.response.value ≡ candidate)
      × Applied r (arrived self w self) (tried_world self)
  outcome =
      let (fine, value, done) = attempt_informs up self r (arrived self w) can_still in
      (fine, value, done self (rw same.member_list can.is_member) can.is_up)

  pub elected_fine :
      (is_ok elected.0.status ≡ true) × (elected.1 ≡ assign_leader self candidate tried_world)
  unfolding elect_leader
  elected_fine = (outcome.0, rw (outcome.0, outcome.1) refl)

  -- Its own process has the candidate for the leader, its old store, and its old settings.
  pub elected_process :
      ((elected.1 self).leader ≡ candidate)
      × ((elected.1 self).kv_store ≡ (w self).kv_store)
      × SameSettings (w self) (elected.1 self)
  elected_process =
      rw (elected_fine.1, assign_self self candidate tried_world)
        (
          refl,
          outcome.2.kv_store ∙ same.kv_store,
          record {
            config = kept.config ∙ settings.config;
            member_list = kept.member_list ∙ settings.member_list;
            current_node = kept.current_node ∙ settings.current_node;
          },
        )
    where
      settings : SameSettings (w self) (arrived self w self)
      settings = receive-SameSettings self "ConsensusRPC::elect_leader" w self

      kept : SameSettings (arrived self w self) (tried_world self)
      kept = attempt-SameSettings self (partition up) r (arrived self w) self
