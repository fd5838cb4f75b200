-- ===== src/Election/Laws.antt =====
-- What an election leaves at each process, when it succeeds and when it fails.
use cs739_p2_replicated_data.Base.{
  String, ◌≡◌, Bool, true, false, inl, inr, arith, Bool-cases, str_eq, eq_iff,
}
use cs739_p2_replicated_data.Base.Lists.{All}
use cs739_p2_replicated_data.Proto.{Request, ElectLeaderRequest, Reply, Response, is_ok}
use cs739_p2_replicated_data.ConsensusRpc.Effects.{
  SameState, count_incoming-SameState, pax_log-count_incoming,
}
use cs739_p2_replicated_data.World.{World}
use cs739_p2_replicated_data.World.Laws.{Rel, Rel-update, Rel-chain}
use cs739_p2_replicated_data.Attempt.{Network, Phase, attempt_consensus}
use cs739_p2_replicated_data.Attempt.Stages.{members_of}
use cs739_p2_replicated_data.Attempt.Abort.{SameState-Frame, AppliesNothing, abort_applies_nothing}
use cs739_p2_replicated_data.Attempt.Settings.{
  SameSettings, SameSettings-Frame, count_incoming-SameSettings,
}
use cs739_p2_replicated_data.Attempt.Partition.{All-reachable, reachable, partition}
use cs739_p2_replicated_data.Attempt.Liveness.{CanCommit, attempt_informs}
use cs739_p2_replicated_data.Attempt.Receive.{SameLog, CanCommit-SameLog}
use cs739_p2_replicated_data.Election.{receive, assign_leader, election_request, elect_leader}

-- A counted request changes no process but in its counters.
module _ (self name : String) (w : World) where
  pub receive-SameState : Rel SameState w (receive self name w)
  unfolding receive
  receive-SameState = Rel-update SameState-Frame w self _ (count_incoming-SameState name (w self))

  pub receive-SameSettings : Rel SameSettings w (receive self name w)
  unfolding receive
  receive-SameSettings =
      Rel-update SameSettings-Frame w self _ (count_incoming-SameSettings name (w self))

  pub pax_log-receive : (a : String) → (receive self name w a).pax_log ≡ (w a).pax_log
  unfolding receive
  pax_log-receive a = elim (Bool-cases (str_eq self a)) [
    | inl t ↦ rw (t, ← (eq_iff self a).0 t) (pax_log-count_incoming name (w self))
    | inr f ↦ rw f
  ]

  pub receive-SameLog : Rel SameLog w (receive self name w)
  receive-SameLog a = record {
    pax_log = pax_log-receive a;
    member_list = (receive-SameState a).member_list;
  }

abbrev pub arrived : String → World → World
arrived self w = receive self "ConsensusRPC::elect_leader" w

abbrev pub for_leader : String → ElectLeaderRequest
for_leader candidate = record { key = "leader"; value = candidate }

abbrev pub tried : String → Network → ElectLeaderRequest → World → Reply Response × World
tried self net request w = attempt_consensus self net (election_request request) (arrived self w)

assign_leader-leader :
    (self value : String) (w : World) (a : String)
    → (w a).leader ≡ value
    → (assign_leader self value w a).leader ≡ value
unfolding assign_leader
assign_leader-leader self value w a h = ground (arith, h)

-- If the members are distinct, half of them are up, the process among them, and its next round for
-- the key "leader" is free at those that are up and the latest, then an election of `candidate` in
-- a network that reaches the members that are up, with no other thread at work, returns OK, and
-- each of them has `candidate` as its leader.
pub election_informs_all :
    (up : String → Bool) (self candidate : String) (w : World)
    → CanCommit up self (election_request (for_leader candidate)) w
    → (is_ok (elect_leader self (partition up) (for_leader candidate) false w).0.status ≡ true)
      × All
          (λ a.
            ((elect_leader self (partition up) (for_leader candidate) false w).1 a).leader
            ≡ candidate)
          (reachable up
            (members_of self (partition up) (election_request (for_leader candidate)) w))
unfolding elect_leader
election_informs_all up self candidate w can =
    let r : Request = election_request (for_leader candidate) in
    let same = receive-SameLog self "ConsensusRPC::elect_leader" w in
    let can' : CanCommit up self r (arrived self w) =
      CanCommit-SameLog up self r w (arrived self w) same can in
    let (fine, value, done) = attempt_informs up self r (arrived self w) can' in
    (
      fine,
      All-reachable up _ (members_of self (partition up) r w) (λ a m t.
          rw (fine, value)
            (assign_leader-leader self candidate
              (tried self (partition up) (for_leader candidate) w).1 a
              ((done a (rw (same self).member_list m) t).leader))),
    )

-- An election that does not return OK leaves each process with the leader, the store and the
-- member list that it had, in any network whose other threads set no leader and no value.
pub failed_election_changes_nothing :
    (self : String) (net : Network) (request : ElectLeaderRequest) (is_cancelled : Bool) (w : World)
    → ((phase : Phase) (a : String) → All AppliesNothing (net phase a).others)
    → is_ok (elect_leader self net request is_cancelled w).0.status ≡ false
    → Rel SameState w (elect_leader self net request is_cancelled w).1
unfolding elect_leader
failed_election_changes_nothing self net request true w quiet h =
    receive-SameState self "ConsensusRPC::elect_leader" w
failed_election_changes_nothing self net request false w quiet h = rw h (
    Rel-chain SameState-Frame w (arrived self w) (tried self net request w).1
      (receive-SameState self "ConsensusRPC::elect_leader" w)
      (abort_applies_nothing self net (election_request request) (arrived self w) quiet h))
