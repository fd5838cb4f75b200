-- ===== src/Attempt/Liveness.antt =====
-- With half of the members up, an attempt in a round that nobody has used commits.
use cs739_p2_replicated_data.Base.{
  ℕ, ◌*◌, ◌≤◌, ◌<◌, String, ◌≡◌, refl, ap, ◌∙◌, Bool, true, false, inl, inr, arith, List, [], ◌∷◌,
}
use cs739_p2_replicated_data.Base.Int.{pos, ltb_ℤ, int_min, to_int32}
use cs739_p2_replicated_data.Base.Lists.{length, In, IsDistinct, All}
use cs739_p2_replicated_data.Proto.{Request, Response, is_ok}
use cs739_p2_replicated_data.Log.{entry}
use cs739_p2_replicated_data.Log.Latest.{rounds}
use cs739_p2_replicated_data.Log.Rounds.{above}
use cs739_p2_replicated_data.ConsensusRpc.Effects.{echo}
use cs739_p2_replicated_data.World.{World}
use cs739_p2_replicated_data.World.Laws.{Frame, Rel, Rel-chain}
use cs739_p2_replicated_data.Attempt.{
  prepare_request, success_request, lacks_quorum, next_round, Network,
}
use cs739_p2_replicated_data.Attempt.Loops.{Rel-ping_all, Rel-propose_all, Rel-accept_all}
use cs739_p2_replicated_data.Attempt.Stages.{
  members_of, replicas, round_of, pinged, proposed, final_request, voted_on, result, Commits,
  attempt-cases,
}
use cs739_p2_replicated_data.Attempt.Quorum.{half_quorum}
use cs739_p2_replicated_data.Attempt.Abort.{after_accept}
use cs739_p2_replicated_data.Attempt.Adoption.{Same-Frame, ping-Same}
use cs739_p2_replicated_data.Attempt.Chosen.{committed-echo}
use cs739_p2_replicated_data.Attempt.Partition.{
  All-reachable, partition, reachable, reachable-up, ping_all-reachable, IsFree, propose_all-free,
  accept_all-up,
}
use cs739_p2_replicated_data.Attempt.Above.{
  SameAbove, SameAbove-Frame, ping-SameAbove, propose-SameAbove, accept-SameAbove,
}
use cs739_p2_replicated_data.Attempt.Inform.{Ready, Applied, success_all-Applied}

-- A container's size is converted to an `int` that is at least INT_MIN.
next_round-int : (self key : String) (w : World) → ltb_ℤ (next_round self key w) int_min ≡ false
unfolding next_round to_int32
next_round-int self key w = ground arith

-- Half of the members are up, the caller among them, and the round that the caller's log gives is
-- free at the processes that are up, and below no round of theirs.
pub record CanCommit (up : String → Bool) (self : String) (r : Request) (w : World) : Type 0 where
  pub distinct : IsDistinct (members_of self (partition up) r w)
  pub is_member : In self (members_of self (partition up) r w)
  pub is_up : up self ≡ true
  pub half_up :
      replicas self (partition up) r w
      ≤ 2 * length (reachable up (members_of self (partition up) r w))
  pub free :
      (a : String)
      → up a ≡ true
      → IsFree (entry r.key (round_of self (partition up) r w) (w a).pax_log)
  pub latest :
      (a : String)
      → up a ≡ true
      → above (round_of self (partition up) r w) (rounds r.key (w a).pax_log) ≡ false

some_item : (a : String) (xs : List String) → In a xs → 0 < length xs
some_item a [] m = absurd m
some_item a (x ∷ xs) m = omega arith

module _ (up : String → Bool) (self : String) (r : Request) (w : World)
    (can : CanCommit up self r w) where
  open can use {distinct, is_member, half_up, free, latest}

  some_member : 0 < replicas self (partition up) r w
  some_member = some_item self _ is_member

  abbrev net : Network
  net = partition up

  abbrev up_members : List String
  up_members = reachable up (members_of self net r w)

  live : (pinged self net r w).0 ≡ up_members
  live = ping_all-reachable up self (members_of self net r w) w

  ups : All (λ a. up a ≡ true) (pinged self net r w).0
  ups = rw live (reachable-up up (members_of self net r w))

  proposals :
      ((proposed self net r w).0.num_accepted ≡ length (pinged self net r w).0)
      × ((proposed self net r w).0.accepted_id ≡ pos 0)
  proposals =
      propose_all-free up self (prepare_request r (round_of self net r w)) refl
        (pinged self net r w).0 w (pinged self net r w).1 ups
        (Rel-ping_all (Same-Frame r.key (round_of self net r w)) self net (λ a. tt)
          (ping-Same r.key (round_of self net r w)) (members_of self net r w) w)
        free

  -- The accept request carries the caller's own value.
  own_value : final_request self net r w ≡ record {
    key = r.key;
    value = r.value;
    pserver_id = pos 1;
    aserver_id = pos 0;
    round = round_of self net r w;
    op = r.op;
  }
  own_value = rw (proposals.1)

  enough :
      (count : ℕ)
      → count ≡ length (pinged self net r w).0
      → lacks_quorum (replicas self net r w) count ≡ false
  enough count e =
      half_quorum _ count (omega (arith, half_up, ap (λ (l : List String). length l) live, e))

  pub commits : Commits self net r w
  commits = elim (attempt-cases self net r w) [
    | inl (t, e) ↦ cc (t, enough (length (pinged self net r w).0) refl)
    | inr (inl (f, t, e)) ↦ cc (t, enough (proposed self net r w).0.num_accepted proposals.0)
    | inr (inr (inl (f, g, t, e))) ↦ cc (t, enough (voted_on self net r w).0.num_final accepted)
    | inr (inr (inr c)) ↦ c
  ]
    where
      accepted : (voted_on self net r w).0.num_final ≡ length (pinged self net r w).0
      accepted =
          accept_all-up up self (final_request self net r w) refl (pinged self net r w).0
            (proposed self net r w).1 ups

  abbrev pub last : Request
  last = success_request r (voted_on self net r w).0.acceptance

  pub last_lem : last ≡ record {
    key = r.key;
    value = r.value;
    op = r.op;
    pserver_id = pos 1;
    aserver_id = pos 0;
    round = round_of self net r w;
  }
  last_lem =
      ap (λ (x : Response). success_request r x)
        (committed-echo self net r w some_member commits ∙ ap echo own_value)

  after_votes : Rel (SameAbove r.key (round_of self net r w)) w (voted_on self net r w).1
  after_votes =
      let f : Frame (SameAbove r.key (round_of self net r w)) =
        SameAbove-Frame r.key (round_of self net r w) in
      Rel-chain f w (pinged self net r w).1 (voted_on self net r w).1
        (Rel-ping_all f self net (λ a. tt) (ping-SameAbove r.key (round_of self net r w))
          (members_of self net r w) w)
        (Rel-chain f (pinged self net r w).1 (proposed self net r w).1 (voted_on self net r w).1
          (Rel-propose_all f self net (prepare_request r (round_of self net r w)) (λ a. tt)
            (propose-SameAbove (prepare_request r (round_of self net r w))) (pinged self net r w).0
            (pinged self net r w).1)
          (Rel-accept_all f self net (final_request self net r w) (λ a. tt)
            (accept-SameAbove (final_request self net r w)) (pinged self net r w).0
            (proposed self net r w).1))

  ready : (a : String) → up a ≡ true → Ready last (w a) ((voted_on self net r w).1 a)
  ready a t =
      let same = after_accept self net r w (λ phase b. tt) a in
      record {
        leader = same.leader;
        kv_store = same.kv_store;
        latest = rw (last_lem) (after_votes a ∙ latest a t);
      }

  pub attempt_informs :
      (is_ok (result self net r w).0.status ≡ true)
      × ((result self net r w).0.response.value ≡ r.value)
      × ((a : String)
          → In a (members_of self net r w)
          → up a ≡ true
          → Applied r (w a) ((result self net r w).1 a))
  attempt_informs = rw commits.3 (
    refl,
    ap (λ (x : Request). x.value) last_lem,
    (λ a m t.
        let done =
          success_all-Applied up self last w (rw last_lem (next_round-int self r.key w))
            (members_of self net r w) (voted_on self net r w).1 distinct (λ b _ k. ready b k) a m
            t in
        record {
          leader = done.leader ∙ rw last_lem refl;
          kv_store = done.kv_store ∙ rw last_lem refl;
        }),
  )

  -- If the members are distinct, half of them are up, the caller among them, and the caller's next
  -- round for the key is free at the processes that are up and below no round of theirs, then an
  -- attempt whose calls reach exactly those that are up, no other thread taking a step, returns OK
  -- with the caller's value, which is then the leader of each
  -- member that is up, if the key is "leader", or else the key's value in its store; its leader and
  -- its store are otherwise as before.
  pub attempt_commits :
      (is_ok (result self net r w).0.status ≡ true)
      × ((result self net r w).0.response.value ≡ r.value)
      × All (λ a. Applied r (w a) ((result self net r w).1 a)) up_members
  attempt_commits =
      let (fine, value, informed) = attempt_informs in
      (
        fine,
        value,
        All-reachable up (λ a. Applied r (w a) ((result self net r w).1 a))
            (members_of self net r w) informed,
      )
