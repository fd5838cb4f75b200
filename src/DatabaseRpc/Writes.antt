-- ===== src/DatabaseRpc/Writes.antt =====
-- `DatabaseRPC::set` at the leader, and the reads that follow it.
use cs739_p2_replicated_data.Base.{
  ℕ, suc, String, ◌≡◌, refl, ap, ◌∙◌, Bool, true, false, arith, [], ◌∷◌, str_eq, if◌then◌else◌,
}
use cs739_p2_replicated_data.Base.Int.{pos}
use cs739_p2_replicated_data.Base.Lists.{All, In}
use cs739_p2_replicated_data.Map.{string_key}
use cs739_p2_replicated_data.Proto.{Request, GetResponse, SetRequest, is_ok, Reply, Response}
use cs739_p2_replicated_data.ConsensusRpc.Effects.{SameState}
use cs739_p2_replicated_data.Database.{set_kv}
use cs739_p2_replicated_data.Database.Laws.{get_kv-update}
use cs739_p2_replicated_data.Process.{Process}
use cs739_p2_replicated_data.World.{World}
use cs739_p2_replicated_data.Attempt.{attempt_consensus}
use cs739_p2_replicated_data.Attempt.Stages.{members_of}
use cs739_p2_replicated_data.Attempt.Settings.{attempt-SameSettings}
use cs739_p2_replicated_data.Attempt.Partition.{All-reachable, reachable, partition}
use cs739_p2_replicated_data.Attempt.Inform.{Applied}
use cs739_p2_replicated_data.Attempt.Liveness.{CanCommit, attempt_informs}
use cs739_p2_replicated_data.Attempt.Receive.{CanCommit-SameLog}
use cs739_p2_replicated_data.Election.{receive}
use cs739_p2_replicated_data.Election.Laws.{receive-SameState, receive-SameLog}
use cs739_p2_replicated_data.DatabaseRpc.{Weather, local_get, get, set, set_attempt}
use cs739_p2_replicated_data.DatabaseRpc.Laws.{
  IsLeader, IsLeader-receive, IsLeader-same, by_leader-IsLeader,
}
use cs739_p2_replicated_data.DatabaseRpc.Reads.{answer, local_get-SameState, get-IsLeader}

abbrev pub arrived : String → World → World
arrived self w = receive self "DatabaseRPC::set" w

module _ (r : Request) (p q : Process) (ordinary : str_eq r.key "leader" ≡ false)
    (h : Applied r p q) where
  -- A request for another key than "leader" sets no leader.
  pub applied_leader : q.leader ≡ p.leader
  applied_leader = h.leader ∙ rw ordinary refl

  pub applied_store : q.kv_store ≡ set_kv r.key r.value p.kv_store
  applied_store = h.kv_store ∙ rw ordinary refl

  local_get-Applied :
      (key : String)
      → local_get key q
        ≡ (if str_eq r.key key then record { value = r.value; error = pos 0 } else local_get key p)
  unfolding local_get
  local_get-Applied key =
      rw applied_store (ground (arith, get_kv-update r.key key r.value p.kv_store))

module _ (fuel : ℕ) (self : String) (weather : Weather) (request : SetRequest) (w : World) where
  abbrev pub attempted : Reply Response × World
  attempted = attempt_consensus self (weather []).attempt (set_attempt request) (arrived self w)

  abbrev pub done : Reply Unit × World
  done = set (suc fuel) self weather request false w

  pub set-IsLeader :
      IsLeader (w self)
      → done ≡ (record { status = attempted.0.status; response = tt }, attempted.1)
  unfolding set
  set-IsLeader h =
      by_leader-IsLeader tt (λ hop a. set fuel a (λ path. weather (hop ∷ path)) request) self
        (weather []) "DatabaseRPC::set"
        (λ u.
          let (resp, u') = attempt_consensus self (weather []).attempt (set_attempt request) u in
          (record { status = resp.status; response = tt }, u'))
        w h

  module _ (up : String → Bool) (partitioned : (weather []).attempt ≡ partition up)
      (can : CanCommit up self (set_attempt request) w)
      (ordinary : str_eq request.key "leader" ≡ false) (leader : IsLeader (w self)) where
    abbrev r : Request
    r = set_attempt request

    abbrev start : World
    start = arrived self w

    abbrev after : World
    after = (attempt_consensus self (partition up) r start).1

    can' : CanCommit up self r start
    can' = CanCommit-SameLog up self r w start (receive-SameLog self "DatabaseRPC::set" w) can

    same : SameState (w self) (start self)
    same = receive-SameState self "DatabaseRPC::set" w self

    applied :
        (a : String)
        → In a (members_of self (partition up) r w)
        → up a ≡ true
        → Applied r (start a) (after a)
    applied a m t = (attempt_informs up self r start can').2 a (rw same.member_list m) t

    here : Applied r (start self) (after self)
    here = applied self can.is_member can.is_up

    leads : IsLeader (after self)
    leads =
        IsLeader-same (start self) (after self)
          (applied_leader r (start self) (after self) ordinary here)
          (attempt-SameSettings self (partition up) r start self).config
          (IsLeader-receive self "DatabaseRPC::set" w self leader)

    -- The leader of the `set` leads afterwards.
    pub set-IsLeader_after : IsLeader (done.1 self)
    set-IsLeader_after = rw (set-IsLeader leader) (rw partitioned leads)

    -- If the members are distinct, half of them are up, the leader among them, and its next round
    -- for the key is free at those that are up and the latest, and the key is not "leader", then a
    -- `set` at the leader, in a network that reaches the members that are up and with no other
    -- thread at work, returns OK. Afterwards a `get` at the leader, for any key and in any weather,
    -- returns the value that was set, or for another key what the leader's store held for it
    -- before; and the store of each member that is up is its old store with the value set.
    pub set_then_get :
        (is_ok done.0.status ≡ true)
        × ((fuel' : ℕ) (weather' : Weather) (key : String)
            → (get (suc fuel') self weather' key false done.1).0
              ≡ answer (
                  if str_eq request.key key
                  then record { value = request.value; error = pos 0 }
                  else local_get key (w self)))
        × All
            (λ a. (done.1 a).kv_store ≡ set_kv request.key request.value (w a).kv_store)
            (reachable up (members_of self (partition up) (set_attempt request) w))
    set_then_get = rw (set-IsLeader leader) (
        rw partitioned (
          fine,
          (λ fuel' weather' key.
              ap (λ x. x.0) (get-IsLeader fuel' self weather' key after leads)
              ∙ ap answer (
                  local_get-Applied r (start self) (after self) ordinary here key
                  ∙ ap
                      (λ (x : GetResponse).
                        if str_eq request.key key
                        then record { value = request.value; error = pos 0 }
                        else x)
                      (same_get key))),
          All-reachable up
              (λ a. (after a).kv_store ≡ set_kv request.key request.value (w a).kv_store)
              (members_of self (partition up) r w) stored,
        ))
      where
        fine : is_ok (attempt_consensus self (partition up) r start).0.status ≡ true
        fine = (attempt_informs up self r start can').0

        same_get : (key : String) → local_get key (start self) ≡ local_get key (w self)
        same_get key = local_get-SameState key (w self) (start self) same

        stored :
            (a : String)
            → In a (members_of self (partition up) r w)
            → up a ≡ true
            → (after a).kv_store ≡ set_kv request.key request.value (w a).kv_store
        stored a m t =
            applied_store r (start a) (after a) ordinary (applied a m t)
            ∙ ap (set_kv request.key request.value)
                (receive-SameState self "DatabaseRPC::set" w a).kv_store
