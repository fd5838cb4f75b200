-- ===== src/Session/Steps.antt =====
-- One request at the leader.
use cs739_p2_replicated_data.Base.{
  ℕ, suc, ◌+◌, ◌*◌, ◌≤◌, ◌<◌, String, ◌≡◌, refl, ap, ◌∙◌, Bool, true, false, inl, inr, arith, List,
  str_eq, eq_iff, Bool-cases,
}
use cs739_p2_replicated_data.Base.Lists.{length, In, IsDistinct}
use cs739_p2_replicated_data.Map.{lookup, keys, size, string_key}
use cs739_p2_replicated_data.Proto.{Request, SetRequest, GetResponse, ok, Reply, Response}
use cs739_p2_replicated_data.Database.{get_kv, set_kv}
use cs739_p2_replicated_data.Database.Laws.{lookup-set_kv}
use cs739_p2_replicated_data.Process.{Process}
use cs739_p2_replicated_data.ConsensusRpc.Effects.{SameState}
use cs739_p2_replicated_data.World.{World}
use cs739_p2_replicated_data.Attempt.{attempt_consensus}
use cs739_p2_replicated_data.Attempt.Settings.{attempt-SameSettings}
use cs739_p2_replicated_data.Attempt.Partition.{partition, reachable}
use cs739_p2_replicated_data.Attempt.Inform.{Applied}
use cs739_p2_replicated_data.Attempt.Liveness.{CanCommit, attempt_informs, commits}
use cs739_p2_replicated_data.Attempt.Leads.{Leads, Leads-same, Leads-CanCommit, rounds_at}
use cs739_p2_replicated_data.Attempt.Leads.Keeps.{attempt-Leads, this_key, other_key}
use cs739_p2_replicated_data.Election.{receive}
use cs739_p2_replicated_data.Election.Laws.{
  receive-SameState, receive-SameSettings, pax_log-receive,
}
use cs739_p2_replicated_data.DatabaseRpc.{Weather, local_get, set_attempt}
use cs739_p2_replicated_data.DatabaseRpc.Laws.{IsLeader, IsLeader-receive, IsLeader-same}
use cs739_p2_replicated_data.DatabaseRpc.Reads.{answer, get-IsLeader}
use cs739_p2_replicated_data.DatabaseRpc.Writes.{
  arrived, applied_leader, applied_store, set-IsLeader,
}
use cs739_p2_replicated_data.Session.{
  Command, set_of, get_of, stored, found, serve, response_of, Contents, promise, Servable,
}

-- The leader takes itself for the leader, knows the members, is ahead of all logs, and has `room`
-- more rounds for each key.
pub record Serving (lead : String) (members : List String) (room : ℕ) (w : World) : Type 0 where
  pub leader : IsLeader (w lead)
  pub leads : Leads lead w
  pub known : keys (w lead).member_list ≡ members
  pub space : (key : String) → size (rounds_at key lead w) + room < 2147483648

pub Serving-receive :
    (lead name : String) (members : List String) (room : ℕ) (w : World)
    → Serving lead members room w
    → Serving lead members room (receive lead name w)
Serving-receive lead name members room w s = record {
  leader = IsLeader-receive lead name w lead s.leader;
  leads = Leads-same lead w (receive lead name w) (pax_log-receive lead name w) s.leads;
  known = ap keys (receive-SameSettings lead name w lead).member_list ∙ s.known;
  space = λ key. rw (pax_log-receive lead name w lead) (s.space key);
}

module _ (lead : String) (members : List String) (room : ℕ) (up : String → Bool) (r : Request)
    (w : World) (distinct : IsDistinct members) (m : In lead members) (is_up : up lead ≡ true)
    (half : length members ≤ 2 * length (reachable up members))
    (ordinary : str_eq r.key "leader" ≡ false) (s : Serving lead members (suc room) w) where
  abbrev tried : Reply Response × World
  tried = attempt_consensus lead (partition up) r w

  small : size (rounds_at r.key lead w) < 2147483648
  small = omega (arith, s.space r.key)

  can : CanCommit up lead r w
  can =
      Leads-CanCommit up lead r w s.leads small (rw s.known distinct) (rw s.known m) is_up
        (rw s.known half)

  applied : Applied r (w lead) (tried.1 lead)
  applied = (attempt_informs up lead r w can).2 lead can.is_member is_up

  pub tried-ok : tried.0.status ≡ ok
  tried-ok = ap (λ (x : Reply Response × World). x.0.status) (commits up lead r w can).3

  pub tried-store : (tried.1 lead).kv_store ≡ set_kv r.key r.value (w lead).kv_store
  tried-store = applied_store r (w lead) (tried.1 lead) ordinary applied

  pub tried-Serving : Serving lead members room tried.1
  tried-Serving =
      let same = attempt-SameSettings lead (partition up) r w lead in
      record {
        leader =
            IsLeader-same (w lead) (tried.1 lead)
              (applied_leader r (w lead) (tried.1 lead) ordinary applied) same.config s.leader;
        leads = attempt-Leads up lead r w s.leads small can;
        known = ap keys same.member_list ∙ s.known;
        space = λ key. elim (Bool-cases (str_eq r.key key)) [
          | inl t ↦
              rw (← (eq_iff r.key key).0 t)
                (omega (arith, (this_key up lead r w s.leads small can).1, s.space r.key))
          | inr f ↦
              rw (other_key up lead r w s.leads small can key lead f) (omega (arith, s.space key))
        ];
      }

local_get-response :
    (key : String) (p : Process) → local_get key p ≡ response_of (lookup key p.kv_store)
unfolding local_get get_kv
local_get-response key p = ground arith

-- The leader's store holds these contents.
abbrev pub Shows : String → World → Contents → Type 0
Shows lead w s = (j : String) → lookup j (w lead).kv_store ≡ s j

module _ (lead : String) (members : List String) (room : ℕ) (distinct : IsDistinct members)
    (m : In lead members) (weather : Weather) (w : World) (s : Contents)
    (ready : Serving lead members (suc room) w) (shows : Shows lead w s) where
  -- The reply, and the state that is left, keep the promise.
  abbrev pub Kept : Command → Type 0
  Kept c =
      ((serve lead weather c w).0 ≡ (promise c s).0)
      × Serving lead members room (serve lead weather c w).1
      × Shows lead (serve lead weather c w).1 (promise c s).1

  get-Kept : (key : String) → Kept (get_of key)
  unfolding serve
  get-Kept key =
      let e = get-IsLeader 0 lead weather key w ready.leader in
      let u : World = receive lead "DatabaseRPC::get" w in
      let same : SameState (w lead) (u lead) = receive-SameState lead "DatabaseRPC::get" w lead in
      rw e (
        ap (λ (x : GetResponse). found (answer x))
            (local_get-response key (w lead) ∙ ap response_of (shows key)),
        less u (Serving-receive lead "DatabaseRPC::get" members (suc room) w ready),
        (λ j. rw same.kv_store (shows j)),
      )
    where
      less : (u : World) → Serving lead members (suc room) u → Serving lead members room u
      less u h = record {
        leader = h.leader;
        leads = h.leads;
        known = h.known;
        space = λ key. omega (arith, h.space key);
      }

  set-Kept :
      (request : SetRequest)
      → Servable lead members weather (set_of request)
      → Kept (set_of request)
  unfolding serve
  set-Kept request (ordinary, net) = rw (set-IsLeader 0 lead weather request w ready.leader) (
      rw net.partitioned (
        ap stored (
            tried-ok lead members room net.up r start distinct m net.is_up net.half_up ordinary
              begun),
        tried-Serving lead members room net.up r start distinct m net.is_up net.half_up ordinary
            begun,
        (λ j.
            rw
              (tried-store lead members room net.up r start distinct m net.is_up net.half_up
                ordinary begun)
              (rw
                (
                  lookup-set_kv request.key j request.value (start lead).kv_store,
                  same.kv_store,
                  shows j,
                )
                refl)),
      ))
    where
      r : Request
      r = set_attempt request

      start : World
      start = arrived lead w

      begun : Serving lead members (suc room) start
      begun = Serving-receive lead "DatabaseRPC::set" members (suc room) w ready

      same : SameState (w lead) (start lead)
      same = receive-SameState lead "DatabaseRPC::set" w lead

  pub serve-Kept : (c : Command) → Servable lead members weather c → Kept c
  serve-Kept (set_of request) h = set-Kept request h
  serve-Kept (get_of key) h = get-Kept key
