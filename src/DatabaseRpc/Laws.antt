-- ===== src/DatabaseRpc/Laws.antt =====
-- What the user's requests return, at the leader and through another process.
use cs739_p2_replicated_data.Base.{
  String, ◌≡◌, refl, sym, ap, ◌∙◌, Bool, true, false, some, [], str_eq,
}
use cs739_p2_replicated_data.Map.{lookup, string_key}
use cs739_p2_replicated_data.Proto.{ok, Reply}
use cs739_p2_replicated_data.Process.{Process, Node, own_address}
use cs739_p2_replicated_data.World.{World, Slot, delivered, steps}
use cs739_p2_replicated_data.Election.{remote, receive}
use cs739_p2_replicated_data.Election.Laws.{receive-SameState, receive-SameSettings}
use cs739_p2_replicated_data.DatabaseRpc.{
  no_leader_set, Conditions, Hop, first, by_leader, forward_request, forward_to_leader,
}

-- The process takes itself for the leader.
pub record IsLeader (p : Process) : Type 0 where
  pub known : str_eq p.leader "" ≡ false
  pub own : str_eq p.leader (own_address p) ≡ true

-- The process knows a leader, which is another process.
pub record IsFollower (p : Process) : Type 0 where
  pub known : str_eq p.leader "" ≡ false
  pub other : str_eq p.leader (own_address p) ≡ false

pub own_address-config : (p q : Process) → q.config ≡ p.config → own_address q ≡ own_address p
unfolding own_address
own_address-config p q h = rw h

-- Only the leader and the configuration decide who leads.
pub IsLeader-same :
    (p q : Process) → q.leader ≡ p.leader → q.config ≡ p.config → IsLeader p → IsLeader q
IsLeader-same p q l c h = record {
  known = rw l h.known;
  own = rw (own_address-config p q c, l) h.own;
}

pub IsFollower-same :
    (p q : Process) → q.leader ≡ p.leader → q.config ≡ p.config → IsFollower p → IsFollower q
IsFollower-same p q l c h = record {
  known = rw l h.known;
  other = rw (own_address-config p q c, l) h.other;
}

module _ (self name : String) (w : World) where
  pub IsLeader-receive : (a : String) → IsLeader (w a) → IsLeader (receive self name w a)
  IsLeader-receive a =
      IsLeader-same _ _ (receive-SameState self name w a).leader
        (receive-SameSettings self name w a).config

  pub IsFollower-receive : (a : String) → IsFollower (w a) → IsFollower (receive self name w a)
  IsFollower-receive a =
      IsFollower-same _ _ (receive-SameState self name w a).leader
        (receive-SameSettings self name w a).config

module _ {A : Type 0} (empty : A) (run : Hop → String → Bool → World → Reply A × World)
    (self : String) (c : Conditions) (name : String) (own : World → Reply A × World)
    (w : World) where
  pub by_leader-IsLeader :
      IsLeader (w self) → by_leader empty run self c name own false w ≡ own (receive self name w)
  unfolding by_leader
  by_leader-IsLeader h =
      let h' : IsLeader (receive self name w self) = IsLeader-receive self name w self h in
      rw (h'.known, by_leader) (rw (h'.own, by_leader))

  pub by_leader-IsFollower :
      IsFollower (w self)
      → by_leader empty run self c name own false w
        ≡ forward_request empty run self c (receive self name w)
  unfolding by_leader
  by_leader-IsFollower h =
      let h' : IsFollower (receive self name w self) = IsFollower-receive self name w self h in
      rw (h'.known, by_leader) (rw (h'.other, by_leader))

  pub by_leader-no_leader :
      (w self).leader ≡ ""
      → by_leader empty run self c name own false w
        ≡ (record { status = no_leader_set; response = empty }, receive self name w)
  unfolding by_leader
  by_leader-no_leader h =
      let e : str_eq (receive self name w self).leader "" ≡ true =
        rw ((receive-SameState self name w self).leader, h) refl in
      rw (e, by_leader)

-- A call that another process receives at once.
abbrev pub at_once : Slot
at_once = record { others = []; delivery = delivered }

module _ {A : Type 0} (empty : A) (run : Hop → String → Bool → World → Reply A × World)
    (self : String) (c : Conditions) where
  forwarded-at_once :
      (w : World) (lead : String)
      → c.forward first ≡ at_once
      → remote empty (run first lead) (c.forward first).delivery (steps (c.forward first).others w)
        ≡ run first lead false w
  unfolding remote steps
  forwarded-at_once w lead up = rw up refl

  forward_request-at_once :
      (w : World) (node : Node)
      → lookup (w self).leader (w self).member_list ≡ some node
      → c.forward first ≡ at_once
      → (run first node.consensus_endpoint false w).0.status ≡ ok
      → forward_request empty run self c w ≡ run first node.consensus_endpoint false w
  unfolding forward_request forward_to_leader
  forward_request-at_once w node known up fine =
      rw (known, forward_request, forward_to_leader)
        (simp (forwarded-at_once w node.consensus_endpoint up, fine) ended)
    where
      x : Reply A × World
      x = run first node.consensus_endpoint false w

      ended : (record { status = ok; response = x.0.response }, x.1) ≡ x
      ended = ap (λ s. (record { status = s; response = x.0.response }, x.1)) (sym fine)

  -- A forwarded request that the leader answers with OK has that answer.
  pub by_leader-forwarded :
      (name : String) (own : World → Reply A × World) (w : World) (node : Node)
      → IsFollower (w self)
      → lookup (w self).leader (w self).member_list ≡ some node
      → c.forward first ≡ at_once
      → (run first node.consensus_endpoint false (receive self name w)).0.status ≡ ok
      → by_leader empty run self c name own false w
        ≡ run first node.consensus_endpoint false (receive self name w)
  by_leader-forwarded name own w node follower known up fine =
      let same = receive-SameState self name w self in
      by_leader-IsFollower empty run self c name own w follower
      ∙ forward_request-at_once (receive self name w) node
          (rw (same.leader, same.member_list) known) up fine
