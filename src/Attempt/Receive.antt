-- ===== src/Attempt/Receive.antt =====
-- The count of a request takes nothing from what an attempt needs.
use cs739_p2_replicated_data.Base.{String, ◌≡◌, refl, ap, ◌∙◌, Bool}
use cs739_p2_replicated_data.Map.{keys}
use cs739_p2_replicated_data.Proto.{Request}
use cs739_p2_replicated_data.Process.{Process}
use cs739_p2_replicated_data.World.{World}
use cs739_p2_replicated_data.World.Laws.{Rel, Frame}
use cs739_p2_replicated_data.ConsensusRpc.Effects.{pax_log-count_outgoing, count_outgoing-SameState}
use cs739_p2_replicated_data.Attempt.{next_round}
use cs739_p2_replicated_data.Attempt.Stages.{members_of, round_of}
use cs739_p2_replicated_data.Attempt.Partition.{partition}
use cs739_p2_replicated_data.Attempt.Liveness.{CanCommit}

-- The process has the same log and the same members.
pub record SameLog (p q : Process) : Type 0 where
  pub pax_log : q.pax_log ≡ p.pax_log
  pub member_list : q.member_list ≡ p.member_list

pub SameLog-Frame : Frame SameLog
SameLog-Frame = record {
  same = λ p. record { pax_log = refl; member_list = refl };
  chain = λ p q t h k. record {
    pax_log = k.pax_log ∙ h.pax_log;
    member_list = k.member_list ∙ h.member_list;
  };
  counted = λ name p. record {
    pax_log = pax_log-count_outgoing name p;
    member_list = (count_outgoing-SameState name p).member_list;
  };
}

module _ (up : String → Bool) (self : String) (r : Request) (w w' : World)
    (same : Rel SameLog w w') where
  same_members : members_of self (partition up) r w' ≡ members_of self (partition up) r w
  same_members = ap keys (same self).member_list

  same_round : round_of self (partition up) r w' ≡ round_of self (partition up) r w
  unfolding next_round
  same_round = rw (same self).pax_log refl

  pub CanCommit-SameLog : CanCommit up self r w → CanCommit up self r w'
  CanCommit-SameLog can = record {
    distinct = rw same_members can.distinct;
    is_member = rw same_members can.is_member;
    is_up = can.is_up;
    half_up = rw same_members can.half_up;
    free = λ a t. rw (same_round, (same a).pax_log) (can.free a t);
    latest = λ a t. rw (same_round, (same a).pax_log) (can.latest a t);
  }
