-- ===== src/Attempt/Settings.antt =====
-- No handler, no event and no attempt changes a process's configuration or member list.
use cs739_p2_replicated_data.Base.{String, ◌≡◌, refl, ◌∙◌, Bool, true, false, arith, List, [], ◌∷◌}
use cs739_p2_replicated_data.Base.Lists.{All}
use cs739_p2_replicated_data.Proto.{Request}
use cs739_p2_replicated_data.Process.{Process, count_incoming, count_outgoing}
use cs739_p2_replicated_data.ConsensusRpc.{propose, accept, success, ping}
use cs739_p2_replicated_data.World.{
  World, Slot, Event, propose_at, accept_at, success_at, set_leader_at, set_kv_at,
  count_incoming_at, count_outgoing_at, step,
}
use cs739_p2_replicated_data.World.Laws.{Frame, Rel, Allows, Calm, Rel-update}
use cs739_p2_replicated_data.Attempt.{Network, ◌∷◌}
use cs739_p2_replicated_data.Attempt.Whole.{attempt-Rel}
use cs739_p2_replicated_data.Attempt.Stages.{result}

pub record SameSettings (p q : Process) : Type 0 where
  pub config : q.config ≡ p.config
  pub member_list : q.member_list ≡ p.member_list
  pub current_node : q.current_node ≡ p.current_node

abbrev kept : (p : Process) → SameSettings p p
kept p = record { config = refl; member_list = refl; current_node = refl }

pub count_incoming-SameSettings :
    (name : String) (p : Process) → SameSettings p (count_incoming name p)
unfolding count_incoming
count_incoming-SameSettings name p = ground arith

pub count_outgoing-SameSettings :
    (name : String) (p : Process) → SameSettings p (count_outgoing name p)
unfolding count_outgoing
count_outgoing-SameSettings name p = ground arith

pub SameSettings-Frame : Frame SameSettings
SameSettings-Frame = record {
  same = kept;
  chain = λ p q s h k. record {
    config = k.config ∙ h.config;
    member_list = k.member_list ∙ h.member_list;
    current_node = k.current_node ∙ h.current_node;
  };
  counted = count_outgoing-SameSettings;
}

ping-SameSettings : (c : Bool) (p : Process) → SameSettings p (ping c p).1
unfolding ping
ping-SameSettings c p = count_incoming-SameSettings _ p

propose-SameSettings : (r : Request) (c : Bool) (p : Process) → SameSettings p (propose c r p).1
unfolding propose
propose-SameSettings r true p = count_incoming-SameSettings _ p
propose-SameSettings r false p =
    let h = count_incoming-SameSettings "ConsensusRPC::propose" p in
    record { config = h.config; member_list = h.member_list; current_node = h.current_node }

accept-SameSettings : (r : Request) (c : Bool) (p : Process) → SameSettings p (accept c r p).1
unfolding accept
accept-SameSettings r true p = count_incoming-SameSettings _ p
accept-SameSettings r false p =
    let h = count_incoming-SameSettings "ConsensusRPC::accept" p in
    record { config = h.config; member_list = h.member_list; current_node = h.current_node }

success-SameSettings : (r : Request) (c : Bool) (p : Process) → SameSettings p (success c r p).1
unfolding success
success-SameSettings r c p =
    let h : SameSettings p (count_incoming "ConsensusRPC::success" p) =
      count_incoming-SameSettings _ p in
    record {
      config = ground (arith, h.config);
      member_list = ground (arith, h.member_list);
      current_node = ground (arith, h.current_node);
    }

step-SameSettings : (e : Event) → Allows SameSettings e
unfolding step
step-SameSettings (propose_at a r) w =
    Rel-update SameSettings-Frame w a _ (propose-SameSettings r false (w a))
step-SameSettings (accept_at a r) w =
    Rel-update SameSettings-Frame w a _ (accept-SameSettings r false (w a))
step-SameSettings (success_at a r) w =
    Rel-update SameSettings-Frame w a _ (success-SameSettings r false (w a))
step-SameSettings (set_leader_at a v) w =
    Rel-update SameSettings-Frame w a _
      (record { config = refl; member_list = refl; current_node = refl })
step-SameSettings (set_kv_at a k v) w =
    Rel-update SameSettings-Frame w a _
      (record { config = refl; member_list = refl; current_node = refl })
step-SameSettings (count_incoming_at a n) w =
    Rel-update SameSettings-Frame w a _ (count_incoming-SameSettings n (w a))
step-SameSettings (count_outgoing_at a n) w =
    Rel-update SameSettings-Frame w a _ (count_outgoing-SameSettings n (w a))

pub always_calm : (slot : Slot) → Calm SameSettings slot
always_calm slot = every slot.others
  where
    every : (es : List Event) → All (Allows SameSettings) es
    every [] = tt
    every (e ∷ es) = (step-SameSettings e, every es)

-- Whatever the network and the other threads do, an attempt changes no settings.
pub attempt-SameSettings :
    (self : String) (net : Network) (r : Request) (w : World)
    → Rel SameSettings w (result self net r w).1
attempt-SameSettings self net r w =
    attempt-Rel SameSettings-Frame self net r w (λ phase a. always_calm (net phase a))
      ping-SameSettings (propose-SameSettings _) (λ _. accept-SameSettings _)
      (λ _. success-SameSettings _)
