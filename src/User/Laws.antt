-- ===== src/User/Laws.antt =====
-- What a user reads after a write.
use cs739_p2_replicated_data.Base.{
  ℕ, suc, String, ◌≡◌, refl, sym, ap, ◌∙◌, Bool, false, [], eq_refl, str_eq,
}
use cs739_p2_replicated_data.Proto.{SetRequest, GetResponse, Reply}
use cs739_p2_replicated_data.ConsensusRpc.Effects.{SameState}
use cs739_p2_replicated_data.World.{World, steps, count_call}
use cs739_p2_replicated_data.World.Laws.{Rel, Rel-count_call}
use cs739_p2_replicated_data.Attempt.Abort.{SameState-Frame}
use cs739_p2_replicated_data.Attempt.Settings.{SameSettings, SameSettings-Frame}
use cs739_p2_replicated_data.Election.{remote}
use cs739_p2_replicated_data.DatabaseRpc.{Weather, set_attempt, local_get}
use cs739_p2_replicated_data.DatabaseRpc.Laws.{IsLeader, IsLeader-same, at_once}
use cs739_p2_replicated_data.DatabaseRpc.Reads.{get-IsLeader, local_get-SameState}
use cs739_p2_replicated_data.DatabaseCall.{call_get, call_set, text_of}
use cs739_p2_replicated_data.DatabaseRpc.Writes.{set_then_get, set-IsLeader_after}
use cs739_p2_replicated_data.Attempt.Partition.{partition}
use cs739_p2_replicated_data.Attempt.Liveness.{CanCommit}
use cs739_p2_replicated_data.Attempt.Receive.{SameLog, SameLog-Frame, CanCommit-SameLog}
use cs739_p2_replicated_data.Base.Int.{pos}

-- A user's `get` that reaches the leader.
pub call_get-IsLeader :
    (user lead : String) (fuel : ℕ) (weather : Weather) (key : String) (w : World)
    → IsLeader (w lead)
    → (call_get user at_once lead (suc fuel) weather key w).0 ≡ (local_get key (w lead)).value
unfolding call_get remote steps
call_get-IsLeader user lead fuel weather key w h =
    ap (λ (x : Reply GetResponse × World). text_of x.0) (get-IsLeader fuel lead weather key u leads)
    ∙ ap (λ (x : GetResponse). x.value) (local_get-SameState key (w lead) (u lead) (counted lead))
  where
    u : World
    u = count_call user "DatabaseRPCWrapperCall::get" w

    counted : Rel SameState w u
    counted = Rel-count_call SameState-Frame user "DatabaseRPCWrapperCall::get" w

    settings : Rel SameSettings w u
    settings = Rel-count_call SameSettings-Frame user "DatabaseRPCWrapperCall::get" w

    leads : IsLeader (u lead)
    leads = IsLeader-same (w lead) (u lead) (counted lead).leader (settings lead).config h

module _ (user lead : String) (fuel : ℕ) (weather : Weather) (request : SetRequest) (w : World)
    (up : String → Bool) (partitioned : (weather []).attempt ≡ partition up)
    (can : CanCommit up lead (set_attempt request) w)
    (ordinary : str_eq request.key "leader" ≡ false) (leader : IsLeader (w lead)) where
  abbrev u : World
  u = count_call user "DatabaseRPCWrapperCall::set" w

  counted : Rel SameState w u
  counted = Rel-count_call SameState-Frame user "DatabaseRPCWrapperCall::set" w

  settings : Rel SameSettings w u
  settings = Rel-count_call SameSettings-Frame user "DatabaseRPCWrapperCall::set" w

  counted_log : Rel SameLog w u
  counted_log = Rel-count_call SameLog-Frame user "DatabaseRPCWrapperCall::set" w

  can_still : CanCommit up lead (set_attempt request) u
  can_still = CanCommit-SameLog up lead (set_attempt request) w u counted_log can

  leads : IsLeader (u lead)
  leads = IsLeader-same (w lead) (u lead) (counted lead).leader (settings lead).config leader

  -- The world after a user's `set` that reaches the leader.
  abbrev written : World
  written = (call_set user at_once lead (suc fuel) weather request w).1

  pub call_set-IsLeader : IsLeader (written lead)
  unfolding call_set remote steps
  call_set-IsLeader =
      set-IsLeader_after fuel lead weather request u up partitioned can_still ordinary leads

  pub call_set_is_read :
      local_get request.key (written lead) ≡ record { value = request.value; error = pos 0 }
  unfolding call_set remote steps
  call_set_is_read =
      let after_set =
        set_then_get fuel lead weather request u up partitioned can_still ordinary leads in
      ap (λ (x : Reply GetResponse × World). x.0.response)
        (sym (get-IsLeader 0 lead weather request.key written call_set-IsLeader))
      ∙ ap (λ (x : Reply GetResponse). x.response) (after_set.1 0 weather request.key)
      ∙ rw (eq_refl request.key) refl
