-- ===== src/User/Sessions.antt =====
-- Two runs of the program in user mode: a `set`, and then a `get` of the same key.
use cs739_p2_replicated_data.Base.{
  ℕ, suc, ◌+◌, String, ◌≡◌, refl, ap, ◌∙◌, Bool, false, List, [], ◌∷◌, ◌++◌ as append, str_eq,
}
use cs739_p2_replicated_data.Proto.{SetRequest, GetResponse}
use cs739_p2_replicated_data.Database.{Store}
use cs739_p2_replicated_data.Attempt.Partition.{partition}
use cs739_p2_replicated_data.Attempt.Liveness.{CanCommit}
use cs739_p2_replicated_data.DatabaseRpc.{Weather, set_attempt}
use cs739_p2_replicated_data.DatabaseRpc.Laws.{IsLeader, at_once}
use cs739_p2_replicated_data.User.{
  Arguments, Console, Setting, Passage, print, argument_line, user_set, user_get,
}
use cs739_p2_replicated_data.User.Commands.{Exit, returned}
use cs739_p2_replicated_data.User.Entry.{Table, user_entrypoint, run_get, run_command}
use cs739_p2_replicated_data.User.Laws.{call_get-IsLeader, call_set-IsLeader, call_set_is_read}

-- The call reaches its server at once, and may take a step there.
pub record Arrives (c : Passage) : Type 0 where
  pub slot : c.slot ≡ at_once
  pub fuel : ℕ
  pub enough : c.fuel ≡ suc fuel

module _ (e : Setting) (visit : Store → List String) (show : Table → Table → List String)
    (r : SetRequest) (target lead other : String) (s : Console) (up : String → Bool) where
  abbrev set_arguments : Arguments
  set_arguments = record { command = "set"; target = target; key = r.key; value = r.value }

  abbrev get_arguments : Arguments
  get_arguments = record { command = "get"; target = target; key = r.key; value = other }

  abbrev first_run : Exit × Console
  first_run = user_entrypoint e visit show set_arguments s

  abbrev second_run : Exit × Console
  second_run = user_entrypoint e visit show get_arguments first_run.1

  -- Where the target of a user's calls is the leader, which can commit a `set` of the key in a
  -- network that reaches the members that are up, the key is not "leader", and both calls arrive, a
  -- run of the command "set" and then one of "get" both return, and print, after what was printed
  -- before, their arguments and the value that was set.
  pub user_entrypoint_reads_back :
      e.serves target ≡ lead
      → Arrives (e.passage s.calls)
      → Arrives (e.passage (s.calls + 1))
      → ((e.passage s.calls).weather []).attempt ≡ partition up
      → CanCommit up lead (set_attempt r) s.world
      → str_eq r.key "leader" ≡ false
      → IsLeader (s.world lead)
      → (first_run.0 ≡ returned)
        × (second_run.0 ≡ returned)
        × (second_run.1.output
            ≡ append
                (append
                  (append s.output (argument_line set_arguments ∷ []))
                  (argument_line get_arguments ∷ []))
                (r.value ∷ []))
  unfolding user_entrypoint user_set user_get run_get run_command
  user_entrypoint_reads_back served arrives again partitioned can ordinary leader =
      (refl, refl, ap (append _) (ap (λ v. v ∷ []) value_read))
    where
      weather : Weather
      weather = (e.passage s.calls).weather

      value_read :
          (user_get e target r.key (print (argument_line get_arguments) first_run.1)).0 ≡ r.value
      value_read =
          rw (arrives.slot, again.slot, served, arrives.enough, again.enough)
            (call_get-IsLeader e.user lead again.fuel (e.passage (s.calls + 1)).weather r.key _ (
                call_set-IsLeader e.user lead arrives.fuel weather r s.world up partitioned can
                  ordinary leader)
              ∙ ap (λ (x : GetResponse). x.value)
                  (call_set_is_read e.user lead arrives.fuel weather r s.world up partitioned can
                    ordinary leader))
