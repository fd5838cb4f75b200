-- ===== src/User.antt =====
-- src/entrypoint.cc, `user_entrypoint`: the commands by which a user sets, reads and tests the
-- store. Colours, the clock and `sleep` are left out.
pub mod Commands
pub mod Entry
pub mod Laws
pub mod Sessions
use Prim.Native.String.{◌++◌}
use cs739_p2_replicated_data.Base.{
  ℕ, zero, suc, ◌+◌, String, List, [], ◌∷◌, ◌++◌ as append, if◌then◌else◌,
}
use cs739_p2_replicated_data.Config.{decimal}
use cs739_p2_replicated_data.Proto.{
  Status, ok, failed, cancelled, unknown, deadline_exceeded, aborted, unavailable, is_ok, Reply,
  StatisticsResponse,
}
use cs739_p2_replicated_data.Database.{Store}
use cs739_p2_replicated_data.World.{World, Slot}
use cs739_p2_replicated_data.Call.{call_ping, call_get_leader, call_get_stats}
use cs739_p2_replicated_data.DatabaseRpc.{Weather}
use cs739_p2_replicated_data.DatabaseCall.{call_get, call_set, call_get_db}

-- `variables`, as the options parser leaves them: it has a default for each, so that the test for
-- a missing command never fires.
pub record Arguments : Type 0 where
  pub command : String
  pub target : String
  pub key : String
  pub value : String

-- The processes, the number of calls made, the number of calls of `rand`, and the lines printed.
pub record Console : Type 0 where
  pub world : World
  pub calls : ℕ
  pub rolls : ℕ
  pub output : List String

-- What happens around one call, and around the handlers that serve it.
pub record Passage : Type 0 where
  pub slot : Slot
  pub fuel : ℕ
  pub weather : Weather

-- The user's process, the member that serves at a database or consensus address, and the passage
-- of each call.
pub record Setting : Type 0 where
  pub user : String
  pub serves : String → String
  pub passage : ℕ → Passage
  pub rand : ℕ → ℕ

abbrev pub print : String → Console → Console
print line s = record s { output = append s.output (line ∷ []) }

-- `Status::error_code()`
abbrev pub error_code : Status → ℕ
error_code ok = 0
error_code (failed cancelled m) = 1
error_code (failed unknown m) = 2
error_code (failed deadline_exceeded m) = 4
error_code (failed aborted m) = 10
error_code (failed unavailable m) = 14

abbrev pub argument_line : Arguments → String
argument_line a =
    "arguments provided: " ++ a.command ++ " " ++ a.key ++ " " ++ a.value ++ " " ++ a.target

abbrev after_call : World → Console → Console
after_call w s = record s { world = w; calls = s.calls + 1 }

module _ (e : Setting) where
  unfoldable pub user_set : String → String → String → Console → Status × Console
  user_set target key value s =
      let c : Passage = e.passage s.calls in
      let (r, w) =
        call_set e.user c.slot (e.serves target) c.fuel c.weather
          (record { key = key; value = value }) s.world in
      (r, after_call w s)

  unfoldable pub user_get : String → String → Console → String × Console
  user_get target key s =
      let c : Passage = e.passage s.calls in
      let (r, w) = call_get e.user c.slot (e.serves target) c.fuel c.weather key s.world in
      (r, after_call w s)

  unfoldable pub user_get_db : String → Console → Store × Console
  user_get_db target s =
      let (r, w) = call_get_db e.user (e.passage s.calls).slot (e.serves target) s.world in
      (r, after_call w s)

  unfoldable pub user_ping : String → Console → Reply Unit × Console
  user_ping target s =
      let (r, w) = call_ping e.user (e.passage s.calls).slot (e.serves target) s.world in
      (r, after_call w s)

  unfoldable pub user_get_leader : String → Console → Reply String × Console
  user_get_leader target s =
      let (r, w) = call_get_leader e.user (e.passage s.calls).slot (e.serves target) s.world in
      (r, after_call w s)

  unfoldable pub user_get_stats : String → Console → Reply StatisticsResponse × Console
  user_get_stats target s =
      let (r, w) = call_get_stats e.user (e.passage s.calls).slot (e.serves target) s.world in
      (r, after_call w s)
