-- ===== src/User/Entry.antt =====
-- `user_entrypoint`: the choice among the commands. The order in which a protobuf map is visited is
-- a parameter, and so is the text of the two tables, with their titles, that another library lays
-- out.
use Prim.Native.String.{◌++◌}
use cs739_p2_replicated_data.Base.{
  String, List, [], ◌∷◌, ◌++◌ as append, map, str_eq, if◌then◌else◌,
}
use cs739_p2_replicated_data.Base.Int.{ℤ, pos}
use cs739_p2_replicated_data.Proto.{is_ok}
use cs739_p2_replicated_data.Map.{Map, get_or, string_key}
use cs739_p2_replicated_data.Process.{Node}
use cs739_p2_replicated_data.Database.{Store}
use cs739_p2_replicated_data.User.{
  Arguments, Console, Setting, print, argument_line, user_set, user_get, user_get_leader,
  user_get_stats,
}
use cs739_p2_replicated_data.User.Commands.{
  Exit, returned, threw, test_consensus, test_leader_db, test_5_random_ops, test_1000_random_ops,
  test_recovery,
}

abbrev incoming : List String
incoming =
    "ConsensusRPC::propose" ∷ "ConsensusRPC::accept" ∷ "ConsensusRPC::success"
    ∷ "ConsensusRPC::ping" ∷ "ConsensusRPC::get_leader" ∷ "ConsensusRPC::elect_leader"
    ∷ "DatabaseRPC::get" ∷ "DatabaseRPC::set" ∷ "ConsensusRPC::get_stats" ∷ "DatabaseRPC::get_db"
    ∷ []

abbrev outgoing : List String
outgoing =
    "ConsensusRPCWrapperCall::propose" ∷ "ConsensusRPCWrapperCall::accept"
    ∷ "ConsensusRPCWrapperCall::success" ∷ "ConsensusRPCWrapperCall::ping"
    ∷ "ConsensusRPCWrapperCall::get_leader" ∷ "ConsensusRPCWrapperCall::trigger_election"
    ∷ "DatabaseRPCWrapperCall::get" ∷ "DatabaseRPCWrapperCall::set" ∷ []

-- A row of a table: an address and its counts.
abbrev pub Table : Type 0
Table = List (String × List ℤ)

-- `incount[name]`, for each name
counts : List String → Map String ℤ → List ℤ
unfolding get_or
counts names m = map (λ name. get_or name (pos 0) m) names

endpoint : String × Node → String
endpoint (k, n) = n.consensus_endpoint

module _ (e : Setting) (visit : Store → List String) (show : Table → Table → List String) where
  -- The rows so far, and the members left.
  unfoldable pub test_count : List String → Table → Table → Console → Exit × Console
  unfolding user_get_stats counts
  test_count [] table_incount table_outcount s =
      (returned, record s { output = append s.output (show table_incount table_outcount) })
  test_count (a ∷ as') table_incount table_outcount s =
      let (res, s₁) = user_get_stats e a s in
      let rest =
        test_count as' (append table_incount ((a, counts incoming res.response.incount) ∷ []))
          (append table_outcount ((a, counts outgoing res.response.outcount) ∷ [])) s₁ in
      if is_ok res.status then rest else (threw "RPC failure: get_stats failed", s₁)

  -- The branch of "test_non_leader_db": its own body and the next branch's head are comments, so
  -- that it runs 100 random operations.
  unfoldable pub test_non_leader_db : Console → Exit × Console
  unfolding user_get_leader test_5_random_ops
  test_non_leader_db s =
      let (res, s₁) = user_get_leader e "127.0.1.1:8000" s in
      if is_ok res.status
      then (returned, test_5_random_ops e visit (print ("Leader is: " ++ res.response) s₁))
      else (threw "RPC FAILURE", s₁)

  unfoldable pub run_get : Arguments → Console → Console
  unfolding user_get
  run_get a s = let (message, s₁) = user_get e a.target a.key s in print message s₁

  unfoldable pub run_command : String → Arguments → Console → Exit × Console
  unfolding user_set run_get endpoint test_count test_consensus test_leader_db test_non_leader_db
      test_1000_random_ops test_recovery
  run_command command a s =
      if str_eq command "set"
      then (returned, (user_set e a.target a.key a.value s).1)
      else if str_eq command "get"
      then (returned, run_get a s)
      else if str_eq command "test_leader_c"
      then (returned, test_consensus e "127.0.1.1:8000" s)
      else if str_eq command "test_leader_db"
      then (returned, test_leader_db e s)
      else if str_eq command "test_non_leader_c"
      then (returned, test_consensus e "127.0.1.1:8001" s)
      else if str_eq command "test_non_leader_db"
      then test_non_leader_db s
      else if str_eq command "test_1000_random_ops"
      then (returned, test_1000_random_ops e s)
      else if str_eq command "test_count"
      then test_count (map endpoint (s.world e.user).member_list) [] [] s
      else if str_eq command "test_recovery"
      then (returned, test_recovery e s)
      else if str_eq command "benchmark"
      then (returned, print "Benchmark must be run separately from ./test/benchmark.cc file" s)
      else (returned, s)

  unfoldable pub user_entrypoint : Arguments → Console → Exit × Console
  unfolding run_command
  user_entrypoint a s = run_command a.command a (print (argument_line a) s)
