-- ===== src/Tests/Programs.antt =====
-- `main` on one command line, and where one node's servers listen.
use cs739_p2_replicated_data.Base.{
  ℕ, ◌+◌, String, ◌≡◌, ◌↔◌, refl, sym, ap, Bool, false, str_eq, Option, some, [], inl, inr,
}
use cs739_p2_replicated_data.Base.Lists.{In}
use cs739_p2_replicated_data.Map.{lookup, string_key}
use cs739_p2_replicated_data.Config.{Address, to_string, decimal, get_address, consensus, database}
use cs739_p2_replicated_data.Process.{Process, Node}
use cs739_p2_replicated_data.Cluster.{
  done, initialize, make_addresses, set_cluster, own_consensus, own_database,
}
use cs739_p2_replicated_data.Program.{returns, main}
use cs739_p2_replicated_data.Program.Server.{servers, member-servers}
use cs739_p2_replicated_data.Program.Command.{main_command}
use cs739_p2_replicated_data.Tests.{members, settings, process, node_1, fresh}
use cs739_p2_replicated_data.Tests.Clusters.{split_colon, read_port, local, addresses, read_members}
use cs739_p2_replicated_data.Tests.Options.{
  simple, machine, simple-Documented, from_arguments, from_content, command_line, unset,
  both_stores, user_settings, user_parsed,
}
use cs739_p2_replicated_data.Tests.Users.{setting, show_values, no_tables}
use cs739_p2_replicated_data.Tests.Start.{two_launch}
use cs739_p2_replicated_data.User.Entry.{user_entrypoint}
use cs739_p2_replicated_data.World.{update}
use cs739_p2_replicated_data.Options.Schema.{user_options, cmd_options, primary}
use cs739_p2_replicated_data.Options.{Value, validate}
use cs739_p2_replicated_data.Options.Documented.{merge, default_of}
use cs739_p2_replicated_data.Options.Arguments.{UserReads, was_read}

apart :
    (port : ℕ) (a : Address)
    → str_eq (to_string (local port)) "127.0.1.1:8000" ≡ false
    → local port ≡ a
    → to_string a ≡ "127.0.1.1:8000"
    → a ≡ local 8000
apart port a ne e h = cc (
  ne,
  ap (λ (x : Address). str_eq (to_string x) "127.0.1.1:8000") e,
  ap (λ s. str_eq s "127.0.1.1:8000") h,
)

one_alike : (a : Address) → In a addresses → to_string a ≡ to_string (local 8000) → a ≡ local 8000
unfolding addresses local to_string decimal
one_alike a (inl e) h = sym e
one_alike a (inr (inl e)) h = apart 8001 a refl e h
one_alike a (inr (inr (inl e))) h = apart 8002 a refl e h
one_alike a (inr (inr (inr e))) h = absurd e

member-servers_example :
    (q : Process) × (initialize split_colon read_port members (settings 8001) (process 8001 node_1)
      ≡ done q)
    × (n : Node) × (lookup (servers (settings 8000)).consensus_endpoint q.member_list ≡ some n)
    × (n.consensus_endpoint ≡ (servers (settings 8000)).consensus_endpoint)
    × ((n.database_endpoint ≡ (servers (settings 8000)).database_endpoint) ↔ (9000 ≡ 8000 + 1000))
unfolding local addresses own_consensus own_database get_address
member-servers_example =
    member-servers split_colon read_port members addresses (settings 8000) (settings 8001)
      (process 8001 node_1) (local 8001) (local 9001) read_members refl refl (inl refl) one_alike

-- The user's process after its start.
abbrev started : Process
started =
    set_cluster user_settings [] (get_address consensus user_settings)
      (get_address database user_settings) (fresh "user")

started_made :
    initialize split_colon read_port user_settings.cluster user_settings (fresh "user")
    ≡ done started
unfolding initialize make_addresses own_consensus own_database cmd_options validate
started_made = refl

abbrev of_user : String → Option Value
of_user = from_arguments user_options command_line

abbrev of_file : String → Option Value
of_file = from_content user_options "/data"

abbrev third_store : String → Option (Value × Bool)
third_store n = merge (both_stores n) (of_user n) (default_of n user_options)

abbrev fourth_store : String → Option (Value × Bool)
fourth_store n = merge (third_store n) (of_file n) (default_of n user_options)

user_file-UserReads : UserReads simple machine third_store of_file fourth_store
unfolding cmd_options primary
user_file-UserReads = was_read "node.ini" "/data" of_file fourth_store refl refl refl refl

main_command_example :
    main simple machine split_colon read_port setting show_values no_tables two_launch command_line
      (settings 8000)
      unset
      fresh
    ≡ (let (exit, s) =
          user_entrypoint setting show_values no_tables
            (record { command = "set"; target = "127.0.1.1:8000"; key = "k"; value = "u" })
            (record { world = update fresh "user" started; calls = 0; rolls = 0; output = [] }) in
        returns exit s)
unfolding cmd_options primary
main_command_example =
    main_command simple machine split_colon read_port setting show_values no_tables two_launch
      simple-Documented command_line (settings 8000) user_settings fresh started of_user unset
      both_stores third_store fourth_store of_file
      (record { command = "set"; target = "127.0.1.1:8000"; key = "k"; value = "u" }) user_parsed
      refl started_made (refl, (refl, (refl, (refl, tt)))) refl refl user_file-UserReads refl refl
      refl refl refl
