-- ===== src/Log.antt =====
-- src/app.cc, `Consensus`: the Paxos log, a map of keys to maps of round numbers to entries. An
-- access by `pax_log[key][round]` makes what is missing, also where it only reads. Each write is
-- atomic under `log_mutex`.
pub mod Laws
pub mod Rounds
pub mod Latest
pub mod Below
pub mod Same
use cs739_p2_replicated_data.Base.{String, [], ◌∷◌, if◌then◌else◌}
use cs739_p2_replicated_data.Base.Int.{ℤ, pos, ltb_ℤ, eqb_ℤ, max_ℤ, int_min}
use cs739_p2_replicated_data.Map.{Map, get_or, modify, string_key, int_key}
use cs739_p2_replicated_data.Proto.{Operation, LogEntry, empty_entry}

abbrev pub Rounds : Type 0
Rounds = Map ℤ LogEntry

abbrev pub Log : Type 0
Log = Map String Rounds

-- `pax_log[key][round]` as a reference that `f` writes through
unfoldable pub modify_entry : String → ℤ → (LogEntry → LogEntry) → Log → Log
modify_entry key round f log = modify key [] (modify round empty_entry f) log

-- what `pax_log[key][round]` reads: a default entry where there is none
unfoldable pub entry : String → ℤ → Log → LogEntry
entry key round log = get_or round empty_entry (get_or key [] log)

abbrev set_p_server_id : ℤ → LogEntry → LogEntry
set_p_server_id i e = record e { p_server_id = i }

abbrev set_a_server_id : ℤ → LogEntry → LogEntry
set_a_server_id i e = record e { a_server_id = i }

abbrev set_op : Operation → LogEntry → LogEntry
set_op o e = record e { op = o }

abbrev set_accepted_value : String → LogEntry → LogEntry
set_accepted_value v e = record e { accepted_value = v }

-- `Set_Log(key, round)`: an acceptor has received a proposal
unfoldable pub set_log : String → ℤ → Log → Log
unfolding modify_entry
set_log key round log = modify_entry key round (λ e. e) log

-- `Set_Log(key, round, p_server)`: an acceptor promises
unfoldable pub set_log_promise : String → ℤ → ℤ → Log → Log
unfolding modify_entry
set_log_promise key round p_server log = modify_entry key round (set_p_server_id p_server) log

-- `Set_Log(key, round, a_server, op, value)`: an acceptor accepts
unfoldable pub set_log_accept : String → ℤ → ℤ → Operation → String → Log → Log
unfolding modify_entry
set_log_accept key round a_server op value log =
    let log₁ = modify_entry key round (set_a_server_id a_server) log in
    let log₂ = modify_entry key round (set_op op) log₁ in
    modify_entry key round (set_accepted_value value) log₂

-- `Get_Log(key)`
unfoldable pub get_log_key : String → Log → Rounds × Log
unfolding get_or modify
get_log_key key log = (get_or key [] log, modify key [] (λ m. m) log)

-- `Get_Log(key, round)`
unfoldable pub get_log_entry : String → ℤ → Log → LogEntry × Log
unfolding entry modify_entry
get_log_entry key round log = (entry key round log, modify_entry key round (λ e. e) log)

max_round : ℤ → Rounds → ℤ
max_round acc [] = acc
max_round acc ((r, e) ∷ m) = max_round (max_ℤ acc r) m

-- The loop of `success`: the largest round, INT_MIN if there is none.
unfoldable pub largest_round : Rounds → ℤ
unfolding max_round
largest_round m = max_round int_min m

-- The loop of `Find_Max_Proposal`.
max_proposal : ℤ → Rounds → ℤ
max_proposal acc [] = acc
max_proposal acc ((r, e) ∷ m) = max_proposal (if ltb_ℤ acc r then r else acc) m

-- `Find_Max_Proposal`, which reads a copy of the log
unfoldable pub find_max_proposal : String → ℤ → Log → String × ℤ
unfolding max_proposal
find_max_proposal key round log =
    let top = max_proposal round (get_or key [] log) in
    if eqb_ℤ top round then ("", pos 0) else ((entry key top log).accepted_value, top)
