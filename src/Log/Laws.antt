-- ===== src/Log/Laws.antt =====
-- What the log holds after each overload of `Set_Log` and `Get_Log`, entry by entry.
use cs739_p2_replicated_data.Base.{
  String, ◌≡◌, refl, Bool, ◌&&◌, [], arith, str_eq, eq_iff, eq_refl, if◌then◌else◌,
}
use cs739_p2_replicated_data.Base.Int.{ℤ, eqb_ℤ, eqb_ℤ_iff, eqb_ℤ_refl}
use cs739_p2_replicated_data.Map.{get_or, modify, string_key, int_key}
use cs739_p2_replicated_data.Map.Laws.{get_or-modify}
use cs739_p2_replicated_data.Proto.{Operation, LogEntry, empty_entry}
use cs739_p2_replicated_data.Log.{
  Rounds, Log, modify_entry, entry, set_log, set_log_promise, set_log_accept, get_log_key,
  get_log_entry,
}

-- `(key, round)` is `(k, r)`.
abbrev pub same_slot : String → ℤ → String → ℤ → Bool
same_slot key round k r = str_eq key k && eqb_ℤ round r

module _ (key : String) (round : ℤ) where
  pub entry-modify_entry :
      (k : String) (r : ℤ) (f : LogEntry → LogEntry) (log : Log)
      → entry k r (modify_entry key round f log)
        ≡ (if same_slot key round k r then f (entry key round log) else entry k r log)
  unfolding entry modify_entry
  entry-modify_entry k r f log = ground (
    arith,
    get_or-modify key k [] [] (modify round empty_entry f) log,
    get_or-modify round r empty_entry empty_entry f (get_or key [] log),
    eq_iff key k,
  )

  pub entry-set_log :
      (k : String) (r : ℤ) (log : Log) → entry k r (set_log key round log) ≡ entry k r log
  unfolding set_log
  entry-set_log k r log =
      ground
        (arith, entry-modify_entry k r (λ (e : LogEntry). e) log, eq_iff key k, eqb_ℤ_iff round r)

  pub entry-set_log_promise :
      (k : String) (r p : ℤ) (log : Log)
      → entry k r (set_log_promise key round p log) ≡ (
          if same_slot key round k r
          then record (entry key round log) { p_server_id = p }
          else entry k r log)
  unfolding set_log_promise
  entry-set_log_promise k r p log = entry-modify_entry k r _ log

  pub entry-set_log_accept :
      (k : String) (r a : ℤ) (op : Operation) (v : String) (log : Log)
      → entry k r (set_log_accept key round a op v log) ≡ (
          if same_slot key round k r
          then record (entry key round log) { a_server_id = a; op = op; accepted_value = v }
          else entry k r log)
  unfolding set_log_accept
  entry-set_log_accept k r a op v log =
      simp (entry-modify_entry, eq_refl, eqb_ℤ_refl) (ground arith)

  pub read-get_log_key : (log : Log) → (get_log_key key log).0 ≡ get_or key [] log
  unfolding get_log_key
  read-get_log_key log = refl

  pub entry-get_log_key :
      (k : String) (r : ℤ) (log : Log) → entry k r (get_log_key key log).1 ≡ entry k r log
  unfolding get_log_key entry
  entry-get_log_key k r log =
      ground (arith, get_or-modify key k [] [] (λ (m : Rounds). m) log, eq_iff key k)

  pub read-get_log_entry : (log : Log) → (get_log_entry key round log).0 ≡ entry key round log
  unfolding get_log_entry
  read-get_log_entry log = refl

  pub entry-get_log_entry :
      (k : String) (r : ℤ) (log : Log) → entry k r (get_log_entry key round log).1 ≡ entry k r log
  unfolding get_log_entry
  entry-get_log_entry k r log =
      ground
        (arith, entry-modify_entry k r (λ (e : LogEntry). e) log, eq_iff key k, eqb_ℤ_iff round r)
