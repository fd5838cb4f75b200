-- ===== src/Log/Latest.antt =====
-- Writes to one round of a key make no round larger than it, and leave other keys' rounds alone.
use cs739_p2_replicated_data.Base.{
  String, ◌≡◌, true, [], ◌∷◌, arith, str_eq, eq_refl, if◌then◌else◌,
}
use cs739_p2_replicated_data.Base.Int.{ℤ, ltb_ℤ, eqb_ℤ_iff}
use cs739_p2_replicated_data.Map.{get_or, insert, modify, string_key, int_key}
use cs739_p2_replicated_data.Map.Laws.{get_or-modify}
use cs739_p2_replicated_data.Proto.{Operation, LogEntry, empty_entry}
use cs739_p2_replicated_data.Log.{
  Rounds, Log, modify_entry, set_log, set_log_accept, get_log_key, get_log_entry,
}
use cs739_p2_replicated_data.Log.Rounds.{above}

-- the rounds of a key
abbrev pub rounds : String → Log → Rounds
rounds key log = get_or key [] log

pub rounds-modify_entry :
    (key k : String) (round : ℤ) (f : LogEntry → LogEntry) (log : Log)
    → rounds k (modify_entry key round f log)
      ≡ (if str_eq key k then modify round empty_entry f (rounds key log) else rounds k log)
unfolding modify_entry
rounds-modify_entry key k round f log = get_or-modify key k [] [] (modify round empty_entry f) log

above-insert : (n : ℤ) (e : LogEntry) (m : Rounds) → above n (insert n e m) ≡ above n m
unfolding insert
above-insert n e [] = ground arith
above-insert n e ((r, d) ∷ m) = ground (arith, eqb_ℤ_iff r n, above-insert n e m)

above-insert_any :
    (n k : ℤ) (e : LogEntry) (m : Rounds)
    → above n (insert k e m) ≡ (if ltb_ℤ n k then true else above n m)
unfolding insert
above-insert_any n k e [] = ground arith
above-insert_any n k e ((r, d) ∷ m) = ground (arith, eqb_ℤ_iff r k, above-insert_any n k e m)

above-modify_entry_any :
    (key : String) (n k : ℤ) (f : LogEntry → LogEntry) (log : Log)
    → above n (rounds key (modify_entry key k f log))
      ≡ (if ltb_ℤ n k then true else above n (rounds key log))
above-modify_entry_any key n k f log =
    rw (rounds-modify_entry, eq_refl) (unfold modify in above-insert_any n k _ (rounds key log))

-- A write to one round of a key, seen from any other.
pub above-set_log_accept_any :
    (key : String) (n k i : ℤ) (op : Operation) (v : String) (log : Log)
    → above n (rounds key (set_log_accept key k i op v log))
      ≡ (if ltb_ℤ n k then true else above n (rounds key log))
unfolding set_log_accept
above-set_log_accept_any key n k i op v log = simp above-modify_entry_any (ground arith)

above-modify_entry :
    (key : String) (n : ℤ) (f : LogEntry → LogEntry) (log : Log)
    → above n (rounds key (modify_entry key n f log)) ≡ above n (rounds key log)
above-modify_entry key n f log = rw (rounds-modify_entry, eq_refl) (above-modify (rounds key log))
  where
    above-modify : (m : Rounds) → above n (modify n empty_entry f m) ≡ above n m
    above-modify m = unfold modify in above-insert n _ m

module _ (key : String) (n : ℤ) where
  pub above-set_log :
      (log : Log) → above n (rounds key (set_log key n log)) ≡ above n (rounds key log)
  unfolding set_log
  above-set_log log = above-modify_entry key n _ log

  pub above-get_log_entry :
      (log : Log) → above n (rounds key (get_log_entry key n log).1) ≡ above n (rounds key log)
  unfolding get_log_entry
  above-get_log_entry log = above-modify_entry key n _ log

  pub above-set_log_accept :
      (i : ℤ) (op : Operation) (v : String) (log : Log)
      → above n (rounds key (set_log_accept key n i op v log)) ≡ above n (rounds key log)
  unfolding set_log_accept
  above-set_log_accept i op v log = simp above-modify_entry

  pub above-get_log_key :
      (log : Log) → above n (rounds key (get_log_key key log).1) ≡ above n (rounds key log)
  unfolding get_log_key
  above-get_log_key log = rw (get_or-modify, eq_refl)
