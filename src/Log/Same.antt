-- ===== src/Log/Same.antt =====
-- Logs that show the same rounds for every key, and what each access makes of them.
use cs739_p2_replicated_data.Base.{String, ◌≡◌, refl, sym, ◌∙◌, [], arith, eq_iff, eq_refl}
use cs739_p2_replicated_data.Base.Int.{ℤ}
use cs739_p2_replicated_data.Map.{get_or, string_key, int_key}
use cs739_p2_replicated_data.Map.Laws.{get_or-modify, modify_again}
use cs739_p2_replicated_data.Log.Latest.{rounds-modify_entry}
use cs739_p2_replicated_data.Proto.{LogEntry, Operation, empty_entry}
use cs739_p2_replicated_data.Log.{
  Rounds, Log, modify_entry, set_log, set_log_accept, get_log_key, get_log_entry, entry,
}

-- A key that is missing counts as one without rounds.
abbrev pub SameRounds : Log → Log → Type 0
SameRounds l l' = (k : String) → get_or k [] l ≡ get_or k [] l'

pub SameRounds-trans : (l m n : Log) → SameRounds l m → SameRounds m n → SameRounds l n
SameRounds-trans l m n h g k = h k ∙ g k

pub SameRounds-sym : (l m : Log) → SameRounds l m → SameRounds m l
SameRounds-sym l m h k = sym (h k)

module _ (key : String) (round : ℤ) where
  pub modify_entry-SameRounds :
      (f : LogEntry → LogEntry) (l l' : Log)
      → SameRounds l l'
      → SameRounds (modify_entry key round f l) (modify_entry key round f l')
  modify_entry-SameRounds f l l' h k =
      rw (rounds-modify_entry key k round f l, rounds-modify_entry key k round f l', h key, h k)
        refl

  -- An entry that was only looked at before it is written.
  pub modify_entry_looked :
      (f : LogEntry → LogEntry) (l : Log)
      → SameRounds
          (modify_entry key round f (modify_entry key round (λ e. e) l))
          (modify_entry key round f l)
  modify_entry_looked f l k =
      let looked : Log = modify_entry key round (λ e. e) l in
      ground (
        arith,
        rounds-modify_entry key k round f looked,
        rounds-modify_entry key key round (λ (e : LogEntry). e) l,
        rounds-modify_entry key k round (λ (e : LogEntry). e) l,
        rounds-modify_entry key k round f l,
        eq_refl key,
        modify_again round empty_entry (λ (e : LogEntry). e) f (get_or key [] l),
      )

  pub set_log-SameRounds :
      (l l' : Log) → SameRounds l l' → SameRounds (set_log key round l) (set_log key round l')
  unfolding set_log
  set_log-SameRounds l l' h = modify_entry-SameRounds _ l l' h

  pub set_log_accept-SameRounds :
      (a : ℤ) (op : Operation) (v : String) (l l' : Log)
      → SameRounds l l'
      → SameRounds (set_log_accept key round a op v l) (set_log_accept key round a op v l')
  unfolding set_log_accept
  set_log_accept-SameRounds a op v l l' h =
      modify_entry-SameRounds _ _ _
        (modify_entry-SameRounds _ _ _ (modify_entry-SameRounds _ l l' h))

  -- `Get_Log(key, round)` leaves what `Set_Log(key, round)` does.
  pub get_log_entry-set_log : (l : Log) → (get_log_entry key round l).1 ≡ set_log key round l
  unfolding get_log_entry set_log
  get_log_entry-set_log l = refl

  -- A read of an entry after `Set_Log(key, round)` adds nothing to it.
  pub set_log_again :
      (l : Log) → SameRounds (set_log key round (set_log key round l)) (set_log key round l)
  unfolding set_log
  set_log_again l = modify_entry_looked _ l

  pub set_log_accept_looked :
      (a : ℤ) (op : Operation) (v : String) (l : Log)
      → SameRounds
          (set_log_accept key round a op v (set_log key round l))
          (set_log_accept key round a op v l)
  unfolding set_log_accept set_log
  set_log_accept_looked a op v l =
      modify_entry-SameRounds _ _ _ (modify_entry-SameRounds _ _ _ (modify_entry_looked _ l))

pub get_log_key-SameRounds : (key : String) (l : Log) → SameRounds (get_log_key key l).1 l
unfolding get_log_key
get_log_key-SameRounds key l k =
    ground (arith, get_or-modify key k [] [] (λ (m : Rounds). m) l, eq_iff key k)

-- What an entry is depends on its key's rounds only.
pub entry-SameRounds :
    (k : String) (n : ℤ) (l l' : Log) → SameRounds l l' → entry k n l ≡ entry k n l'
unfolding entry
entry-SameRounds k n l l' h = rw (h k) refl
