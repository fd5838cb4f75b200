-- ===== src/Log/Below.antt =====
-- Rounds that are all below a number, and what a write to the round of that number does to them.
use cs739_p2_replicated_data.Base.{
  ℕ, suc, ◌+◌, ◌≤◌, ◌≢◌, ◌≡◌, refl, true, false, none, [], ◌∷◌, arith,
}
use cs739_p2_replicated_data.Base.Int.{ℤ, pos, ltb_ℤ, eqb_ℤ_iff}
use cs739_p2_replicated_data.Map.{lookup, insert, modify, size, int_key}
use cs739_p2_replicated_data.Map.Laws.{lookup-modify}
use cs739_p2_replicated_data.Proto.{LogEntry, empty_entry}
use cs739_p2_replicated_data.Log.{Rounds}
use cs739_p2_replicated_data.Log.Rounds.{above, RunsFrom, RunsFrom-fresh}

abbrev pub Below : ℕ → Rounds → Type 0
Below n [] = Unit
Below n ((r, e) ∷ m) = (ltb_ℤ r (pos n) ≡ true) × Below n m

pub Below-suc : (n : ℕ) (m : Rounds) → Below n m → Below (suc n) m
Below-suc n [] h = tt
Below-suc n ((r, e) ∷ m) (h, k) = (ltb-suc r h, Below-suc n m k)
  where
    ltb-suc : (r : ℤ) → ltb_ℤ r (pos n) ≡ true → ltb_ℤ r (pos (suc n)) ≡ true
    ltb-suc r h = ground arith

pub Below-lookup : (n : ℕ) (m : Rounds) → Below n m → lookup (pos n) m ≡ none
unfolding lookup
Below-lookup n [] h = refl
Below-lookup n ((r, e) ∷ m) (h, k) = ground (arith, eqb_ℤ_iff r (pos n), Below-lookup n m)

pub Below-above : (n : ℕ) (m : Rounds) → Below n m → above (pos n) m ≡ false
Below-above n [] h = refl
Below-above n ((r, e) ∷ m) (h, k) = ground (arith, Below-above n m)

Below-insert :
    (n : ℕ) (e : LogEntry) (m : Rounds) → Below (suc n) m → Below (suc n) (insert (pos n) e m)
unfolding insert
Below-insert n e [] h = ground arith
Below-insert n e ((r, d) ∷ m) (h, k) = ground (arith, Below-insert n e m)

pub Below-modify :
    (n : ℕ) (f : LogEntry → LogEntry) (m : Rounds)
    → Below (suc n) m
    → Below (suc n) (modify (pos n) empty_entry f m)
unfolding modify
Below-modify n f m h = Below-insert n _ m h

-- A round that has an entry keeps one.
pub modify-ne-none :
    (n k : ℤ) (f : LogEntry → LogEntry) (m : Rounds)
    → lookup k m ≢ none
    → lookup k (modify n empty_entry f m) ≢ none
modify-ne-none n k f m h = ground (arith, lookup-modify n k empty_entry f m)

pub modify-ne-none_self :
    (n : ℤ) (f : LogEntry → LogEntry) (m : Rounds) → lookup n (modify n empty_entry f m) ≢ none
modify-ne-none_self n f m = ground (arith, lookup-modify n n empty_entry f m, eqb_ℤ_iff n n)

-- The rounds are `base`, `base + 1`, and so on, up to `n` or the one before it.
abbrev pub RunsTo : ℕ → ℕ → Rounds → Type 0
RunsTo base n m = RunsFrom base m × (n ≤ base + size m) × (base + size m ≤ suc n)

RunsTo-insert :
    (base n : ℕ) (e : LogEntry) (m : Rounds)
    → base ≤ n
    → RunsTo base n m
    → RunsTo base n (insert (pos n) e m)
unfolding insert
RunsTo-insert base n e [] le h = ground arith
RunsTo-insert base n e ((r, d) ∷ m) le h = ground (arith, RunsTo-insert (suc base) n e m)

pub RunsTo-modify :
    (n : ℕ) (f : LogEntry → LogEntry) (m : Rounds)
    → RunsTo 0 n m
    → RunsTo 0 n (modify (pos n) empty_entry f m)
unfolding modify
RunsTo-modify n f m h = RunsTo-insert 0 n _ m (omega arith) h

-- With an entry at `n` the run ends there.
pub RunsTo-end :
    (n : ℕ) (m : Rounds) → RunsTo 0 n m → lookup (pos n) m ≢ none → RunsFrom 0 m × (size m ≡ suc n)
RunsTo-end n m (run, lo, hi) h = (run, ground (arith, RunsFrom-fresh 0 n m run))
