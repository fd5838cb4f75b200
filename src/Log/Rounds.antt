-- ===== src/Log/Rounds.antt =====
-- The rounds of one key: the largest of them, and the round that the next proposal takes.
use cs739_p2_replicated_data.Base.{
  ℕ, suc, ◌+◌, ◌≤◌, String, ◌≡◌, refl, Bool, true, false, ◌⊎◌, inl, inr, none, [], ◌∷◌, arith,
  if◌then◌else◌,
}
use cs739_p2_replicated_data.Base.Int.{ℤ, pos, ltb_ℤ, eqb_ℤ, eqb_ℤ_refl, ltb_ℤ_asym, max_ℤ, int_min}
use cs739_p2_replicated_data.Base.Lists.{In}
use cs739_p2_replicated_data.Map.{lookup, insert, get_or, keys, size, int_key, string_key}
use cs739_p2_replicated_data.Proto.{LogEntry}
use cs739_p2_replicated_data.Log.{
  Rounds, Log, max_round, largest_round, max_proposal, find_max_proposal, entry,
}

-- No round of the map is above `round`.
abbrev pub IsLatest : ℤ → Rounds → Type 0
IsLatest round [] = Unit
IsLatest round ((r, e) ∷ m) = (ltb_ℤ round r ≡ false) × IsLatest round m

-- Some round of the map is above `round`.
abbrev pub above : ℤ → Rounds → Bool
above round [] = false
above round ((r, e) ∷ m) = if ltb_ℤ round r then true else above round m

max_round-above :
    (round acc : ℤ) (m : Rounds)
    → ltb_ℤ round (max_round acc m) ≡ (if ltb_ℤ round acc then true else above round m)
unfolding max_round
max_round-above round acc [] = ground arith
max_round-above round acc ((r, e) ∷ m) = ground (arith, max_round-above round (max_ℤ acc r) m)

-- For an `int` round, the loop of `success` finds a larger round exactly when there is one.
pub largest_round-above :
    (round : ℤ) (m : Rounds)
    → ltb_ℤ round int_min ≡ false
    → ltb_ℤ round (largest_round m) ≡ above round m
unfolding largest_round
largest_round-above round m h = ground (arith, max_round-above round int_min m)

pub above-IsLatest : (round : ℤ) (m : Rounds) → above round m ≡ false → IsLatest round m
above-IsLatest round [] h = tt
above-IsLatest round ((r, e) ∷ m) h = ground (arith, above-IsLatest round m)

pub IsLatest-above : (round : ℤ) (m : Rounds) → IsLatest round m → above round m ≡ false
IsLatest-above round [] h = refl
IsLatest-above round ((r, e) ∷ m) h = ground (arith, IsLatest-above round m h.1)

-- The rounds are n, n + 1, and so on, with none left out.
abbrev pub RunsFrom : ℕ → Rounds → Type 0
RunsFrom n [] = Unit
RunsFrom n ((r, e) ∷ m) = (r ≡ pos n) × RunsFrom (suc n) m

-- A round from the run or the one after its end.
pub modify-RunsFrom :
    (n k : ℕ) (d : LogEntry) (f : LogEntry → LogEntry) (m : Rounds)
    → RunsFrom n m
    → n ≤ k
    → k ≤ n + size m
    → RunsFrom n (insert (pos k) d m)
unfolding insert
modify-RunsFrom n k d f [] h lo hi = ground arith
modify-RunsFrom n k d f ((r, e) ∷ m) h lo hi = ground (arith, modify-RunsFrom (suc n) k d f m h.1)

pub RunsFrom-fresh :
    (n k : ℕ) (m : Rounds)
    → RunsFrom n m
    → n + size m ≤ k
    → (lookup (pos k) m ≡ none) × (above (pos k) m ≡ false)
unfolding lookup
RunsFrom-fresh n k [] h le = ground arith
RunsFrom-fresh n k ((r, e) ∷ m) h le = ground (arith, RunsFrom-fresh (suc n) k m h.1)

ltb_ℤ-trans : (a b c : ℤ) → ltb_ℤ a b ≡ true → ltb_ℤ b c ≡ true → ltb_ℤ a c ≡ true
ltb_ℤ-trans a b c p q = ground arith

ltb_ℤ-ne : (a b : ℤ) → ltb_ℤ a b ≡ true → eqb_ℤ b a ≡ false
ltb_ℤ-ne a b p = ground arith

-- What the loop of `Find_Max_Proposal` holds when it ends.
abbrev TopOf : ℤ → Rounds → ℤ → Type 0
TopOf acc m top =
    ((top ≡ acc) × (above acc m ≡ false))
    ⊎ (In top (keys m) × (ltb_ℤ acc top ≡ true) × (above top m ≡ false))

TopOf-cons :
    (acc r top : ℤ) (e : LogEntry) (m : Rounds)
    → TopOf (if ltb_ℤ acc r then r else acc) m top
    → TopOf acc ((r, e) ∷ m) top
unfolding keys
TopOf-cons acc r top e m h =
    ground (arith, ltb_ℤ-trans acc r top, ltb_ℤ_asym r top, ltb_ℤ_asym r acc, ltb_ℤ-trans r acc top)

max_proposal-TopOf : (acc : ℤ) (m : Rounds) → TopOf acc m (max_proposal acc m)
unfolding max_proposal
max_proposal-TopOf acc [] = inl (refl, refl)
max_proposal-TopOf acc ((r, e) ∷ m) =
    TopOf-cons acc r _ e m (max_proposal-TopOf (if ltb_ℤ acc r then r else acc) m)

-- Find_Max_Proposal returns ("", 0) when no round of the key is above the given one, and otherwise
-- the largest round of the key, which is above the given one, with the value accepted in it.
pub find_max_proposal-cases :
    (key : String) (round : ℤ) (log : Log)
    → ((above round (get_or key [] log) ≡ false) × (find_max_proposal key round log ≡ ("", pos 0)))
      ⊎ ((r : ℤ) × In r (keys (get_or key [] log))
          × (ltb_ℤ round r ≡ true)
          × (above r (get_or key [] log) ≡ false)
          × (find_max_proposal key round log ≡ ((entry key r log).accepted_value, r)))
unfolding find_max_proposal
find_max_proposal-cases key round log = elim (max_proposal-TopOf round (get_or key [] log)) [
  | inl (e, none_above) ↦ inl (none_above, rw (e, eqb_ℤ_refl))
  | inr (mem, lt, top) ↦
      inr (max_proposal round (get_or key [] log), mem, lt, top, rw (ltb_ℤ-ne round _ lt))
]
