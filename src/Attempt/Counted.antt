-- ===== src/Attempt/Counted.antt =====
-- How many rounds a series of attempts adds to a key, and that the round numbers stay `int`s.
use cs739_p2_replicated_data.Base.{
  ℕ, suc, ◌+◌, ◌≤◌, ◌<◌, String, ◌≡◌, refl, sym, ap, ◌∙◌, arith, List, [], ◌∷◌,
}
use mathlib.Core.Path.{subst}
use cs739_p2_replicated_data.Base.Int.{ℤ, pos, eqb_ℤ_refl}
use cs739_p2_replicated_data.Base.Lists.{length, All, All-map}
use cs739_p2_replicated_data.Map.{modify, get_or, size, keys, int_key, string_key}
use cs739_p2_replicated_data.Map.Laws.{lookup-modify}
use cs739_p2_replicated_data.Map.Sorted.{
  IsSorted, modify-IsSorted, missing, missing-some, missing_small, size-insert,
}
use cs739_p2_replicated_data.Proto.{LogEntry, empty_entry}
use cs739_p2_replicated_data.Log.{Rounds}
use cs739_p2_replicated_data.World.{World, Slot}
use cs739_p2_replicated_data.World.Laws.{Calm, Allows}
use cs739_p2_replicated_data.Attempt.{attempt_consensus, next_round}
use cs739_p2_replicated_data.Attempt.Growth.{OnRounds, Growth, attempt-Growth}
use cs739_p2_replicated_data.Attempt.History.{Turn, history, Members}
use cs739_p2_replicated_data.Attempt.Leads.{rounds_at, next_round_small}
use cs739_p2_replicated_data.Attempt.Settings.{attempt-SameSettings}
use cs739_p2_replicated_data.Attempt.Stages.{round_of}

-- Order is kept, and nothing is added but the round.
abbrev Adds : ℤ → Rounds → Rounds → Type 0
Adds round m k = IsSorted m → IsSorted k × (size k + missing round k ≤ size m + missing round m)

added :
    (round : ℤ) (f : LogEntry → LogEntry) (m : Rounds)
    → IsSorted m
    → size (modify round empty_entry f m) ≡ size m + missing round m
unfolding modify
added round f m s = size-insert round _ m s

there :
    (round : ℤ) (f : LogEntry → LogEntry) (m : Rounds)
    → missing round (modify round empty_entry f m) ≡ 0
there round f m =
    missing-some round (f (get_or round empty_entry m)) (modify round empty_entry f m)
      (lookup-modify round round empty_entry f m ∙ rw (eqb_ℤ_refl round) refl)

write-Adds :
    (round : ℤ) (f : LogEntry → LogEntry) (m : Rounds) → Adds round m (modify round empty_entry f m)
write-Adds round f m s =
    (modify-IsSorted round empty_entry f m s, omega (arith, added round f m s, there round f m))

Adds-Growth : (round : ℤ) → Growth (λ n. n ≡ round) (Adds round)
Adds-Growth round = record {
  same = λ m s. (s, omega arith);
  chain = λ l m k h g s. let a = h s in let b = g a.0 in (b.0, omega (arith, a.1, b.1));
  write = λ n e f m.
      subst (λ x. Adds round m (modify x empty_entry f m)) (sym e) (write-Adds round f m);
}

-- No other thread writes to the rounds of the key.
abbrev pub Silent : String → Turn → Type 0
Silent key t = (phase : _) (a : String) → Calm (OnRounds key (λ m k. k ≡ m)) (t.net phase a)

module _ (key : String) (members : List String) (some_member : 0 < length members) where
  Silent-Adds :
      (round : ℤ) (slot : Slot)
      → Calm (OnRounds key (λ m k. k ≡ m)) slot
      → Calm (OnRounds key (Adds round)) slot
  Silent-Adds round slot =
      All-map (Allows (OnRounds key (λ m k. k ≡ m))) (Allows (OnRounds key (Adds round)))
        slot.others (λ e h w a. rw (h w a) (λ s. (s, omega arith)))

  turn_adds :
      (t : Turn) (w : World) (a : String)
      → Members members w
      → Silent key t
      → IsSorted (rounds_at key a w)
      → IsSorted (rounds_at key a (attempt_consensus t.self t.net t.request w).1)
        × (size (rounds_at key a (attempt_consensus t.self t.net t.request w).1)
            ≤ suc (size (rounds_at key a w)))
  turn_adds t w a known silent s =
      let n = round_of t.self t.net t.request w in
      let grown =
        attempt-Growth key (Adds-Growth n) t.self t.net t.request w
          (λ phase b. Silent-Adds n (t.net phase b) (silent phase b))
          (rw (known t.self) some_member) (λ h. refl) a s in
      (grown.0, omega (arith, grown.1, missing_small n (rounds_at key a w)))

  history_adds :
      (ts : List Turn) (w : World) (a : String)
      → Members members w
      → All (Silent key) ts
      → IsSorted (rounds_at key a w)
      → size (rounds_at key a (history ts w)) ≤ size (rounds_at key a w) + length ts
  unfolding history
  history_adds [] w a known silent s = omega arith
  history_adds (t ∷ ts) w a known silent s =
      let one = turn_adds t w a known silent.0 s in
      let known' : Members members (attempt_consensus t.self t.net t.request w).1 =
        λ b. ap keys (attempt-SameSettings t.self t.net t.request w b).member_list ∙ known b in
      omega (
        arith,
        one.1,
        history_adds ts (attempt_consensus t.self t.net t.request w).1 a known' silent.1 one.0,
      )

  -- Where the member list is the same at all processes and not empty, a process whose rounds of a
  -- key are in order, and fewer than 2^31 even with one more for each attempt of the series, takes
  -- the number of its rounds for the next round after the series, without overflow of `int`, and
  -- that is at most their number before plus the number of attempts, whoever makes these and
  -- whatever becomes of their calls, if no other thread writes to the rounds of the key.
  pub history-next_round :
      (ts : List Turn) (w : World) (self : String)
      → Members members w
      → All (Silent key) ts
      → IsSorted (rounds_at key self w)
      → size (rounds_at key self w) + length ts < 2147483648
      → (n : ℕ) × (next_round self key (history ts w) ≡ pos n)
        × (n ≡ size (rounds_at key self (history ts w)))
        × (n ≤ size (rounds_at key self w) + length ts)
  history-next_round ts w self known silent s few =
      let grown = history_adds ts w self known silent s in
      (
        size (rounds_at key self (history ts w)),
        next_round_small self key (history ts w) (omega (arith, grown, few)),
        refl,
        grown,
      )
