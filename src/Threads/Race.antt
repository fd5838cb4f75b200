-- ===== src/Threads/Race.antt =====
-- Two threads that handle successes for one key at the same time.
use cs739_p2_replicated_data.Base.{
  ℕ, String, refl, sym, ◌≡◌, true, false, arith, some, List, [], ◌∷◌, str_eq, nat_eq, if◌then◌else◌,
}
use cs739_p2_replicated_data.Base.Int.{ℤ, ltb_ℤ, ltb_ℤ_irrefl, ltb_ℤ_asym, int_min}
use cs739_p2_replicated_data.Map.{lookup, string_key}
use cs739_p2_replicated_data.Proto.{Request, Reply}
use cs739_p2_replicated_data.Log.{Rounds, get_log_key}
use cs739_p2_replicated_data.Log.Laws.{read-get_log_key}
use cs739_p2_replicated_data.Log.Rounds.{above, largest_round-above}
use cs739_p2_replicated_data.Log.Latest.{rounds, above-set_log_accept_any, above-get_log_key}
use cs739_p2_replicated_data.Database.{set_kv}
use cs739_p2_replicated_data.Process.{Process, count_incoming}
use cs739_p2_replicated_data.ConsensusRpc.{success, apply_success}
use cs739_p2_replicated_data.ConsensusRpc.Effects.{success_log, pax_log-count_incoming}
use cs739_p2_replicated_data.ConsensusRpc.Newest.{
  above-success, done, newest-success, older-success, lookup-set_kv_self,
}
use cs739_p2_replicated_data.Threads.Whole.{finish_whole}
use cs739_p2_replicated_data.Threads.{
  Thread, success_start, success_apply, informed, advance, System, turn, run,
}

-- Thread 0 handles the success of `r₁`, and every other one that of `r₂`.
unfoldable pub informing : Request → Request → Process → System
informing r₁ r₂ p = record {
  process = p;
  thread = λ i. if nat_eq i 0 then success_start false r₁ else success_start false r₂;
}

-- Thread 0 is overtaken by thread 1 between its test and its write.
abbrev pub overtaken : List ℕ
overtaken = 0 ∷ 0 ∷ 0 ∷ 1 ∷ 1 ∷ 1 ∷ 1 ∷ 0 ∷ []

-- The process when thread 0 is about to store its value.
abbrev paused : Request → Process → Process
paused r p =
    let q : Process = count_incoming "ConsensusRPC::success" p in
    record q { pax_log = (get_log_key r.key (success_log r q)).1 }

above-paused :
    (n : ℤ) (r : Request) (p : Process)
    → above n (rounds r.key (paused r p).pax_log)
      ≡ (if ltb_ℤ n r.round then true else above n (rounds r.key p.pax_log))
above-paused n r p =
    let name : String = "ConsensusRPC::success" in
    rw
      (
        above-get_log_key r.key n (success_log r (count_incoming name p)),
        pax_log-count_incoming name p,
        above-set_log_accept_any r.key n r.round r.pserver_id r.op r.value p.pax_log,
      )
      refl

-- The first three steps of a success, of which the third is the test.
abbrev pause : Thread → Process → Thread × Process
pause t p = let (t₁, p₁) = advance t p in let (t₂, p₂) = advance t₁ p₁ in advance t₂ p₂

newest-pause :
    (r : Request) (p : Process)
    → ltb_ℤ r.round int_min ≡ false
    → above r.round (rounds r.key p.pax_log) ≡ false
    → pause (success_start false r) p ≡ (success_apply r, paused r p)
unfolding advance
newest-pause r p int newest =
    let name : String = "ConsensusRPC::success" in
    let logged : (count_incoming name p).pax_log ≡ p.pax_log = pax_log-count_incoming name p in
    let q : Process = count_incoming name p in
    let same = above-set_log_accept_any r.key r.round r.round r.pserver_id r.op r.value q.pax_log in
    let top = largest_round-above r.round (rounds r.key (success_log r q)) int in
    let late : above r.round (rounds r.key (success_log r q)) ≡ false =
      rw (same, ltb_ℤ_irrefl r.round, logged, newest) refl in
    rw (read-get_log_key r.key r.round (success_log r q), top, late) refl

run-overtaken :
    (r₁ r₂ : Request) (p : Process)
    → ltb_ℤ r₁.round int_min ≡ false
    → above r₁.round (rounds r₁.key p.pax_log) ≡ false
    → let after : Reply Unit × Process = success false r₂ (paused r₁ p) in
      let s : System = run overtaken (informing r₁ r₂ p) in
      (s.thread 0 ≡ informed done)
      × (s.thread 1 ≡ informed after.0)
      × (s.process ≡ apply_success r₁ after.1)
unfolding run turn informing
run-overtaken r₁ r₂ p int newest =
    let first = newest-pause r₁ p int newest in
    let second = (finish_whole false r₂ (paused r₁ p)).2 in
    (
      rw (first, second) (unfold advance in refl),
      rw (first, second) refl,
      rw (first, second) (unfold advance in refl),
    )

above-below : (n k : ℤ) (m : Rounds) → ltb_ℤ n k ≡ true → above n m ≡ false → above k m ≡ false
above-below n k [] lt h = refl
above-below n k ((r, e) ∷ m) lt h = ground (arith, above-below n k m lt)

int-below : (n k : ℤ) → ltb_ℤ n int_min ≡ false → ltb_ℤ n k ≡ true → ltb_ℤ k int_min ≡ false
int-below n k h lt = ground arith

apply-store :
    (r : Request) (p : Process)
    → str_eq r.key "leader" ≡ false
    → (apply_success r p).kv_store ≡ set_kv r.key r.value p.kv_store
apply-store r p named = rw named refl

-- Two successes for one key other than "leader", of rounds `r₁ < r₂` that are `int`s, where the
-- log has no round of the key above `r₁`: run one after the other, in either order, they leave the
-- value of `r₂` in the store; where the thread of `r₁` is overtaken by that of `r₂` between its
-- test and its write, both reply OK and the store is left with the older value, that of `r₁`.
pub overtaken-stores_older :
    (r₁ r₂ : Request) (p : Process)
    → r₂.key ≡ r₁.key
    → str_eq r₁.key "leader" ≡ false
    → ltb_ℤ r₁.round int_min ≡ false
    → ltb_ℤ r₁.round r₂.round ≡ true
    → above r₁.round (rounds r₁.key p.pax_log) ≡ false
    → let s : System = run overtaken (informing r₁ r₂ p) in
      (lookup r₁.key (success false r₂ (success false r₁ p).1).1.kv_store ≡ some r₂.value)
      × (lookup r₁.key (success false r₁ (success false r₂ p).1).1.kv_store ≡ some r₂.value)
      × (s.thread 0 ≡ informed done)
      × (s.thread 1 ≡ informed done)
      × (lookup r₁.key s.process.kv_store ≡ some r₁.value)
overtaken-stores_older r₁ r₂ p key named int lt newest =
    let named₂ : str_eq r₂.key "leader" ≡ false = rw key named in
    let int₂ = int-below r₁.round r₂.round int lt in
    let small : above r₂.round (rounds r₁.key p.pax_log) ≡ false =
      above-below r₁.round r₂.round (rounds r₁.key p.pax_log) lt newest in
    let newest₂ : above r₂.round (rounds r₂.key p.pax_log) ≡ false = rw key small in
    let back : ltb_ℤ r₂.round r₁.round ≡ false = ltb_ℤ_asym r₁.round r₂.round lt in
    let s₁ : Process = (success false r₁ p).1 in
    let s₂ : Process = (success false r₂ p).1 in
    let in_order : above r₂.round (rounds r₂.key s₁.pax_log) ≡ false =
      rw (key, above-success r₂.round r₁ p, back, small) refl in
    let reversed : above r₁.round (rounds r₁.key s₂.pax_log) ≡ true =
      rw (sym key, above-success r₁.round r₂ p, lt) refl in
    let between : above r₂.round (rounds r₂.key (paused r₁ p).pax_log) ≡ false =
      rw (key, above-paused r₂.round r₁ p, back, small) refl in
    let r = run-overtaken r₁ r₂ p int newest in
    (
      rw ((newest-success r₂ s₁ named₂ int₂ in_order).1, sym key) (lookup-set_kv_self _ _ _),
      rw (older-success r₁ s₂ int reversed, (newest-success r₂ p named₂ int₂ newest₂).1, sym key)
          (lookup-set_kv_self _ _ _),
      r.0,
      rw (r.1, (newest-success r₂ (paused r₁ p) named₂ int₂ between).0) refl,
      rw (r.2, apply-store r₁ _ named) (lookup-set_kv_self _ _ _),
    )
