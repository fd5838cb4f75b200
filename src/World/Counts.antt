-- ===== src/World/Counts.antt =====
-- What the counters of incoming calls say after any events: src/declaration.h, `Statistics`.
use cs739_p2_replicated_data.Base.{
  ℕ, ◌+◌, ◌<◌, ap, String, ◌≡◌, refl, ◌∙◌, Bool, true, false, inl, inr, arith, List, [], ◌∷◌, ◌&&◌,
  none, some, str_eq, eq_iff, Bool-cases, if◌then◌else◌, if_both,
}
use mathlib.Core.Path.{subst}
use cs739_p2_replicated_data.Base.Int.{ℤ, pos, next_int, next_int_small}
use cs739_p2_replicated_data.Map.{Map, lookup, get_or, string_key}
use cs739_p2_replicated_data.Map.Laws.{lookup-insert}
use cs739_p2_replicated_data.Proto.{Request, Reply}
use cs739_p2_replicated_data.Process.{Process, increment, count_incoming, count_outgoing}
use cs739_p2_replicated_data.ConsensusRpc.{propose, accept, success, get_stats}
use cs739_p2_replicated_data.World.{
  World, update, Event, propose_at, accept_at, success_at, set_leader_at, set_kv_at,
  count_incoming_at, count_outgoing_at, step, steps,
}

-- The event is a call, at `a`, that is counted under `n`.
abbrev pub is_call : String → String → Event → Bool
is_call n a (propose_at b r) = str_eq b a && str_eq "ConsensusRPC::propose" n
is_call n a (accept_at b r) = str_eq b a && str_eq "ConsensusRPC::accept" n
is_call n a (success_at b r) = str_eq b a && str_eq "ConsensusRPC::success" n
is_call n a (count_incoming_at b m) = str_eq b a && str_eq m n
is_call n a (set_leader_at b v) = false
is_call n a (set_kv_at b k v) = false
is_call n a (count_outgoing_at b m) = false

-- How many of the events are such calls.
abbrev pub calls : String → String → List Event → ℕ
calls n a [] = 0
calls n a (e ∷ es) = (if is_call n a e then 1 else 0) + calls n a es

-- The counter of a name, 0 where there is none.
abbrev pub count_of : String → Process → ℤ
count_of n p = get_or n (pos 0) p.incount

-- A counter after one call, if `b` holds.
abbrev grow : Bool → ℤ → ℤ
grow b c = if b then next_int c else c

-- One call of the name `m`, and nothing else of the settings and counters.
record Counted (m : String) (p q : Process) : Type 0 where
  pub settings : q.config ≡ p.config
  pub grown : (n : String) → count_of n q ≡ grow (p.config.flag.debug && str_eq m n) (count_of n p)

-- The counters stay.
record Uncounted (p q : Process) : Type 0 where
  pub settings : q.config ≡ p.config
  pub grown : q.incount ≡ p.incount

first_call : next_int (pos 0) ≡ pos 1
first_call = next_int_small 0 (omega arith)

get_or-increment :
    (m n : String) (c : Map String ℤ)
    → get_or n (pos 0) (increment m c) ≡ grow (str_eq m n) (get_or n (pos 0) c)
unfolding increment get_or
get_or-increment m n c =
    let v : ℤ = elim (lookup m c) [ none ↦ pos 1 | some k ↦ next_int k ] in
    ground (arith, lookup-insert m n v c, eq_iff m n, first_call)

count_incoming-Counted : (m : String) (p : Process) → Counted m p (count_incoming m p)
unfolding count_incoming
count_incoming-Counted m p = record {
  settings = ground arith;
  grown = λ n. ground (arith, get_or-increment m n p.incount);
}

count_outgoing-Uncounted : (m : String) (p : Process) → Uncounted p (count_outgoing m p)
unfolding count_outgoing
count_outgoing-Uncounted m p = record { settings = ground arith; grown = ground arith }

module _ (r : Request) (p : Process) where
  propose-Counted : Counted "ConsensusRPC::propose" p (propose false r p).1
  unfolding propose
  propose-Counted =
      let h = count_incoming-Counted "ConsensusRPC::propose" p in
      record { settings = h.settings; grown = h.grown }

  accept-Counted : Counted "ConsensusRPC::accept" p (accept false r p).1
  unfolding accept
  accept-Counted =
      let h = count_incoming-Counted "ConsensusRPC::accept" p in
      record { settings = h.settings; grown = h.grown }

  success-Counted : Counted "ConsensusRPC::success" p (success false r p).1
  unfolding success
  success-Counted =
      let h = count_incoming-Counted "ConsensusRPC::success" p in
      if_both (λ (x : Reply Unit × Process). Counted "ConsensusRPC::success" p x.1) _ _ _
        (record { settings = h.settings; grown = h.grown })
        (if_both (Counted "ConsensusRPC::success" p) _ _ _
          (record { settings = h.settings; grown = h.grown })
          (record { settings = h.settings; grown = h.grown }))

-- The settings of the process at `a` stay, and its counter of `n` grows by one if `b` holds.
record Grown (n : String) (b : Bool) (p q : Process) : Type 0 where
  pub settings : q.config ≡ p.config
  pub grown : count_of n q ≡ grow (p.config.flag.debug && b) (count_of n p)

Grown-same : (n : String) (p : Process) → Grown n false p p
Grown-same n p = record { settings = refl; grown = ground arith }

Grown-update :
    (n m b a : String) (w : World) (q : Process)
    → Counted m (w b) q
    → Grown n (str_eq b a && str_eq m n) (w a) (update w b q a)
Grown-update n m b a w q h = elim (Bool-cases (str_eq b a)) [
  | inl e ↦ rw e (
      subst (λ x. Grown n (str_eq m n) (w x) q) ((eq_iff b a).0 e)
        (record { settings = h.settings; grown = h.grown n }))
  | inr e ↦ rw e (Grown-same n (w a))
]

Grown-other :
    (n b a : String) (w : World) (q : Process)
    → Uncounted (w b) q
    → Grown n false (w a) (update w b q a)
Grown-other n b a w q h = elim (Bool-cases (str_eq b a)) [
  | inl e ↦ rw e (
      subst (λ x. Grown n false (w x) q) ((eq_iff b a).0 e)
        (record { settings = h.settings; grown = rw h.grown (ground arith) }))
  | inr e ↦ rw e (Grown-same n (w a))
]

step-Grown : (n a : String) (e : Event) (w : World) → Grown n (is_call n a e) (w a) (step w e a)
unfolding step
step-Grown n a (propose_at b r) w = Grown-update n _ b a w _ (propose-Counted r (w b))
step-Grown n a (accept_at b r) w = Grown-update n _ b a w _ (accept-Counted r (w b))
step-Grown n a (success_at b r) w = Grown-update n _ b a w _ (success-Counted r (w b))
step-Grown n a (count_incoming_at b m) w = Grown-update n m b a w _ (count_incoming-Counted m (w b))
step-Grown n a (set_leader_at b v) w =
    Grown-other n b a w _ (record { settings = refl; grown = refl })
step-Grown n a (set_kv_at b k v) w =
    Grown-other n b a w _ (record { settings = refl; grown = refl })
step-Grown n a (count_outgoing_at b m) w = Grown-other n b a w _ (count_outgoing-Uncounted m (w b))

abbrev one : Bool → ℕ
one b = if b then 1 else 0

-- A counter that grows without overflow.
grow-pos : (b : Bool) (c : ℕ) → c + one b < 2147483648 → grow b (pos c) ≡ pos (c + one b)
grow-pos true c h = next_int_small c (omega (arith, h)) ∙ ap (λ x. pos x) (omega arith)
grow-pos false c h = ap (λ x. pos x) (omega arith)

one_and : (d b : Bool) (c k : ℕ) → c + (one b + k) < 2147483648 → c + one (d && b) + k < 2147483648
one_and d b c k h = ground (arith, h)

total :
    (d b : Bool) (c k : ℕ)
    → c + one (d && b) + (if d then k else 0) ≡ c + (if d then one b + k else 0)
total d b c k = ground arith

count_of-steps :
    (n a : String) (es : List Event) (w : World) (c : ℕ)
    → count_of n (w a) ≡ pos c
    → c + calls n a es < 2147483648
    → ((steps es w a).config ≡ (w a).config)
      × (count_of n (steps es w a)
          ≡ pos (c + (if (w a).config.flag.debug then calls n a es else 0)))
unfolding steps
count_of-steps n a [] w c h lt = (refl, h ∙ ap (λ x. pos x) (ground arith))
count_of-steps n a (e ∷ es) w c h lt =
    let first = step-Grown n a e w in
    let d : Bool = (w a).config.flag.debug in
    let b : Bool = is_call n a e in
    let small = one_and d b c (calls n a es) lt in
    let here : count_of n (step w e a) ≡ pos (c + one (d && b)) =
      first.grown ∙ ap (grow (d && b)) h ∙ grow-pos (d && b) c (omega (arith, small)) in
    let rest = count_of-steps n a es (step w e) (c + one (d && b)) here small in
    (
      rest.0 ∙ first.settings,
      rest.1 ∙ rw first.settings (ap (λ x. pos x) (total d b c (calls n a es))),
    )

-- Let the counter of a name at a process be a number which, with one more for each of the events
-- that are calls of that name at the process and for one call of get_stats, stays below 2^31. Then,
-- after the events, the process in debug mode that reads get_stats in time answers with a counter
-- that has grown by the number of these calls, the call of get_stats added if the name is its own;
-- a process that is not in debug mode, with the old counter.
pub get_stats_counts :
    (a n : String) (es : List Event) (w : World) (c : ℕ)
    → count_of n (w a) ≡ pos c
    → c + calls n a es + 1 < 2147483648
    → get_or n (pos 0) (get_stats false (steps es w a)).0.response.incount
      ≡ pos (
          c
          + (if (w a).config.flag.debug
              then calls n a es + (if str_eq "ConsensusRPC::get_stats" n then 1 else 0)
              else 0))
unfolding get_stats
get_stats_counts a n es w c h lt =
    let before = count_of-steps n a es w c h (omega (arith, lt)) in
    let last = count_incoming-Counted "ConsensusRPC::get_stats" (steps es w a) in
    let d : Bool = (w a).config.flag.debug in
    let own : Bool = str_eq "ConsensusRPC::get_stats" n in
    last.grown n
    ∙ rw (before.0, before.1)
        (grow-pos (d && own) (c + (if d then calls n a es else 0)) (ground (arith, lt))
          ∙ ap (λ x. pos x) (ground arith))
