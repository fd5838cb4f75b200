-- ===== src/Attempt/Inform.antt =====
-- The success stage in a partitioned network: every member that is up applies the value.
use cs739_p2_replicated_data.Base.{
  String, ◌≡◌, refl, sym, ◌∙◌, Bool, true, false, inl, inr, arith, List, ◌∷◌, Bool-cases,
  if◌then◌else◌, str_eq, eq_iff,
}
use mathlib.Core.Path.{subst}
use cs739_p2_replicated_data.Base.Int.{ltb_ℤ, int_min}
use cs739_p2_replicated_data.Base.Lists.{In, IsDistinct}
use cs739_p2_replicated_data.Proto.{Request, Reply}
use cs739_p2_replicated_data.Log.Latest.{rounds, above-set_log_accept}
use cs739_p2_replicated_data.Log.Rounds.{above}
use cs739_p2_replicated_data.Database.{set_kv}
use cs739_p2_replicated_data.Process.{Process, count_outgoing}
use cs739_p2_replicated_data.ConsensusRpc.{success}
use cs739_p2_replicated_data.ConsensusRpc.Effects.{
  count_outgoing-SameState, pax_log-count_outgoing, success_lem,
}
use cs739_p2_replicated_data.World.{World, count_call}
use cs739_p2_replicated_data.World.Laws.{update_self, update_ne}
use cs739_p2_replicated_data.Call.{call_success}
use cs739_p2_replicated_data.Attempt.{success_phase, success_all}
use cs739_p2_replicated_data.Attempt.Loops.{broadcast_inv}
use cs739_p2_replicated_data.Attempt.Partition.{partition, stub-up, stub-down}

module _ (q : Request) where
  -- Nothing is applied yet, and the key has no round above the request's.
  pub record Ready (p p' : Process) : Type 0 where
    pub leader : p'.leader ≡ p.leader
    pub kv_store : p'.kv_store ≡ p.kv_store
    pub latest : above q.round (rounds q.key p'.pax_log) ≡ false

  -- The request's value is the leader, if its key is "leader", or the key's value in the store.
  pub record Applied (p p' : Process) : Type 0 where
    pub leader : p'.leader ≡ (if str_eq q.key "leader" then q.value else p.leader)
    pub kv_store :
        p'.kv_store
        ≡ (if str_eq q.key "leader" then p.kv_store else set_kv q.key q.value p.kv_store)

  success-Applied :
      (p p' : Process)
      → ltb_ℤ q.round int_min ≡ false
      → Ready p p'
      → Applied p (success false q p').1
  success-Applied p p' h ready =
      let (status, log, leader, kv) = success_lem q p' h in
      let on_time =
        above-set_log_accept q.key q.round q.pserver_id q.op q.value p'.pax_log ∙ ready.latest in
      record {
        leader = leader ∙ ground (arith, on_time, ready.leader);
        kv_store = kv ∙ ground (arith, on_time, ready.kv_store);
      }

  count_outgoing-Ready :
      (name : String) (p p' : Process) → Ready p p' → Ready p (count_outgoing name p')
  count_outgoing-Ready name p p' h =
      let same = count_outgoing-SameState name p' in
      record {
        leader = same.leader ∙ h.leader;
        kv_store = same.kv_store ∙ h.kv_store;
        latest = rw (pax_log-count_outgoing name p') h.latest;
      }

  count_outgoing-Applied :
      (name : String) (p p' : Process) → Applied p p' → Applied p (count_outgoing name p')
  count_outgoing-Applied name p p' h =
      let same = count_outgoing-SameState name p' in
      record { leader = same.leader ∙ h.leader; kv_store = same.kv_store ∙ h.kv_store }

-- A counted call changes one process, and of it only the counters.
count_call-keeps :
    (P : String → Process → Type 0)
    → ((a name : String) (p : Process) → P a p → P a (count_outgoing name p))
    → (self name : String) (w : World) (a : String) → P a (w a)
    → P a (count_call self name w a)
unfolding count_call
count_call-keeps P keep self name w a h = elim (Bool-cases (str_eq self a)) [
  | inl t ↦ rw t (rw ((eq_iff self a).0 t) (keep a name (w a) h))
  | inr f ↦ rw f h
]

module _ (up : String → Bool) (self : String) (q : Request) (w : World)
    (int_round : ltb_ℤ q.round int_min ≡ false) where
  abbrev call : String → World → Reply Unit × World
  call a u = call_success self (partition up success_phase a) a q u

  abbrev counted : World → World
  counted u = count_call self "ConsensusRPCWrapperCall::success" u

  -- The members still to call that are up are ready; those that were called and are up have applied
  -- the value.
  record Informing (members rest : List String) (u : World) : Type 0 where
    distinct : IsDistinct rest
    waiting : (a : String) → In a rest → up a ≡ true → Ready q (w a) (u a)
    done : (a : String) → In a members → ¬ In a rest → up a ≡ true → Applied q (w a) (u a)

  call-done :
      (a : String) (u : World)
      → up a ≡ true
      → Ready q (w a) (u a)
      → Applied q (w a) ((call a u).1 a)
  unfolding call_success
  call-done a u t h =
      rw
        (
          stub-up up tt (λ c. success c q) success_phase a (counted u) t,
          update_self (counted u) a (success false q (counted u a)).1,
        )
        (success-Applied q (w a) (counted u a) int_round (
          count_call-keeps (λ b p. Ready q (w b) p)
            (λ b name p. count_outgoing-Ready q name (w b) p) self _ u a h))

  call-other : (a b : String) (u : World) → ¬ (a ≡ b) → (call a u).1 b ≡ counted u b
  unfolding call_success
  call-other a b u ne = elim (Bool-cases (up a)) [
    | inl t ↦
        rw (stub-up up tt (λ c. success c q) success_phase a (counted u) t)
          (update_ne (counted u) a b _ ne)
    | inr f ↦ rw (stub-down up tt (λ c. success c q) success_phase a (counted u) f)
  ]

  call-Informing :
      (members : List String) (a : String) (rest : List String) (u : World)
      → Informing members (a ∷ rest) u
      → Informing members rest (call a u).1
  call-Informing members a rest u h = record {
    distinct = h.distinct.1;
    waiting = λ b m t.
        rw (call-other a b u (λ e. h.distinct.0 (subst (λ x. In x rest) (sym e) m))) (
          count_call-keeps (λ b p. Ready q (w b) p)
            (λ b name p. count_outgoing-Ready q name (w b) p) self _ u b (h.waiting b (inr m) t));
    done = λ b m out t. elim (Bool-cases (str_eq a b)) [
      | inl e ↦
          subst (λ x. Applied q (w x) ((call a u).1 x)) ((eq_iff a b).0 e)
            (call-done a u (rw ((eq_iff a b).0 e) t)
              (h.waiting a (inl refl) (rw ((eq_iff a b).0 e) t)))
      | inr f ↦
          let ne : ¬ (a ≡ b) = λ e. cc (f, (eq_iff a b).1 e) in
          rw (call-other a b u ne) (
            count_call-keeps (λ b p. Applied q (w b) p)
              (λ b name p. count_outgoing-Applied q name (w b) p) self _ u b
              (h.done b m (λ k. elim k [ inl e ↦ ne e | inr n ↦ out n ]) t))
    ];
  }

  -- If every member that is up is ready, every member that is up applies the value.
  pub success_all-Applied :
      (members : List String) (u : World)
      → IsDistinct members
      → ((a : String) → In a members → up a ≡ true → Ready q (w a) (u a))
      → (a : String) → In a members
      → up a ≡ true
      → Applied q (w a) ((success_all self (partition up) q members u).1 a)
  unfolding success_all
  success_all-Applied members u d ready a m t =
      (broadcast_inv call (λ s a r. s) (λ rest s v. Informing members rest v)
          (λ b rest s v. call-Informing members b rest v) members tt u
          (record { distinct = d; waiting = ready; done = λ b k out _. absurd (out k) })).done
        a m (λ n. n) t
