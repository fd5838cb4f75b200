-- ===== src/Startup/Joining.antt =====
-- A process that starts while the members that are up agree on a leader that is up.
use cs739_p2_replicated_data.Base.{
  String, ◌≡◌, refl, sym, ap, ◌∙◌, Bool, true, false, ◌⊎◌, inl, inr, arith, some, List, [], ◌∷◌,
  str_eq, eq_iff, eq_refl, Bool-cases,
}
use cs739_p2_replicated_data.Base.Lists.{In}
use cs739_p2_replicated_data.Map.{lookup, insert, string_key}
use cs739_p2_replicated_data.Map.Laws.{lookup-insert}
use cs739_p2_replicated_data.Proto.{Reply, ok, is_ok}
use cs739_p2_replicated_data.Process.{Process}
use cs739_p2_replicated_data.ConsensusRpc.{get_leader}
use cs739_p2_replicated_data.ConsensusRpc.Effects.{SameState, count_incoming-SameState}
use cs739_p2_replicated_data.World.{World, count_call}
use cs739_p2_replicated_data.World.Laws.{Rel, Rel-chain, Rel-count_call, Rel-stub}
use cs739_p2_replicated_data.Call.{call_get_leader}
use cs739_p2_replicated_data.Attempt.{ping_phase}
use cs739_p2_replicated_data.Attempt.Loops.{broadcast_inv}
use cs739_p2_replicated_data.Attempt.Abort.{SameState-Frame}
use cs739_p2_replicated_data.Attempt.Partition.{partition, stub-up, stub-down}
use cs739_p2_replicated_data.Startup.{Answers, see_answer, ask_all, Launch, Set, sole, sole_live}

get_leader-SameState : (c : Bool) (p : Process) → SameState p (get_leader c p).1
unfolding get_leader
get_leader-SameState true p = count_incoming-SameState "ConsensusRPC::get_leader" p
get_leader-SameState false p = count_incoming-SameState "ConsensusRPC::get_leader" p

module _ (up : String → Bool) (self : String) where
  abbrev ask : String → World → Reply String × World
  ask a u = call_get_leader self (partition up ping_phase a) a u

  abbrev counted : World → World
  counted u = count_call self "ConsensusRPCWrapperCall::get_leader" u

  ask-SameState : (a : String) (u : World) → Rel SameState u (ask a u).1
  unfolding call_get_leader
  ask-SameState a u =
      Rel-chain SameState-Frame u (counted u) (ask a u).1
        (Rel-count_call SameState-Frame self "ConsensusRPCWrapperCall::get_leader" u)
        (Rel-stub SameState-Frame "" get_leader get_leader-SameState (partition up ping_phase a) a
          (counted u) tt)

  ask-up :
      (a : String) (u : World)
      → up a ≡ true
      → (ask a u).0 ≡ record { status = ok; response = (u a).leader }
  unfolding call_get_leader get_leader
  ask-up a u t =
      let same : SameState (u a) (counted u a) =
        Rel-count_call SameState-Frame self "ConsensusRPCWrapperCall::get_leader" u a in
      rw (stub-up up "" get_leader ping_phase a (counted u) t) (
        ap (λ x. record { status = ok; response = x })
          ((count_incoming-SameState "ConsensusRPC::get_leader" (counted u a)).leader
            ∙ same.leader))

  ask-down : (a : String) (u : World) → up a ≡ false → is_ok (ask a u).0.status ≡ false
  unfolding call_get_leader
  ask-down a u f = rw (stub-down up "" get_leader ping_phase a (counted u) f) refl

module _ (up : String → Bool) (self : String) (w : World) (members : List String) (chief : String)
    (named : str_eq chief "" ≡ false) (chief_up : up chief ≡ true)
    (known : (w chief).leader ≡ chief)
    (agreed : (a : String)
      → In a members
      → up a ≡ true
      → ((w a).leader ≡ "") ⊎ ((w a).leader ≡ chief)) where
  abbrev only : Set
  only = (chief, tt) ∷ []

  abbrev Seen : Answers → Type 0
  Seen s = (s.leaders ≡ only) × (lookup chief s.live_replicas ≡ some tt)

  -- What the loop keeps: no other leader is named, and the chief is seen or still to come.
  record Asking (rest : List String) (s : Answers) (u : World) : Type 0 where
    same : Rel SameState w u
    no_other : (s.leaders ≡ []) ⊎ (s.leaders ≡ only)
    seen : In chief rest ⊎ Seen s
    are_members : (a : String) → In a rest → In a members

  insert-only : (ls : Set) → (ls ≡ []) ⊎ (ls ≡ only) → insert chief tt ls ≡ only
  unfolding insert
  insert-only ls (inl e) = rw e refl
  insert-only ls (inr e) = rw e (rw (eq_refl chief) refl)

  lookup-still :
      (a : String) (live : Set)
      → lookup chief live ≡ some tt
      → lookup chief (insert a tt live) ≡ some tt
  lookup-still a live h = ground (arith, lookup-insert a chief tt live)

  lookup-now : (live : Set) → lookup chief (insert chief tt live) ≡ some tt
  lookup-now live = ground (arith, lookup-insert chief chief tt live, eq_iff chief chief)

  -- One more member that is up names the chief or nobody.
  module _ (a : String) (rest : List String) (s : Answers) (u : World)
      (h : Asking (a ∷ rest) s u) where
    abbrev next : Answers
    next = see_answer s a (ask up self a u).0

    after : Rel SameState w (ask up self a u).1
    after = Rel-chain SameState-Frame w u (ask up self a u).1 h.same (ask-SameState up self a u)

    leader_then : (u a).leader ≡ (w a).leader
    leader_then = (h.same a).leader

    Asking-down : up a ≡ false → Asking rest next (ask up self a u).1
    Asking-down f = rw (ask-down up self a u f) (record {
      same = after;
      no_other = h.no_other;
      seen = elim h.seen [
        | inl (inl e) ↦ absurd (not_chief e)
        | inl (inr m) ↦ inl m
        | inr done ↦ inr done
      ];
      are_members = λ b m. h.are_members b (inr m);
    })
      where
        not_chief : a ≡ chief → ⊥
        not_chief e = cc (ap up e)

    Asking-silent : up a ≡ true → (w a).leader ≡ "" → Asking rest next (ask up self a u).1
    Asking-silent t e = rw (ask-up up self a u t) (
        rw (leader_then, e)
          (record {
            same = after;
            no_other = h.no_other;
            seen = elim h.seen [
              | inl (inl c) ↦ absurd (not_chief c)
              | inl (inr m) ↦ inl m
              | inr done ↦ inr (done.0, lookup-still a s.live_replicas done.1)
            ];
            are_members = λ b m. h.are_members b (inr m);
          }))
      where
        not_chief : a ≡ chief → ⊥
        not_chief c =
            let x : chief ≡ "" = sym known ∙ sym (ap (λ b. (w b).leader) c) ∙ e in
            ground (arith, x, named, eq_iff chief "")

    Asking-named : up a ≡ true → (w a).leader ≡ chief → Asking rest next (ask up self a u).1
    Asking-named t e = rw (ask-up up self a u t) (
        rw (leader_then, e)
          (rw named (record {
            same = after;
            no_other = inr (insert-only s.leaders h.no_other);
            seen = elim h.seen [
              | inl (inl c) ↦
                  inr (insert-only s.leaders h.no_other, rw c (lookup-now s.live_replicas))
              | inl (inr m) ↦ inl m
              | inr done ↦
                  inr (insert-only s.leaders h.no_other, lookup-still a s.live_replicas done.1)
            ];
            are_members = λ b m. h.are_members b (inr m);
          })))

    Asking-step : Asking rest next (ask up self a u).1
    Asking-step = elim (Bool-cases (up a)) [
      | inl t ↦ elim (agreed a (h.are_members a (inl refl)) t) [
        | inl e ↦ Asking-silent t e
        | inr e ↦ Asking-named t e
      ]
      | inr f ↦ Asking-down f
    ]

  sole-Seen : (s : Answers) → Seen s → sole_live s ≡ some chief
  unfolding sole_live sole
  sole-Seen s (l, k) = rw l (rw (sole, k) refl)

  -- The loop ends with the chief as the only leader that was named, and live.
  pub ask_all-chief :
      (launch : Launch)
      → launch.ask ≡ partition up ping_phase
      → In chief members
      → (sole_live (ask_all self launch members w).0 ≡ some chief)
        × Rel SameState w (ask_all self launch members w).1
  unfolding ask_all
  ask_all-chief launch e m = rw e (
      let end : Asking [] _ _ =
        broadcast_inv (ask up self) see_answer Asking Asking-step members
          (record { leaders = []; live_replicas = [] }) w
          (record {
            same = λ a. SameState-Frame.same (w a);
            no_other = inl refl;
            seen = inl m;
            are_members = λ a k. k;
          }) in
      (elim end.seen [ inl k ↦ absurd k | inr done ↦ sole-Seen _ done ], end.same))
