-- ===== src/World/Laws.antt =====
-- A relation between a process before and after, lifted to the world: what keeps it in one
-- process keeps it through a call, with all that the other threads do.
use cs739_p2_replicated_data.Base.{
  String, ◌≡◌, refl, Bool, true, false, inl, inr, arith, str_eq, eq_iff, Bool-cases, List, [], ◌∷◌,
  str_eq_ne,
}
use mathlib.Core.Path.{subst}
use cs739_p2_replicated_data.Base.Lists.{All}
use cs739_p2_replicated_data.Proto.{Reply, is_ok}
use cs739_p2_replicated_data.Process.{Process, count_outgoing}
use cs739_p2_replicated_data.World.{
  World, update, Delivery, delivered, expired, reply_lost, unreachable, Event, Slot, step, steps,
  deliver, stub, count_call,
}

pub update_self : (w : World) (a : String) (p : Process) → update w a p a ≡ p
update_self w a p = ground (arith, eq_iff a a)

-- A relation that holds from each process to itself, composes, and admits a counted call.
pub record Frame (R : Process → Process → Type 0) : Type 0 where
  pub same : (p : Process) → R p p
  pub chain : (p q s : Process) → R p q → R q s → R p s
  pub counted : (name : String) (p : Process) → R p (count_outgoing name p)

abbrev pub Rel : (Process → Process → Type 0) → World → World → Type 0
Rel R w w' = (a : String) → R (w a) (w' a)

abbrev pub Allows : (Process → Process → Type 0) → Event → Type 0
Allows R e = (w : World) → Rel R w (step w e)

-- Every step that other threads take around a call keeps the relation.
abbrev pub Calm : (Process → Process → Type 0) → Slot → Type 0
Calm R slot = All (Allows R) slot.others

module _ {R : Process → Process → Type 0} (f : Frame R) where
  pub Rel-same : (w : World) → Rel R w w
  Rel-same w a = f.same (w a)

  pub Rel-chain : (w w' w'' : World) → Rel R w w' → Rel R w' w'' → Rel R w w''
  Rel-chain w w' w'' h k a = f.chain (w a) (w' a) (w'' a) (h a) (k a)

  pub Rel-update : (w : World) (a : String) (p : Process) → R (w a) p → Rel R w (update w a p)
  Rel-update w a p h b = elim (Bool-cases (str_eq a b)) [
    | inl e ↦ rw e (subst (λ x. R (w x) p) ((eq_iff a b).0 e) h)
    | inr e ↦ rw e (f.same (w b))
  ]

  pub Rel-steps : (es : List Event) (w : World) → All (Allows R) es → Rel R w (steps es w)
  unfolding steps
  Rel-steps [] w h = Rel-same w
  Rel-steps (e ∷ es) w h =
      Rel-chain w (step w e) (steps es (step w e)) (h.0 w) (Rel-steps es (step w e) h.1)

  pub Rel-count_call : (self name : String) (w : World) → Rel R w (count_call self name w)
  unfolding count_call
  Rel-count_call self name w = Rel-update w self _ (f.counted name (w self))

  module _ {A : Type 0} (empty : A) (handler : Bool → Process → Reply A × Process) where
    pub Rel-deliver :
        ((c : Bool) (p : Process) → R p (handler c p).1)
        → (d : Delivery) (a : String) (w : World) → Rel R w (deliver empty handler d a w).1
    unfolding deliver
    Rel-deliver k delivered a w = Rel-update w a _ (k _ (w a))
    Rel-deliver k expired a w = Rel-update w a _ (k _ (w a))
    Rel-deliver k reply_lost a w = Rel-update w a _ (k _ (w a))
    Rel-deliver k unreachable a w = Rel-same w

    pub Rel-stub :
        ((c : Bool) (p : Process) → R p (handler c p).1)
        → (slot : Slot) (a : String) (w : World) → Calm R slot
        → Rel R w (stub empty handler slot a w).1
    unfolding stub
    Rel-stub k slot a w calm =
        let w' = steps slot.others w in
        Rel-chain w w' (deliver empty handler slot.delivery a w').1 (Rel-steps slot.others w calm)
          (Rel-deliver k slot.delivery a w')

-- The world in which the handler of a call runs.
abbrev pub arrival : String → String → Slot → World → World
arrival self name slot w = steps slot.others (count_call self name w)

module _ {A : Type 0} (empty : A) (handler : Bool → Process → Reply A × Process) where
  -- A caller that sees success has the handler's own reply, and the handler ran once, in time.
  pub deliver-ok :
      (d : Delivery) (a : String) (w : World)
      → is_ok (deliver empty handler d a w).0.status ≡ true
      → deliver empty handler d a w ≡ ((handler false (w a)).0, update w a (handler false (w a)).1)
  unfolding deliver
  deliver-ok delivered a w h = refl
  deliver-ok _ a w h = ground arith

pub update_ne : (w : World) (a b : String) (p : Process) → ¬ (a ≡ b) → update w a p b ≡ w b
update_ne w a b p h = rw (str_eq_ne a b h)
