-- ===== src/Map/Unique.antt =====
-- A sorted map is determined by its lookups.
use cs739_p2_replicated_data.Base.{
  ◌≡◌, ◌≢◌, refl, sym, ◌∙◌, false, some, [], ◌∷◌, arith, Bool-cases, inl, inr,
}
use cs739_p2_replicated_data.Map.{Key, Map, lookup}
use cs739_p2_replicated_data.Map.Sorted.{Above, Above-trans, IsSorted, lookup-Above}

module _ {K V : Type 0} ⦃o : Key K⦄ where
  lookup_head : (k : K) (v : V) (m : Map K V) → lookup k ((k, v) ∷ m) ≡ some v
  unfolding lookup
  lookup_head k v m = rw ((o.beq_iff k k).1 refl) refl

  -- The first key of one of two maps with the same lookups is not below that of the other.
  not_below :
      (j i : K) (v w : V) (m n : Map K V)
      → Above i n
      → lookup j ((j, v) ∷ m) ≡ lookup j ((i, w) ∷ n)
      → o.ltb j i ≡ false
  unfolding Above
  not_below j i v w m n a h = elim (Bool-cases (o.ltb j i)) [
    | inl b ↦ cc (lookup_head j v m, h, lookup-Above j ((i, w) ∷ n) (b, Above-trans j i n b a))
    | inr e ↦ e
  ]

  tail_lookup :
      (j k : K) (v : V) (m n : Map K V)
      → Above j m
      → Above j n
      → lookup k ((j, v) ∷ m) ≡ lookup k ((j, v) ∷ n)
      → lookup k m ≡ lookup k n
  unfolding lookup
  tail_lookup j k v m n a b h =
      ground (arith, o.beq_iff j k, lookup-Above j m a, lookup-Above j n b)

  missing_head : (k : K) (v : V) (m : Map K V) → lookup k [] ≢ lookup k ((k, v) ∷ m)
  unfolding lookup
  missing_head k v m h = ground (arith, (o.beq_iff k k).1 refl)

  same_head :
      (j i : K) (v w : V) (m n : Map K V)
      → Above j m
      → Above i n
      → ((k : K) → lookup k ((j, v) ∷ m) ≡ lookup k ((i, w) ∷ n))
      → (j ≡ i) × (v ≡ w)
  same_head j i v w m n a b h = (first, same_value (some_head ∙ h j ∙ other_head))
    where
      first : j ≡ i
      first = o.total j i (not_below j i v w m n b (h j)) (not_below i j w v n m a (sym (h i)))

      some_head : some v ≡ lookup j ((j, v) ∷ m)
      some_head = sym (lookup_head j v m)

      other_head : lookup j ((i, w) ∷ n) ≡ some w
      other_head = rw first (lookup_head i w n)

      same_value : {x y : V} → some x ≡ some y → x ≡ y
      same_value e = cc e

  -- Two sorted maps in which every lookup finds the same are equal.
  pub sorted_unique :
      (m n : Map K V) → IsSorted m → IsSorted n → ((k : K) → lookup k m ≡ lookup k n) → m ≡ n
  unfolding IsSorted
  sorted_unique [] [] s t h = refl
  sorted_unique [] ((k, w) ∷ n) s t h = absurd (missing_head k w n (h k))
  sorted_unique ((k, v) ∷ m) [] s t h = absurd (missing_head k v m (sym (h k)))
  sorted_unique ((j, v) ∷ m) ((i, w) ∷ n) s t h =
      let e = same_head j i v w m n s.0 t.0 h in
      let a : Above j n = rw e.0 t.0 in
      let rest : m ≡ n =
        sorted_unique m n s.1 t.1
          (λ k. tail_lookup j k v m n s.0 a (rw (sym e.0, sym e.1) at h k)) in
      λ x. (e.0 x, e.1 x) ∷ rest x
