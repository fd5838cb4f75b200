-- ===== src/Map/Sorted.antt =====
-- The keys of a `std::map` ascend: what keeps them so, and that each stands there once.
use cs739_p2_replicated_data.Base.{
  ℕ, ◌+◌, some, ◌≡◌, refl, none, true, false, [], ◌∷◌, arith, Bool-cases, Option-cases, ◌≤◌, inl,
  inr,
}
use cs739_p2_replicated_data.Base.Lists.{In, IsDistinct}
use cs739_p2_replicated_data.Map.{Key, Map, lookup, insert, erase, get_or, modify, keys, size}

module _ {K : Type 0} ⦃o : Key K⦄ where
  below : (j k : K) → o.beq j k ≡ false → o.ltb k j ≡ false → o.ltb j k ≡ true
  below j k h g = elim (Bool-cases (o.ltb j k)) [
    | inl e ↦ e
    | inr e ↦ cc ((o.beq_iff j k).1 (o.total j k e g))
  ]

module _ {K V : Type 0} ⦃o : Key K⦄ where
  -- Every key is above `k`.
  unfoldable pub Above : K → Map K V → Type 0
  Above k [] = Unit
  Above k ((j, w) ∷ m) = (o.ltb k j ≡ true) × Above k m

  unfoldable pub IsSorted : Map K V → Type 0
  unfolding Above
  IsSorted [] = Unit
  IsSorted ((k, v) ∷ m) = Above k m × IsSorted m

  pub Above-trans : (j k : K) (m : Map K V) → o.ltb j k ≡ true → Above k m → Above j m
  unfolding Above
  Above-trans j k [] h a = tt
  Above-trans j k ((i, w) ∷ m) h (b, a) = (o.trans j k i h b, Above-trans j k m h a)

  Above-insert :
      (j k : K) (v : V) (m : Map K V) → o.ltb j k ≡ true → Above j m → Above j (insert k v m)
  unfolding Above insert
  Above-insert j k v [] h a = (h, tt)
  Above-insert j k v ((i, w) ∷ m) h (b, a) = ground (arith, o.beq_iff i k, Above-insert j k v m h a)

  pub insert-IsSorted : (k : K) (v : V) (m : Map K V) → IsSorted m → IsSorted (insert k v m)
  unfolding IsSorted insert Above
  insert-IsSorted k v [] s = (tt, tt)
  insert-IsSorted k v ((j, w) ∷ m) (a, s) = ground (
    arith,
    o.beq_iff j k,
    below j k,
    a,
    s,
    Above-trans k j m,
    Above-insert j k v m,
    insert-IsSorted k v m s,
  )

  Above-erase : (j k : K) (m : Map K V) → Above j m → Above j (erase k m)
  unfolding Above erase
  Above-erase j k [] a = tt
  Above-erase j k ((i, w) ∷ m) (b, a) = ground (arith, Above-erase j k m a)

  pub erase-IsSorted : (k : K) (m : Map K V) → IsSorted m → IsSorted (erase k m)
  unfolding IsSorted erase
  erase-IsSorted k [] s = tt
  erase-IsSorted k ((j, w) ∷ m) (a, s) = ground (arith, Above-erase j k m a, erase-IsSorted k m s)

  pub modify-IsSorted :
      (k : K) (d : V) (f : V → V) (m : Map K V) → IsSorted m → IsSorted (modify k d f m)
  unfolding modify
  modify-IsSorted k d f m s = insert-IsSorted k (f (get_or k d m)) m s

  not_In-Above : (k : K) (m : Map K V) → Above k m → ¬ In k (keys m)
  unfolding Above keys
  not_In-Above k [] a h = h
  not_In-Above k ((j, w) ∷ m) (b, a) (inl e) = cc (o.irrefl k)
  not_In-Above k ((j, w) ∷ m) (b, a) (inr h) = not_In-Above k m a h

  pub keys-IsDistinct : (m : Map K V) → IsSorted m → IsDistinct (keys m)
  unfolding IsSorted keys
  keys-IsDistinct [] s = tt
  keys-IsDistinct ((k, v) ∷ m) (a, s) = (not_In-Above k m a, keys-IsDistinct m s)

  pub lookup-Above : (k : K) (m : Map K V) → Above k m → lookup k m ≡ none
  unfolding Above lookup
  lookup-Above k [] a = refl
  lookup-Above k ((j, w) ∷ m) (b, a) = ground (arith, o.beq_iff j k, o.irrefl k, lookup-Above k m a)

  -- 1 for a key that an insertion adds
  unfoldable pub missing : K → Map K V → ℕ
  unfolding lookup
  missing k m = elim (lookup k m) [ none ↦ 1 | some v ↦ 0 ]

  pub missing-none : (k : K) (m : Map K V) → lookup k m ≡ none → missing k m ≡ 1
  unfolding missing
  missing-none k m h = rw (missing, h) refl

  pub missing-some : (k : K) (v : V) (m : Map K V) → lookup k m ≡ some v → missing k m ≡ 0
  unfolding missing
  missing-some k v m h = rw (missing, h) refl

  pub missing_small : (k : K) (m : Map K V) → missing k m ≤ 1
  missing_small k m = elim (Option-cases (lookup k m)) [
    | inl e ↦ rw (missing-none k m e) (omega arith)
    | inr (v, e) ↦ rw (missing-some k v m e) (omega arith)
  ]

  pub size-insert :
      (k : K) (v : V) (m : Map K V) → IsSorted m → size (insert k v m) ≡ size m + missing k m
  unfolding IsSorted insert lookup missing
  size-insert k v [] s = omega arith
  size-insert k v ((j, w) ∷ m) (a, s) =
      ground (arith, size-insert k v m s, lookup-Above k m, Above-trans k j m)
