-- ===== src/Attempt/Quorum.antt =====
-- The quorum test of `AttemptConsensus`: what it asks for, and when two quorums meet.
use cs739_p2_replicated_data.Base.{
  ℕ, ◌*◌, ◌%◌, ◌<◌, ◌≤◌, String, ◌≡◌, refl, sym, ◌∙◌, ◌⊎◌, inl, inr, false, arith, List, [], ◌∷◌,
  ◌++◌, str_eq, eq_iff, Bool-cases, if◌then◌else◌,
}
use mathlib.Core.Path.{subst}
use cs739_p2_replicated_data.Base.Lists.{
  length, In, IsDistinct, IsDistinct-append, length-append, In-append,
}
use cs739_p2_replicated_data.Attempt.{lacks_quorum}

pub quorum_half : (n count : ℕ) → lacks_quorum n count ≡ false → n ≤ 2 * count
unfolding lacks_quorum
quorum_half n count h = ground arith

pub half_quorum : (n count : ℕ) → n ≤ 2 * count → lacks_quorum n count ≡ false
unfolding lacks_quorum
half_quorum n count h = ground arith

-- Two halves of an even cluster, which have no member in common, both pass the test: it takes half
-- of the replicas for a quorum.
pub halves_pass :
    (xs ys : List String)
    → length xs ≡ length ys
    → (lacks_quorum (length (xs ++ ys)) (length xs) ≡ false)
      × (lacks_quorum (length (xs ++ ys)) (length ys) ≡ false)
unfolding lacks_quorum
halves_pass xs ys h = (ground (arith, length-append xs ys), ground (arith, length-append xs ys))

without : String → List String → List String
without a [] = []
without a (x ∷ xs) = let rest = without a xs in if str_eq x a then rest else x ∷ rest

In-without : (a b : String) (xs : List String) → In b xs → ¬ (a ≡ b) → In b (without a xs)
unfolding without
In-without a b [] m ne = absurd m
In-without a b (x ∷ xs) (inl e) ne = elim (Bool-cases (str_eq x a)) [
  | inl t ↦ absurd (ne (sym ((eq_iff x a).0 t) ∙ e))
  | inr f ↦ rw f (inl e)
]
In-without a b (x ∷ xs) (inr m) ne = elim (Bool-cases (str_eq x a)) [
  | inl t ↦ rw t (In-without a b xs m ne)
  | inr f ↦ rw f (inr (In-without a b xs m ne))
]

length-without-le : (a : String) (xs : List String) → length (without a xs) ≤ length xs
unfolding without
length-without-le a [] = omega arith
length-without-le a (x ∷ xs) = ground (arith, length-without-le a xs)

length-without : (a : String) (xs : List String) → In a xs → length (without a xs) < length xs
unfolding without
length-without a [] m = absurd m
length-without a (x ∷ xs) (inl e) = ground (arith, eq_iff x a, length-without-le a xs)
length-without a (x ∷ xs) (inr m) = ground (arith, length-without a xs m)

-- A list of distinct items of another is no longer than it.
pub length-distinct :
    (q xs : List String) → IsDistinct q → ((a : String) → In a q → In a xs) → length q ≤ length xs
length-distinct [] xs d sub = omega arith
length-distinct (a ∷ q) xs d sub = omega (
  arith,
  length-without a xs (sub a (inl refl)),
  length-distinct q (without a xs) d.1
      (λ b m. In-without a b xs (sub b (inr m)) (λ e. d.0 (subst (λ x. In x q) (sym e) m))),
)

dec_In : (a : String) (xs : List String) → In a xs ⊎ (¬ In a xs)
dec_In a [] = inr (λ m. m)
dec_In a (x ∷ xs) = elim (Bool-cases (str_eq x a)) [
  | inl t ↦ inl (inl ((eq_iff x a).0 t))
  | inr f ↦ elim (dec_In a xs) [
    | inl m ↦ inl (inr m)
    | inr n ↦ inr (λ h. elim h [ inl e ↦ absurd (differ f e) | inr m ↦ n m ])
  ]
]
  where
    differ : {x a : String} → str_eq x a ≡ false → x ≡ a → ⊥
    differ {x} {a} f e = ground (arith, eq_iff x a)

-- Two lists share an item, or are apart.
shared : (p q : List String) → ((a : String) × In a p × In a q) ⊎ ((a : String) → In a p → ¬ In a q)
shared [] q = inr (λ a m _. m)
shared (x ∷ p) q = elim (dec_In x q) [
  | inl m ↦ inl (x, inl refl, m)
  | inr n ↦ elim (shared p q) [
    | inl (a, mp, mq) ↦ inl (a, inr mp, mq)
    | inr apart ↦
        inr λ a m k. elim m [ inl e ↦ n (subst (λ y. In y q) (sym e) k) | inr mp ↦ apart a mp k ]
  ]
]

-- In a cluster with an odd number of members any two quorums share a member.
pub quorum_overlap :
    (members p q : List String)
    → length members % 2 ≡ 1
    → IsDistinct p
    → IsDistinct q
    → ((a : String) → In a p → In a members)
    → ((a : String) → In a q → In a members)
    → lacks_quorum (length members) (length p) ≡ false
    → lacks_quorum (length members) (length q) ≡ false
    → (a : String) × In a p × In a q
quorum_overlap members p q odd dp dq sp sq hp hq = elim (shared p q) [
  | inl found ↦ found
  | inr apart ↦ absurd (
      omega (
        arith,
        length-append p q,
        quorum_half _ _ hp,
        quorum_half _ _ hq,
        length-distinct (p ++ q) members (IsDistinct-append p q dp dq apart)
            (λ a m. elim (In-append a p q m) [ inl l ↦ sp a l | inr r ↦ sq a r ]),
      ))
]
