-- ===== src/Base/Int.antt =====
-- `int` and `int32`: round numbers and server ids are compared and copied; the one conversion is
-- that of a container's size to `int`.
use Prim.Native.Nat.{ℕ, zero, suc, ◌-◌, ◌%◌, ◌<◌, compare, Ordering}
use mathlib.Core.Path.{◌≡◌, refl}
use mathlib.Core.Logic.{◌↔◌}
use mathlib.Core.Bool.{Bool, true, false}
use native.Mathlib.Omega.{arith}

-- `negsuc n` is -(n + 1).
pub data ℤ : Type 0 where
  pos : ℕ → ℤ
  negsuc : ℕ → ℤ

abbrev pub ltb_ℤ : ℤ → ℤ → Bool
ltb_ℤ (pos a) (pos b) = elim (compare a b) [ Ordering.lt ↦ true | _ ↦ false ]
ltb_ℤ (pos a) (negsuc b) = false
ltb_ℤ (negsuc a) (pos b) = true
ltb_ℤ (negsuc a) (negsuc b) = elim (compare b a) [ Ordering.lt ↦ true | _ ↦ false ]

abbrev pub eqb_ℤ : ℤ → ℤ → Bool
eqb_ℤ (pos a) (pos b) = elim (compare a b) [ Ordering.eq ↦ true | _ ↦ false ]
eqb_ℤ (pos a) (negsuc b) = false
eqb_ℤ (negsuc a) (pos b) = false
eqb_ℤ (negsuc a) (negsuc b) = elim (compare a b) [ Ordering.eq ↦ true | _ ↦ false ]

pub eqb_ℤ_iff : (a b : ℤ) → (eqb_ℤ a b ≡ true) ↔ (a ≡ b)
eqb_ℤ_iff a b = ground arith

pub eqb_ℤ_refl : (a : ℤ) → eqb_ℤ a a ≡ true
eqb_ℤ_refl a = (eqb_ℤ_iff a a).1 refl

abbrev pub max_ℤ : ℤ → ℤ → ℤ
max_ℤ a b = elim (ltb_ℤ a b) [ true ↦ b | false ↦ a ]

-- INT_MIN
abbrev pub int_min : ℤ
int_min = negsuc 2147483647

-- The conversion of a `size_t` to `int`, which keeps the low 32 bits.
abbrev pub wrap_int32 : ℕ → Bool → ℤ
wrap_int32 low true = pos low
wrap_int32 low false = negsuc (4294967295 - low)

unfoldable pub to_int32 : ℕ → ℤ
to_int32 n =
    let low = n % 4294967296 in
    wrap_int32 low (elim (compare low 2147483648) [ Ordering.lt ↦ true | _ ↦ false ])

-- A size below 2^31 is kept.
pub to_int32_small : (n : ℕ) → n < 2147483648 → to_int32 n ≡ pos n
unfolding to_int32
to_int32_small n h = ground arith

pub ltb_ℤ_trans : (a b c : ℤ) → ltb_ℤ a b ≡ true → ltb_ℤ b c ≡ true → ltb_ℤ a c ≡ true
ltb_ℤ_trans a b c h k = ground arith

pub ltb_ℤ_total : (a b : ℤ) → ltb_ℤ a b ≡ false → ltb_ℤ b a ≡ false → a ≡ b
ltb_ℤ_total a b h k = ground arith

pub ltb_ℤ_irrefl : (a : ℤ) → ltb_ℤ a a ≡ false
ltb_ℤ_irrefl a = ground arith

pub ltb_ℤ_asym : (a b : ℤ) → ltb_ℤ a b ≡ true → ltb_ℤ b a ≡ false
ltb_ℤ_asym a b h = ground arith

-- `x + 1` of an `int`. At INT_MAX, where C++ leaves the sum undefined, it wraps.
unfoldable pub next_int : ℤ → ℤ
unfolding to_int32
next_int (pos n) = to_int32 (suc n)
next_int (negsuc zero) = pos 0
next_int (negsuc (suc n)) = negsuc n

pub next_int_small : (n : ℕ) → suc n < 2147483648 → next_int (pos n) ≡ pos (suc n)
unfolding next_int
next_int_small n h = to_int32_small (suc n) h
