-- ===== src/Config/Decimal.antt =====
-- `std::to_string` writes different numbers differently.
use Prim.Native.Char.{Char, code}
use Prim.Native.String.{[], ◌∷◌, ◌++◌}
use text.Mathlib.TextLemmas.{nil-append, cons-append}
use mathlib.Core.Path.{subst}
use cs739_p2_replicated_data.Base.{
  ℕ, zero, suc, ◌+◌, ◌*◌, ◌-◌, ◌/◌, ◌%◌, ◌<◌, String, ◌≡◌, refl, ap, sym, ◌∙◌, inl, inr, arith, ltb,
  Bool-cases, List, [] as nil, ◌∷◌ as cons,
}
use cs739_p2_replicated_data.Base.Lists.{length}
use cs739_p2_replicated_data.Config.{digit_of, digits, decimal_from, decimal}

record IsDigit (n : ℕ) (s : String) : Type 0 where
  pub char : Char
  pub text : s ≡ char ∷ []
  pub value : code char ≡ 48 + n

-- The digits count from `n`.
abbrev AreDigits : ℕ → List String → Type 0
AreDigits n nil = Unit
AreDigits n (cons s ss) = IsDigit n s × AreDigits (suc n) ss

is_digit : (c : Char) (n : ℕ) → code c ≡ 48 + n → IsDigit n (c ∷ [])
is_digit c n h = record { char = c; text = refl; value = h }

digits-AreDigits : AreDigits 0 digits
digits-AreDigits = (
  is_digit "0" 0 refl,
  (
    is_digit "1" 1 refl,
    (
      is_digit "2" 2 refl,
      (
        is_digit "3" 3 refl,
        (
          is_digit "4" 4 refl,
          (
            is_digit "5" 5 refl,
            (
              is_digit "6" 6 refl,
              (is_digit "7" 7 refl, (is_digit "8" 8 refl, (is_digit "9" 9 refl, tt))),
            ),
          ),
        ),
      ),
    ),
  ),
)

digit_of-IsDigit :
    (d n : ℕ) (ss : List String) → AreDigits n ss → d < length ss → IsDigit (n + d) (digit_of d ss)
unfolding digit_of
digit_of-IsDigit d n nil h lt = absurd (omega arith)
digit_of-IsDigit zero n (cons s ss) h lt =
    let at : n ≡ n + 0 = omega arith in subst (λ x. IsDigit x s) at h.0
digit_of-IsDigit (suc d) n (cons s ss) h lt =
    let at : suc n + d ≡ n + suc d = omega arith in
    subst (λ x. IsDigit x (digit_of d ss)) at (digit_of-IsDigit d (suc n) ss h.1 (omega arith))

-- The number that a text of digits continues from `a`.
read_from : ℕ → String → ℕ
read_from a [] = a
read_from a (c ∷ s) = read_from (a * 10 + (code c - 48)) s

read_from-digit :
    (a d : ℕ) (s : String)
    → d < 10
    → read_from a (digit_of d digits ++ s) ≡ read_from (a * 10 + d) s
unfolding read_from
read_from-digit a d s h =
    let i = digit_of-IsDigit d 0 digits digits-AreDigits h in
    rw (i.text, cons-append i.char [] s, nil-append s)
      (ap (λ x. read_from (a * 10 + (x - 48)) s) i.value
        ∙ ap (λ x. read_from (a * 10 + x) s) (omega arith))

read_from-decimal_from :
    (fuel n : ℕ) (s : String) → n < fuel → read_from 0 (decimal_from fuel n s) ≡ read_from n s
unfolding decimal_from
read_from-decimal_from zero n s h = absurd (omega arith)
read_from-decimal_from (suc fuel) n s h = elim (Bool-cases (ltb n 10)) [
  | inl e ↦ rw e (read_from-digit 0 n s (ground arith) ∙ ap (λ x. read_from x s) (omega arith))
  | inr e ↦ rw e (
      read_from-decimal_from fuel (n / 10) (digit_of (n % 10) digits ++ s) (ground arith)
      ∙ read_from-digit (n / 10) (n % 10) s (omega arith)
      ∙ ap (λ x. read_from x s) (omega arith))
]

pub decimal_injective : (n k : ℕ) → decimal n ≡ decimal k → n ≡ k
unfolding decimal read_from
decimal_injective n k h =
    sym (read_from-decimal_from (suc n) n "" (omega arith))
    ∙ ap (read_from 0) h
    ∙ read_from-decimal_from (suc k) k "" (omega arith)

tail : String → String
tail [] = []
tail (c ∷ s) = s

-- A common beginning can be taken off.
pub append_cancel : (s t u : String) → s ++ t ≡ s ++ u → t ≡ u
unfolding tail
append_cancel [] t u h = sym (nil-append t) ∙ h ∙ nil-append u
append_cancel (c ∷ s) t u h =
    append_cancel s t u (ap tail (sym (cons-append c s t) ∙ h ∙ cons-append c s u))
