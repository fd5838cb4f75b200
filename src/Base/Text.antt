-- ===== src/Base/Text.antt =====
-- The order of `std::string`, by which the maps are sorted.
use cs739_p2_replicated_data.Base.{
  ◌≡◌, refl, ap, ◌∙◌, Bool, true, false, arith, ltb, nat_eq, if◌then◌else◌,
}
use Prim.Native.Char.{Char, code}
use Prim.Native.String.{String, [], ◌∷◌, compare}
use Prim.Native.String.compare.{nil-cons, cons-nil, cons-cons}
use text.Mathlib.Text.{is_lt}
use text.Mathlib.TextEquality.{codes_equal}

abbrev pub string_lt : String → String → Bool
string_lt a b = is_lt (compare a b)

string_lt_cons :
    (c d : Char) (s t : String)
    → string_lt (c ∷ s) (d ∷ t) ≡ (
        if ltb (code c) (code d)
        then true
        else if nat_eq (code c) (code d)
        then string_lt s t
        else false)
string_lt_cons c d s t = ap is_lt (cons-cons c d s t) ∙ ground arith

string_lt_nil : (s : String) → string_lt s [] ≡ false
string_lt_nil [] = refl
string_lt_nil (c ∷ s) = ap is_lt (cons-nil c s)

pub string_lt_trans :
    (s t u : String) → string_lt s t ≡ true → string_lt t u ≡ true → string_lt s u ≡ true
string_lt_trans s [] u h k = cc (string_lt_nil s)
string_lt_trans s (d ∷ t) [] h k = cc (string_lt_nil (d ∷ t))
string_lt_trans [] (d ∷ t) (e ∷ u) h k = ap is_lt (nil-cons e u)
string_lt_trans (c ∷ s) (d ∷ t) (e ∷ u) h k = ground (
  arith,
  string_lt_cons c d s t,
  string_lt_cons d e t u,
  string_lt_cons c e s u,
  string_lt_trans s t u,
)

pub string_lt_irrefl : (s : String) → string_lt s s ≡ false
string_lt_irrefl [] = string_lt_nil []
string_lt_irrefl (c ∷ s) = ground (arith, string_lt_cons c c s s, string_lt_irrefl s)

same_head :
    (c d : Char) (s t : String)
    → string_lt (c ∷ s) (d ∷ t) ≡ false
    → string_lt (d ∷ t) (c ∷ s) ≡ false
    → (nat_eq (code c) (code d) ≡ true) × (string_lt s t ≡ false) × (string_lt t s ≡ false)
same_head c d s t h k = ground (arith, string_lt_cons c d s t, string_lt_cons d c t s)

same_code : (c d : Char) → nat_eq (code c) (code d) ≡ true → c ≡ d
same_code c d h = codes_equal c d (ground arith)

-- Two strings of which neither is below the other are equal.
pub string_lt_total : (s t : String) → string_lt s t ≡ false → string_lt t s ≡ false → s ≡ t
string_lt_total [] [] h k = refl
string_lt_total [] (d ∷ t) h k = cc (ap is_lt (nil-cons d t))
string_lt_total (c ∷ s) [] h k = cc (ap is_lt (nil-cons c s))
string_lt_total (c ∷ s) (d ∷ t) h k =
    let same = same_head c d s t h k in
    λ i. same_code c d same.0 i ∷ string_lt_total s t same.1 same.2 i
