-- ===== src/Map.antt =====
-- `std::map`: an association list in ascending order of its keys, which is the order in which the
-- program's loops visit it.
pub mod Laws
pub mod Sorted
pub mod Unique
use cs739_p2_replicated_data.Base.{
  ℕ, String, ◌≡◌, ◌↔◌, Bool, true, false, Option, none, some, List, [], ◌∷◌, str_eq, eq_iff,
  if◌then◌else◌,
}
use cs739_p2_replicated_data.Base.Int.{
  ℤ, ltb_ℤ, eqb_ℤ, eqb_ℤ_iff, ltb_ℤ_irrefl, ltb_ℤ_trans, ltb_ℤ_total,
}
use cs739_p2_replicated_data.Base.Lists.{length}
use cs739_p2_replicated_data.Base.Text.{
  string_lt, string_lt_irrefl, string_lt_trans, string_lt_total,
}

-- What a key type gives: `std::less`, a strict linear order, and an equality that decides `≡`.
pub record Key (K : Type 0) : Type 0 where
  pub ltb : K → K → Bool
  pub beq : K → K → Bool
  pub beq_iff : (a b : K) → (beq a b ≡ true) ↔ (a ≡ b)
  pub irrefl : (a : K) → ltb a a ≡ false
  pub trans : (a b c : K) → ltb a b ≡ true → ltb b c ≡ true → ltb a c ≡ true
  pub total : (a b : K) → ltb a b ≡ false → ltb b a ≡ false → a ≡ b

instance abbrev pub string_key : Key String
string_key = record {
  ltb = string_lt;
  beq = str_eq;
  beq_iff = eq_iff;
  irrefl = string_lt_irrefl;
  trans = string_lt_trans;
  total = string_lt_total;
}

instance abbrev pub int_key : Key ℤ
int_key = record {
  ltb = ltb_ℤ;
  beq = eqb_ℤ;
  beq_iff = eqb_ℤ_iff;
  irrefl = ltb_ℤ_irrefl;
  trans = ltb_ℤ_trans;
  total = ltb_ℤ_total;
}

abbrev pub Map : Type 0 → Type 0 → Type 0
Map K V = List (K × V)

module _ {K V : Type 0} ⦃o : Key K⦄ where
  -- `find`
  unfoldable pub lookup : K → Map K V → Option V
  lookup k [] = none
  lookup k ((j, v) ∷ m) = if o.beq j k then some v else lookup k m

  -- `m[k] = v`
  unfoldable pub insert : K → V → Map K V → Map K V
  insert k v [] = (k, v) ∷ []
  insert k v ((j, w) ∷ m) =
      if o.beq j k
      then (k, v) ∷ m
      else if o.ltb k j
      then (k, v) ∷ (j, w) ∷ m
      else (j, w) ∷ insert k v m

  unfoldable pub erase : K → Map K V → Map K V
  erase k [] = []
  erase k ((j, w) ∷ m) = let rest = erase k m in if o.beq j k then rest else (j, w) ∷ rest

  -- the value at a key, or that of a default-constructed item
  unfoldable pub get_or : K → V → Map K V → V
  unfolding lookup
  get_or k d m = elim (lookup k m) [ none ↦ d | some v ↦ v ]

  -- `m[k]` as a reference that `f` writes through: a missing item is made first
  unfoldable pub modify : K → V → (V → V) → Map K V → Map K V
  unfolding insert get_or
  modify k d f m = insert k (f (get_or k d m)) m

-- the keys in the order of iteration
unfoldable pub keys : {K V : Type 0} → Map K V → List K
keys [] = []
keys ((k, v) ∷ m) = k ∷ keys m

abbrev pub size : {K V : Type 0} → Map K V → ℕ
size m = length m
