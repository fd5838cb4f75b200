-- ===== src/ConsensusRpc/Converge.antt =====
-- Successes in any order: the value of a key that the store is left with.
use cs739_p2_replicated_data.Base.{
  refl, sym, ◌≡◌, ◌∙◌, ◌⊎◌, inl, inr, Bool, true, false, some, List, [], ◌∷◌, ◌++◌, str_eq, if_both,
}
use cs739_p2_replicated_data.Base.Int.{ℤ, ltb_ℤ, ltb_ℤ_irrefl, ltb_ℤ_asym, int_min}
use cs739_p2_replicated_data.Base.Lists.{All}
use cs739_p2_replicated_data.Map.{lookup, string_key}
use cs739_p2_replicated_data.Proto.{Request}
use cs739_p2_replicated_data.Log.Rounds.{above}
use cs739_p2_replicated_data.Log.Latest.{rounds}
use cs739_p2_replicated_data.Process.{Process}
use cs739_p2_replicated_data.ConsensusRpc.{success}
use cs739_p2_replicated_data.ConsensusRpc.Newest.{
  above-success, newest-success, older-success, other-success, lookup-set_kv_self,
}

-- The request `s` is for another key than `r`, or for an older round of its key, an `int`.
abbrev pub Superseded : Request → Request → Type 0
Superseded r s =
    (str_eq s.key r.key ≡ false)
    ⊎ ((s.key ≡ r.key) × (ltb_ℤ s.round int_min ≡ false) × (ltb_ℤ s.round r.round ≡ true))

-- `success` on each request in turn
unfoldable pub successes : List Request → Process → Process
successes [] p = p
successes (s ∷ ss) p = successes ss (success false s p).1

module _ (r : Request) (named : str_eq r.key "leader" ≡ false)
    (int : ltb_ℤ r.round int_min ≡ false) where
  -- No newer round of the key is known.
  abbrev IsNewest : Process → Type 0
  IsNewest p = above r.round (rounds r.key p.pax_log) ≡ false

  -- The round and the value of `r` are known, and nothing newer.
  record IsStored (p : Process) : Type 0 where
    pub newest : IsNewest p
    pub older : (n : ℤ) → ltb_ℤ n r.round ≡ true → above n (rounds r.key p.pax_log) ≡ true
    pub stored : lookup r.key p.kv_store ≡ some r.value

  success-IsNewest :
      (s : Request) (p : Process) → Superseded r s → IsNewest p → IsNewest (success false s p).1
  success-IsNewest s p (inl ne) h = rw ((other-success r.key s p ne).1, h) refl
  success-IsNewest s p (inr (key, _, lt)) h =
      rw (sym key, above-success r.round s p, ltb_ℤ_asym s.round r.round lt) (rw key h)

  self-IsStored : (p : Process) → IsNewest p → IsStored (success false r p).1
  self-IsStored p h = record {
    newest = rw (above-success r.round r p, ltb_ℤ_irrefl r.round, h) refl;
    older = λ n lt. rw (above-success n r p, lt) refl;
    stored = rw (newest-success r p named int h).1 (lookup-set_kv_self _ _ _);
  }

  success-IsStored :
      (s : Request) (p : Process) → Superseded r s → IsStored p → IsStored (success false s p).1
  success-IsStored s p (inl ne) h =
      let o = other-success r.key s p ne in
      record {
        newest = rw (o.1, h.newest) refl;
        older = λ n lt. rw o.1 (h.older n lt);
        stored = o.0 ∙ h.stored;
      }
  success-IsStored s p (inr (key, s_int, lt)) h = record {
    newest = success-IsNewest s p (inr (key, s_int, lt)) h.newest;
    older = λ n m.
        rw (sym key, above-success n s p)
          (if_both (λ (b : Bool). b ≡ true) (ltb_ℤ n s.round) true
            (above n (rounds s.key p.pax_log)) refl (rw key (h.older n m)));
    stored = rw (older-success s p s_int (rw key (h.older s.round lt))) h.stored;
  }

  successes-IsStored :
      (ss : List Request) (p : Process)
      → All (Superseded r) ss
      → IsStored p
      → IsStored (successes ss p)
  unfolding successes
  successes-IsStored [] p h k = k
  successes-IsStored (s ∷ ss) p h k = successes-IsStored ss _ h.1 (success-IsStored s p h.0 k)

  successes-IsNewest :
      (ss : List Request) (p : Process)
      → All (Superseded r) ss
      → IsNewest p
      → IsNewest (successes ss p)
  unfolding successes
  successes-IsNewest [] p h k = k
  successes-IsNewest (s ∷ ss) p h k = successes-IsNewest ss _ h.1 (success-IsNewest s p h.0 k)

  successes-append :
      (ss ts : List Request) (p : Process) → successes (ss ++ ts) p ≡ successes ts (successes ss p)
  unfolding successes
  successes-append [] ts p = refl
  successes-append (s ∷ ss) ts p = successes-append ss ts (success false s p).1

-- Let two processes read the success `r` for a key other than "leader", in an `int` round above
-- which neither knows one of the key, and before it and after it any successes for other keys or
-- for older rounds of the key, each process in an order of its own. Then both have the value of `r`
-- for the key.
pub successes_converge :
    (r : Request) (before after before' after' : List Request) (p q : Process)
    → str_eq r.key "leader" ≡ false
    → ltb_ℤ r.round int_min ≡ false
    → above r.round (rounds r.key p.pax_log) ≡ false
    → above r.round (rounds r.key q.pax_log) ≡ false
    → All (Superseded r) before
    → All (Superseded r) after
    → All (Superseded r) before'
    → All (Superseded r) after'
    → (lookup r.key (successes (before ++ r ∷ after) p).kv_store ≡ some r.value)
      × (lookup r.key (successes (before' ++ r ∷ after') q).kv_store ≡ some r.value)
successes_converge r before after before' after' p q named int hp hq b a b' a' =
    (last before after p hp b a, last before' after' q hq b' a')
  where
    last :
        (xs ys : List Request) (p : Process)
        → IsNewest r named int p
        → All (Superseded r) xs
        → All (Superseded r) ys
        → lookup r.key (successes (xs ++ r ∷ ys) p).kv_store ≡ some r.value
    last xs ys p h hx hy = rw (successes-append r named int xs (r ∷ ys) p) (
        unfold successes in
        (successes-IsStored r named int ys _ hy
          (self-IsStored r named int _ (successes-IsNewest r named int xs p hx h))).stored)
