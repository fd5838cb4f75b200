-- ===== src/Attempt/Live.antt =====
-- The nodes that answered the pings.
use cs739_p2_replicated_data.Base.{ℕ, ◌+◌, ◌≡◌, refl, arith}
use cs739_p2_replicated_data.Base.{String, sym, inl, inr, List, [], ◌∷◌, ◌++◌, Bool-cases}
use mathlib.Core.Path.{subst}
use cs739_p2_replicated_data.Base.Lists.{In, In-append, IsDistinct, IsDistinct-append}
use cs739_p2_replicated_data.Proto.{Reply, is_ok}
use cs739_p2_replicated_data.World.{World}
use cs739_p2_replicated_data.Attempt.{Network, see_ping, ping_all, length}
use cs739_p2_replicated_data.Attempt.Loops.{broadcast_inv}

-- What the ping loop keeps: the live nodes are distinct members, apart from those still to come.
pub record Live (members rest live : List String) : Type 0 where
  pub rest_distinct : IsDistinct rest
  pub live_distinct : IsDistinct live
  pub apart : (a : String) → In a live → ¬ In a rest
  pub rest_members : (a : String) → In a rest → In a members
  pub live_members : (a : String) → In a live → In a members

see_ping-Live :
    (members rest live : List String) (a : String) (r : Reply Unit)
    → Live members (a ∷ rest) live
    → Live members rest (see_ping live a r)
see_ping-Live members rest live a r h = elim (Bool-cases (is_ok r.status)) [
  | inl t ↦ rw t grown
  | inr f ↦ rw f (record {
    rest_distinct = h.rest_distinct.1;
    live_distinct = h.live_distinct;
    apart = λ b m k. h.apart b m (inr k);
    rest_members = λ b m. h.rest_members b (inr m);
    live_members = h.live_members;
  })
]
  where
    single : IsDistinct (a ∷ [])
    single = ((λ m. m), tt)

    grown : Live members rest (live ++ a ∷ [])
    grown = record {
      rest_distinct = h.rest_distinct.1;
      live_distinct =
          IsDistinct-append live (a ∷ []) h.live_distinct single
            (λ b m k. elim k [ inl e ↦ h.apart b m (inl e) | inr n ↦ n ]);
      apart = λ b m k. elim (In-append b live (a ∷ []) m) [
        | inl l ↦ h.apart b l (inr k)
        | inr s ↦ elim s [
          | inl e ↦ h.rest_distinct.0 (subst (λ x. In x rest) (sym e) k)
          | inr n ↦ n
        ]
      ];
      rest_members = λ b m. h.rest_members b (inr m);
      live_members = λ b m. elim (In-append b live (a ∷ []) m) [
        | inl l ↦ h.live_members b l
        | inr s ↦ elim s [ inl e ↦ h.rest_members b (inl e) | inr n ↦ absurd n ]
      ];
    }

-- The live nodes are members, each once.
pub ping_all-live :
    (self : String) (net : Network) (members : List String) (w : World)
    → IsDistinct members
    → Live members [] (ping_all self net members w).0
unfolding ping_all
ping_all-live self net members w d =
    broadcast_inv _ see_ping (λ rest live w. Live members rest live)
      (λ a rest live w. see_ping-Live members rest live a _) members [] w
      (record {
        rest_distinct = d;
        live_distinct = tt;
        apart = λ a m. absurd m;
        rest_members = λ a m. m;
        live_members = λ a m. absurd m;
      })

-- What a counting loop over `live` keeps: as many distinct voters as it has counted, all of them
-- in `live` and none still to come.
pub record Roll (live rest : List String) (count : ℕ) : Type 0 where
  pub voters : List String
  pub counted : length voters ≡ count
  pub distinct : IsDistinct voters
  pub apart : (a : String) → In a voters → ¬ In a rest
  pub voters_live : (a : String) → In a voters → In a live
  pub rest_distinct : IsDistinct rest
  pub rest_live : (a : String) → In a rest → In a live

module _ {live : List String} where
  abbrev pub empty_roll : IsDistinct live → Roll live live 0
  empty_roll d = record {
    voters = [];
    counted = refl;
    distinct = tt;
    apart = λ a m. absurd m;
    voters_live = λ a m. absurd m;
    rest_distinct = d;
    rest_live = λ a m. m;
  }

  abbrev pub vote :
      (a : String) (rest : List String) {n : ℕ} → Roll live (a ∷ rest) n → Roll live rest (n + 1)
  vote a rest h = record {
    voters = a ∷ h.voters;
    counted = omega (arith, h.counted);
    distinct = ((λ m. h.apart a m (inl refl)), h.distinct);
    apart = λ b m k. elim m [
      | inl e ↦ h.rest_distinct.0 (subst (λ x. In x rest) (sym e) k)
      | inr n ↦ h.apart b n (inr k)
    ];
    voters_live = λ b m. elim m [ inl e ↦ h.rest_live b (inl e) | inr n ↦ h.voters_live b n ];
    rest_distinct = h.rest_distinct.1;
    rest_live = λ b m. h.rest_live b (inr m);
  }

  abbrev pub skip :
      (a : String) (rest : List String) {n : ℕ} → Roll live (a ∷ rest) n → Roll live rest n
  skip a rest h = record {
    voters = h.voters;
    counted = h.counted;
    distinct = h.distinct;
    apart = λ b m k. h.apart b m (inr k);
    voters_live = h.voters_live;
    rest_distinct = h.rest_distinct.1;
    rest_live = λ b m. h.rest_live b (inr m);
  }
