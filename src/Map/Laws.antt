-- ===== src/Map/Laws.antt =====
-- What a lookup finds after each operation of a map, with no condition on the map.
use cs739_p2_replicated_data.Base.{◌≡◌, refl, none, some, [], ◌∷◌, arith, if◌then◌else◌}
use cs739_p2_replicated_data.Map.{Key, Map, lookup, insert, erase, get_or, modify}

module _ {K V : Type 0} ⦃o : Key K⦄ where
  pub lookup-insert :
      (k j : K) (v : V) (m : Map K V)
      → lookup j (insert k v m) ≡ (if o.beq k j then some v else lookup j m)
  unfolding lookup insert
  lookup-insert k j v [] = refl
  lookup-insert k j v ((i, w) ∷ m) =
      ground (arith, o.beq_iff k j, o.beq_iff i k, o.beq_iff i j, lookup-insert k j v m)

  pub lookup-erase :
      (k j : K) (m : Map K V) → lookup j (erase k m) ≡ (if o.beq k j then none else lookup j m)
  unfolding lookup erase
  lookup-erase k j [] = ground arith
  lookup-erase k j ((i, w) ∷ m) =
      ground (arith, o.beq_iff k j, o.beq_iff i k, o.beq_iff i j, lookup-erase k j m)

  pub lookup-modify :
      (k j : K) (d : V) (f : V → V) (m : Map K V)
      → lookup j (modify k d f m) ≡ (if o.beq k j then some (f (get_or k d m)) else lookup j m)
  unfolding modify
  lookup-modify k j d f m = lookup-insert k j (f (get_or k d m)) m

  pub get_or-insert :
      (k j : K) (d v : V) (m : Map K V)
      → get_or j d (insert k v m) ≡ (if o.beq k j then v else get_or j d m)
  unfolding get_or
  get_or-insert k j d v m = ground (arith, lookup-insert k j v m)

  pub get_or-modify :
      (k j : K) (d d' : V) (f : V → V) (m : Map K V)
      → get_or j d' (modify k d f m) ≡ (if o.beq k j then f (get_or k d m) else get_or j d' m)
  unfolding modify
  get_or-modify k j d d' f m = get_or-insert k j d' (f (get_or k d m)) m

  pub get_or-missing : (k : K) (d : V) (m : Map K V) → lookup k m ≡ none → get_or k d m ≡ d
  unfolding get_or
  get_or-missing k d m h = rw (get_or, h) refl

  pub insert_again : (k : K) (v v' : V) (m : Map K V) → insert k v' (insert k v m) ≡ insert k v' m
  unfolding insert
  insert_again k v v' [] = ground (arith, o.beq_iff k k)
  insert_again k v v' ((j, w) ∷ m) =
      ground (arith, o.beq_iff k k, o.beq_iff j k, insert_again k v v' m)

  pub modify_again :
      (k : K) (d : V) (f g : V → V) (m : Map K V)
      → modify k d g (modify k d f m) ≡ modify k d (λ (x : V). g (f x)) m
  unfolding modify
  modify_again k d f g m =
      rw (get_or-insert k k d (f (get_or k d m)) m, (o.beq_iff k k).1 refl) (insert_again k _ _ m)
