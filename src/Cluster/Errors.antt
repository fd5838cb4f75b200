-- ===== src/Cluster/Errors.antt =====
-- What ends a start: the first configured address that cannot be read.
use cs739_p2_replicated_data.Base.{ℕ, String, ◌≡◌, ◌≢◌, refl, Option, none, List, [], ◌∷◌, ◌++◌}
use cs739_p2_replicated_data.Base.Lists.{length}
use cs739_p2_replicated_data.Config.{Config, Address}
use cs739_p2_replicated_data.Process.{Process}
use cs739_p2_replicated_data.Cluster.{
  Exception, validation_error, bad_lexical_cast, Result, thrown, done, cons_result, port_cast,
  two_tokens, make_address, make_addresses, initialize,
}

cons_both :
    (r : Result Address) (rest : Result (List Address)) (as' : List Address)
    → cons_result r rest ≡ done as'
    → (a : Address) × (bs : List Address) × (r ≡ done a) × (rest ≡ done bs)
cons_both (thrown e) rest as' h = cc h
cons_both (done a) (thrown e) as' h = cc h
cons_both (done a) (done bs) as' h = (a, bs, refl, refl)

module _ (split : String → List String) (lexical_cast : String → Option ℕ) where
  first_thrown :
      (ss ts : List String) (s : String) (as' : List Address) (e : Exception)
      → make_addresses split lexical_cast ss ≡ done as'
      → make_address split lexical_cast s ≡ thrown e
      → make_addresses split lexical_cast (ss ++ s ∷ ts) ≡ thrown e
  unfolding make_addresses
  first_thrown [] ts s as' e h k = rw (make_addresses, k) refl
  first_thrown (t ∷ ss) ts s as' e h k =
      let (a, bs, head, tail) =
        cons_both (make_address split lexical_cast t) (make_addresses split lexical_cast ss) as'
          h in
      rw (make_addresses, head, first_thrown ss ts s bs e tail k) refl

  not_two :
      (s : String) (tokens : List String)
      → length tokens ≢ 2
      → two_tokens split lexical_cast s tokens ≡ thrown (validation_error s)
  unfolding two_tokens
  not_two s [] h = refl
  not_two s (a ∷ []) h = refl
  not_two s (a ∷ b ∷ []) h = absurd (h refl)
  not_two s (a ∷ b ∷ c ∷ ts) h = refl

  -- What is wrong with an address, and the exception for it.
  pub data Fault (s : String) : Exception → Type 0 where
    not_pair : length (split s) ≢ 2 → Fault s (validation_error s)
    bad_port :
        (address port : String)
        → split s ≡ address ∷ port ∷ []
        → lexical_cast port ≡ none
        → Fault s bad_lexical_cast

  make_address-Fault :
      (s : String) (e : Exception) → Fault s e → make_address split lexical_cast s ≡ thrown e
  unfolding make_address two_tokens port_cast
  make_address-Fault s _ (not_pair h) = not_two s (split s) h
  make_address-Fault s _ (bad_port address port both bad) =
      rw (make_address, both, two_tokens, port_cast, bad) refl

  -- A start whose first addresses can be read ends at the first address with a fault, whatever
  -- follows it, and whatever else is configured: with a validation error that names the address if
  -- it is not two tokens, and with a bad cast if it is two, of which the second is no `unsigned
  -- short`.
  pub initialize-Fault :
      (ss ts : List String) (s : String) (as' : List Address) (e : Exception) (config : Config)
      (p : Process)
      → make_addresses split lexical_cast ss ≡ done as'
      → Fault s e
      → initialize split lexical_cast (ss ++ s ∷ ts) config p ≡ thrown e
  unfolding initialize
  initialize-Fault ss ts s as' e config p h fault =
      rw (initialize, first_thrown ss ts s as' e h (make_address-Fault s e fault)) refl
