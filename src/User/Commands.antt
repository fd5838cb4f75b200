-- ===== src/User/Commands.antt =====
-- The branches of `user_entrypoint`.
use Prim.Native.String.{◌++◌}
use cs739_p2_replicated_data.Base.{
  ℕ, zero, suc, ◌+◌, ◌%◌, String, List, [], ◌∷◌, ◌++◌ as append, map, if◌then◌else◌,
}
use cs739_p2_replicated_data.Base.Lists.{length}
use cs739_p2_replicated_data.Map.{Map, get_or, modify, string_key}
use cs739_p2_replicated_data.Config.{decimal}
use cs739_p2_replicated_data.Proto.{is_ok}
use cs739_p2_replicated_data.Database.{Store}
use cs739_p2_replicated_data.Process.{Node}
use cs739_p2_replicated_data.User.{
  Console, Setting, print, error_code, user_set, user_get, user_get_db, user_ping, user_get_leader,
}

-- How the program ends.
pub data Exit : Type 0 where
  returned : Exit
  threw : String → Exit

-- What "test_leader_c" and "test_non_leader_c" do, each at its address.
unfoldable pub test_consensus : Setting → String → Console → Console
unfolding user_ping user_get_leader
test_consensus e address s =
    let (r, s₁) = user_ping e address s in
    let (resp, s₂) =
      user_get_leader e address
        (print (if is_ok r.status then "Ping works" else "Ping broken") s₁) in
    print
      ("get_leader() error code "
        ++ decimal (error_code resp.status)
        ++ " returned leader address: "
        ++ resp.response)
      s₂

unfoldable pub test_leader_db : Setting → Console → Console
unfolding user_set user_get
test_leader_db e s =
    let (status, s₁) = user_set e "127.0.1.1:9000" "1" "v1" s in
    let (g, s₂) =
      user_get e "127.0.1.1:9000" "1"
        (print ("set() error code " ++ decimal (error_code status)) s₁) in
    print ("value returned was " ++ g) s₂

-- `keys[i]`, `alpha[i]`, `endpoints[i]`, within the bounds
item : ℕ → List String → String
item n [] = ""
item zero (x ∷ xs) = x
item (suc n) (x ∷ xs) = item n xs

abbrev ten_keys : List String
ten_keys = "a" ∷ "b" ∷ "c" ∷ "d" ∷ "e" ∷ "f" ∷ "g" ∷ "h" ∷ "i" ∷ "j" ∷ []

abbrev alpha : List String
alpha = append ten_keys (
    "k" ∷ "l" ∷ "m" ∷ "n" ∷ "o" ∷ "p" ∷ "q" ∷ "r" ∷ "s" ∷ "t" ∷ "u" ∷ "v" ∷ "w" ∷ "x" ∷ "y" ∷ "z"
    ∷ [])

-- `rand() % n`
roll : Setting → ℕ → Console → ℕ × Console
roll e n s = (e.rand s.rolls % n, record s { rolls = s.rolls + 1 })

random_text : Setting → ℕ → String → Console → String × Console
unfolding roll item
random_text e zero result s = (result, s)
random_text e (suc n) result s =
    let (i, s₁) = roll e 26 s in random_text e n (result ++ item i alpha) s₁

-- One random `set`.
random_op : Setting → List String → Console → Console
unfolding random_text roll item user_set
random_op e endpoints s =
    let (result, s₁) = random_text e 5 "" s in
    let (replica_idx, s₂) = roll e (length endpoints) s₁ in
    let (key_idx, s₃) = roll e 10 s₂ in
    let key : String = item key_idx ten_keys in
    let (status, s₄) = user_set e (item replica_idx endpoints) key result s₃ in
    if is_ok status then s₄ else print ("Set(" ++ key ++ ", " ++ result ++ ") failed") s₄

random_ops : Setting → ℕ → List String → Console → Console
unfolding random_op
random_ops e zero endpoints s = s
random_ops e (suc n) endpoints s = random_ops e n endpoints (random_op e endpoints s)

-- `results[a].push_back(v)`, for each of the values
push_all : String → List String → Map String (List String) → Map String (List String)
push_all a [] results = results
push_all a (v ∷ vs) results = push_all a vs (modify a [] (λ row. append row (v ∷ [])) results)

-- `results[a]`
touch : String → Map String (List String) → Map String (List String)
touch a results = modify a [] (λ row. row) results

-- The loop over the endpoints, with what it does for each replica's store.
collect :
    Setting
    → (String → Store → Map String (List String) → Map String (List String))
    → List String
    → Map String (List String)
    → Console
    → Map String (List String) × Console
unfolding user_get_db
collect e see [] results s = (results, s)
collect e see (a ∷ as') results s =
    let (r, s₁) = user_get_db e a s in collect e see as' (see a r results) s₁

spaced : List String → String
spaced [] = ""
spaced (v ∷ vs) = v ++ " " ++ spaced vs

print_results : Map String (List String) → Console → Console
unfolding spaced
print_results [] s = s
print_results ((k, row) ∷ results) s = print_results results (print (k ++ ": " ++ spaced row) s)

endpoint_of : String × Node → String
endpoint_of (k, n) = n.database_endpoint

-- `node->databaseEndpoint` of each member
database_endpoints : Setting → Console → List String
unfolding endpoint_of
database_endpoints e s = map endpoint_of (s.world e.user).member_list

-- The random operations, and the stores after them.
random_test :
    Setting
    → ℕ
    → (String → Store → Map String (List String) → Map String (List String))
    → Console
    → Console
unfolding random_ops collect print_results database_endpoints
random_test e num_ops see s =
    let endpoints : List String = database_endpoints e s in
    let (results, s₁) = collect e see endpoints [] (random_ops e num_ops endpoints s) in
    print_results results s₁

-- 100 operations, and a row for each store that is not empty, in the order in which the map is
-- visited
unfoldable pub test_5_random_ops : Setting → (Store → List String) → Console → Console
unfolding random_test push_all
test_5_random_ops e visit s = random_test e 100 (λ a r. push_all a (visit r)) s

-- `r[key]` for each of the keys
values_at : Store → List String
unfolding get_or
values_at r = map (λ key. get_or key "" r) ten_keys

unfoldable pub test_1000_random_ops : Setting → Console → Console
unfolding random_test values_at push_all touch
test_1000_random_ops e s =
    random_test e 1000 (λ a r results. push_all a (values_at r) (touch a results)) s

recovery_line : Store → String → String → String
unfolding get_or
recovery_line db i expected =
    "Key: " ++ i ++ " | Expected: " ++ expected ++ " | Result: " ++ get_or i "" db

unfoldable pub test_recovery : Setting → Console → Console
unfolding user_set user_get_db recovery_line
test_recovery e s =
    let (_, s₁) = user_set e "127.0.1.1:9000" "0" "v1" s in
    let (_, s₂) = user_set e "127.0.1.1:9000" "1" "v2" s₁ in
    let (_, s₃) = user_set e "127.0.1.1:9000" "2" "v3" s₂ in
    let (replica_db, s₄) = user_get_db e "127.0.1.1:9001" (
      print
        "Start up a node with consensus address 127.0.1.1:8001 and db address 127.0.1.1::9001. We will sleep for 10 seconds to allow time for this and recovery to occur"
        s₃) in
    print (recovery_line replica_db "2" "v3")
      (print (recovery_line replica_db "1" "v2") (print (recovery_line replica_db "0" "v1") s₄))
