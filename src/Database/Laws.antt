-- ===== src/Database/Laws.antt =====
-- What `Get_KV` returns after each operation of the store.
use cs739_p2_replicated_data.Base.{some, String, ◌≡◌, arith, str_eq, if◌then◌else◌}
use cs739_p2_replicated_data.Base.Int.{pos}
use cs739_p2_replicated_data.Map.{lookup, string_key}
use cs739_p2_replicated_data.Map.Laws.{lookup-insert, lookup-erase}
use cs739_p2_replicated_data.Database.{Store, get_kv, set_kv, delete_kv}

-- After any Set_KV or Delete_KV, Get_KV of the same key returns the value with error 0, or the
-- empty value with error 1, and Get_KV of any other key returns what it returned before.
pub get_kv-update :
    (k j v : String) (kv : Store)
    → (get_kv j (set_kv k v kv) ≡ (if str_eq k j then (v, pos 0) else get_kv j kv))
      × (get_kv j (delete_kv k kv) ≡ (if str_eq k j then ("", pos 1) else get_kv j kv))
unfolding get_kv set_kv delete_kv
get_kv-update k j v kv =
    (ground (arith, lookup-insert k j v kv), ground (arith, lookup-erase k j kv))

pub lookup-set_kv :
    (k j v : String) (kv : Store)
    → lookup j (set_kv k v kv) ≡ (if str_eq k j then some v else lookup j kv)
unfolding set_kv
lookup-set_kv k j v kv = lookup-insert k j v kv
