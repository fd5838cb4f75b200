-- ===== src/Database.antt =====
-- src/app.cc, `Database`: the state machine, an in-memory key-value store. `data_mutex` makes each
-- write atomic; what its error codes mean is pthread's.
pub mod Laws
use cs739_p2_replicated_data.Base.{String, none, some}
use cs739_p2_replicated_data.Base.Int.{ℤ, pos}
use cs739_p2_replicated_data.Map.{Map, lookup, insert, erase, string_key}

abbrev pub Store : Type 0
Store = Map String String

-- `Get_KV`: the value, and 1 for a key that is missing
unfoldable pub get_kv : String → Store → String × ℤ
unfolding lookup
get_kv key kv = elim (lookup key kv) [ none ↦ ("", pos 1) | some v ↦ (v, pos 0) ]

unfoldable pub set_kv : String → String → Store → Store
unfolding insert
set_kv key value kv = insert key value kv

unfoldable pub delete_kv : String → Store → Store
unfolding erase
delete_kv key kv = erase key kv

-- `Get_DB`: a copy of the whole store
abbrev pub get_db : Store → Store
get_db kv = kv
