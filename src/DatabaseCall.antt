-- ===== src/DatabaseCall.antt =====
-- src/rpc.cc, `DatabaseRPCWrapperCall`: the client's side of the database calls, made by the
-- process `self` to the database endpoint of the member `a`.
pub mod Laws
use cs739_p2_replicated_data.Base.{ℕ, String, Bool, []}
use cs739_p2_replicated_data.Proto.{
  GetResponse, empty_get_response, SetRequest, Status, is_ok, Reply,
}
use cs739_p2_replicated_data.Base.{if◌then◌else◌}
use cs739_p2_replicated_data.Database.{Store}
use cs739_p2_replicated_data.World.{World, Slot, stub, steps, count_call}
use cs739_p2_replicated_data.Election.{remote}
use cs739_p2_replicated_data.DatabaseRpc.{Weather, get, set, get_full_db}

-- what `get` returns for a reply
abbrev pub text_of : Reply GetResponse → String
text_of r = if is_ok r.status then r.response.value else "RPC failed !"

module _ (self : String) (slot : Slot) (a : String) where
  -- `get_db`, whose map is empty where the call fails
  unfoldable pub call_get_db : World → Store × World
  call_get_db w =
      let (r, w') =
        stub [] get_full_db slot a (count_call self "DatabaseRPCWrapperCall::get_db" w) in
      (r.response, w')

  unfoldable pub call_get : ℕ → Weather → String → World → String × World
  call_get fuel weather key w =
      let (r, w') =
        remote empty_get_response (get fuel a weather key) slot.delivery
          (steps slot.others (count_call self "DatabaseRPCWrapperCall::get" w)) in
      (text_of r, w')

  unfoldable pub call_set : ℕ → Weather → SetRequest → World → Status × World
  call_set fuel weather request w =
      let (r, w') =
        remote tt (set fuel a weather request) slot.delivery
          (steps slot.others (count_call self "DatabaseRPCWrapperCall::set" w)) in
      (r.status, w')
