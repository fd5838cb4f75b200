-- ===== src/Tests/Sessions.antt =====
-- A series of requests to the leader of a small cluster.
use cs739_p2_replicated_data.Base.{
  ℕ, ◌≡◌, refl, arith, none, some, true, false, String, List, [], ◌∷◌, inl, str_eq, if◌then◌else◌,
}
use cs739_p2_replicated_data.Base.Int.{pos}
use cs739_p2_replicated_data.Map.{lookup, keys, get_or, string_key}
use cs739_p2_replicated_data.Proto.{Request, is_ok}
use cs739_p2_replicated_data.Log.{entry}
use cs739_p2_replicated_data.ConsensusRpc.{propose}
use cs739_p2_replicated_data.Attempt.History.{history}
use cs739_p2_replicated_data.Attempt.Leads.{Leads}
use cs739_p2_replicated_data.Attempt.Promise.{NoPromise, history-NoPromise}
use cs739_p2_replicated_data.Session.{Order, Contents, set_of, get_of, serve_all, promise_all}
use cs739_p2_replicated_data.Session.Steps.{Serving, Shows}
use cs739_p2_replicated_data.Session.Refines.{serve_all-refines}
use cs739_p2_replicated_data.Tests.{addr_0, members, members-IsDistinct, fresh, two_up}
use cs739_p2_replicated_data.Tests.Attempts.{next, late}
use cs739_p2_replicated_data.Tests.Requests.{fair, set_u, first_leads}

-- Set a key, read it, and read another that the stores held before.
abbrev orders : List Order
orders =
    record { command = set_of set_u; weather = fair }
    ∷ record { command = get_of "k"; weather = fair }
    ∷ record { command = get_of "j"; weather = fair }
    ∷ []

abbrev contents : Contents
contents j = if str_eq "j" j then some "w" else none

fresh-Leads : Leads addr_0 fresh
unfolding get_or lookup
fresh-Leads = record { run = λ key. ground arith; ahead = λ key a. ground arith }

fresh-Serving : Serving addr_0 members 3 fresh
unfolding get_or lookup keys
fresh-Serving = record {
  leader = first_leads;
  leads = fresh-Leads;
  known = refl;
  space = λ key. omega arith;
}

fresh-Shows : Shows addr_0 fresh contents
unfolding lookup
fresh-Shows j = ground arith

serve_all-refines_example :
    ((serve_all addr_0 orders fresh).0 ≡ (promise_all orders contents).0)
    × Shows addr_0 (serve_all addr_0 orders fresh).1 (promise_all orders contents).1
    × Serving addr_0 members 0 (serve_all addr_0 orders fresh).1
serve_all-refines_example =
    serve_all-refines addr_0 members members-IsDistinct (inl refl) orders fresh contents
      fresh-Serving fresh-Shows
      (
        (refl, record { up = two_up; partitioned = refl; is_up = refl; half_up = omega arith }),
        (tt, (tt, tt)),
      )

fresh-NoPromise : NoPromise fresh
unfolding entry get_or lookup
fresh-NoPromise a key round = ground arith

history-NoPromise_example :
    NoPromise (history (next ∷ late ∷ []) fresh)
    × ((a : String) (id : ℕ) (r : Request)
        → is_ok
            (propose false
              (record r { pserver_id = pos id })
              (history (next ∷ late ∷ []) fresh a)).0.status
          ≡ true)
history-NoPromise_example = history-NoPromise (next ∷ late ∷ []) fresh fresh-NoPromise
