-- ===== src/Session/Refines.antt =====
-- A whole series of requests at the leader.
use cs739_p2_replicated_data.Base.{String, ◌≡◌, refl, ap, ◌∙◌, List, [], ◌∷◌}
use cs739_p2_replicated_data.Base.Lists.{length, In, IsDistinct, All}
use cs739_p2_replicated_data.World.{World}
use cs739_p2_replicated_data.Session.{
  Order, Contents, serve, serve_all, promise, promise_all, Servable,
}
use cs739_p2_replicated_data.Session.Steps.{Serving, Shows, serve-Kept}

module _ (lead : String) (members : List String) (distinct : IsDistinct members)
    (m : In lead members) where
  -- Let a process take itself for the leader, be one of the distinct members that it knows, and be
  -- ahead of all logs, with room for one round more for each of the requests. Then every reply in a
  -- series of requests to it is that of one map which starts with the contents of its store: a
  -- `set` returns OK and a `get` the value set last, or the error where there is none; and the
  -- store ends with the map's contents, the leader still ahead of all logs. Each `set` is for
  -- another key than "leader" and is served while at least half of the members are in reach, which
  -- may be others each time, and no other thread is at work.
  pub serve_all-refines :
      (os : List Order) (w : World) (s : Contents)
      → Serving lead members (length os) w
      → Shows lead w s
      → All (λ (o : Order). Servable lead members o.weather o.command) os
      → ((serve_all lead os w).0 ≡ (promise_all os s).0)
        × Shows lead (serve_all lead os w).1 (promise_all os s).1
        × Serving lead members 0 (serve_all lead os w).1
  unfolding serve_all promise_all
  serve_all-refines [] w s ready shows h = (refl, shows, ready)
  serve_all-refines (o ∷ os) w s ready shows (h, hs) =
      let (reply, ready', shows') =
        serve-Kept lead members (length os) distinct m o.weather w s ready shows o.command h in
      let w' : World = (serve lead o.weather o.command w).1 in
      let (replies, ended, still) =
        serve_all-refines os w' (promise o.command s).1 ready' shows' hs in
      (
        ap (λ a. a ∷ (serve_all lead os w').0) reply
            ∙ ap (λ as'. (promise o.command s).0 ∷ as') replies,
        ended,
        still,
      )
