-- ===== src/Threads/Whole.antt =====
-- A handler thread that nobody interrupts.
use cs739_p2_replicated_data.Base.{◌≡◌, refl, Bool, true, false, arith}
use cs739_p2_replicated_data.Proto.{Request}
use cs739_p2_replicated_data.Process.{Process}
use cs739_p2_replicated_data.ConsensusRpc.{propose, accept, success}
use cs739_p2_replicated_data.Threads.{
  Thread, propose_start, accept_start, success_start, answered, informed, advance,
}

-- Four steps of one thread, which end every handler.
abbrev pub finish : Thread → Process → Thread × Process
finish t p =
    let (t₁, p₁) = advance t p in
    let (t₂, p₂) = advance t₁ p₁ in let (t₃, p₃) = advance t₂ p₂ in advance t₃ p₃

-- A handler that no other thread interrupts ends with the reply and the process of the whole
-- handler, cancelled or not: for `propose`, `accept` and `success`.
pub finish_whole :
    (c : Bool) (r : Request) (p : Process)
    → (finish (propose_start c r) p ≡ (answered (propose c r p).0, (propose c r p).1))
      × (finish (accept_start c r) p ≡ (answered (accept c r p).0, (accept c r p).1))
      × (finish (success_start c r) p ≡ (informed (success c r p).0, (success c r p).1))
unfolding advance propose accept success
finish_whole true r p = (refl, refl, refl)
finish_whole false r p = (refl, refl, ground arith)
