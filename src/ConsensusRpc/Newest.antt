-- ===== src/ConsensusRpc/Newest.antt =====
-- Successes for one key in several rounds: the value that the store is left with.
use cs739_p2_replicated_data.Base.{
  String, refl, ◌≡◌, true, false, arith, some, [], str_eq, if◌then◌else◌, eq_refl, eq_iff,
}
use cs739_p2_replicated_data.Base.Int.{ℤ, ltb_ℤ, ltb_ℤ_irrefl, int_min}
use cs739_p2_replicated_data.Map.{lookup, string_key}
use cs739_p2_replicated_data.Map.Laws.{lookup-insert, get_or-modify}
use cs739_p2_replicated_data.Proto.{Request, Reply, ok}
use cs739_p2_replicated_data.Log.{Rounds, Log, set_log_accept, get_log_key}
use cs739_p2_replicated_data.Log.Rounds.{above}
use cs739_p2_replicated_data.Log.Latest.{
  rounds, rounds-modify_entry, above-set_log_accept_any, above-get_log_key,
}
use cs739_p2_replicated_data.Database.{Store, set_kv}
use cs739_p2_replicated_data.Process.{Process, count_incoming}
use cs739_p2_replicated_data.ConsensusRpc.{success}
use cs739_p2_replicated_data.ConsensusRpc.Effects.{
  SameState, success_lem, success_log, pax_log-count_incoming, count_incoming-SameState,
}

pub above-success :
    (n : ℤ) (r : Request) (p : Process)
    → above n (rounds r.key (success false r p).1.pax_log)
      ≡ (if ltb_ℤ n r.round then true else above n (rounds r.key p.pax_log))
unfolding success
above-success n r p =
    let name : String = "ConsensusRPC::success" in
    let logged : (count_incoming name p).pax_log ≡ p.pax_log = pax_log-count_incoming name p in
    ground (
      arith,
      logged,
      above-get_log_key r.key n (success_log r p),
      above-set_log_accept_any r.key n r.round r.pserver_id r.op r.value p.pax_log,
    )

abbrev pub done : Reply Unit
done = record { status = ok; response = tt }

-- A success of the newest round replies OK and stores its value.
pub newest-success :
    (r : Request) (p : Process)
    → str_eq r.key "leader" ≡ false
    → ltb_ℤ r.round int_min ≡ false
    → above r.round (rounds r.key p.pax_log) ≡ false
    → ((success false r p).0 ≡ done)
      × ((success false r p).1.kv_store ≡ set_kv r.key r.value p.kv_store)
newest-success r p named int newest =
    let l = success_lem r p int in
    let same = above-set_log_accept_any r.key r.round r.round r.pserver_id r.op r.value p.pax_log in
    let late : above r.round (rounds r.key (success_log r p)) ≡ false =
      rw (same, ltb_ℤ_irrefl r.round, newest) refl in
    (rw (l.0, late) refl, rw (l.3, late, named) refl)

-- A success with a newer round in the log leaves the store.
pub older-success :
    (r : Request) (p : Process)
    → ltb_ℤ r.round int_min ≡ false
    → above r.round (rounds r.key p.pax_log) ≡ true
    → (success false r p).1.kv_store ≡ p.kv_store
older-success r p int older =
    let l = success_lem r p int in
    let same = above-set_log_accept_any r.key r.round r.round r.pserver_id r.op r.value p.pax_log in
    let late : above r.round (rounds r.key (success_log r p)) ≡ true =
      rw (same, ltb_ℤ_irrefl r.round, older) refl in
    rw (l.3, late) refl

pub lookup-set_kv_self : (k v : String) (kv : Store) → lookup k (set_kv k v kv) ≡ some v
unfolding set_kv
lookup-set_kv_self k v kv = rw (lookup-insert k k v kv, eq_refl k) refl

-- A success for another key.
rounds-success_log :
    (k : String) (r : Request) (p : Process)
    → str_eq r.key k ≡ false
    → rounds k (success_log r p) ≡ rounds k p.pax_log
unfolding set_log_accept
rounds-success_log k r p ne = simp (rounds-modify_entry, ne)

rounds-get_log_key : (k key : String) (log : Log) → rounds k (get_log_key key log).1 ≡ rounds k log
unfolding get_log_key
rounds-get_log_key k key log =
    ground (arith, get_or-modify key k [] [] (λ (m : Rounds). m) log, eq_iff key k)

pub other-success :
    (k : String) (r : Request) (p : Process)
    → str_eq r.key k ≡ false
    → (lookup k (success false r p).1.kv_store ≡ lookup k p.kv_store)
      × (rounds k (success false r p).1.pax_log ≡ rounds k p.pax_log)
unfolding success set_kv
other-success k r p ne =
    let name : String = "ConsensusRPC::success" in
    let logged : (count_incoming name p).pax_log ≡ p.pax_log = pax_log-count_incoming name p in
    let same : SameState p (count_incoming name p) = count_incoming-SameState name p in
    (
      ground (arith, ne, same.kv_store, lookup-insert r.key k r.value p.kv_store),
      ground (
        arith,
        logged,
        rounds-get_log_key k r.key (success_log r p),
        rounds-success_log k r p ne,
      ),
    )
