-- ===== src/Threads/Agrees.antt =====
-- Processes that show the same, and one access of a thread against a whole handler.
use cs739_p2_replicated_data.Base.{String, refl, sym, ap, ◌∙◌, false, inl, inr, Bool-cases, str_eq}
use cs739_p2_replicated_data.Proto.{Request}
use cs739_p2_replicated_data.Log.{set_log, set_log_accept, get_log_key}
use cs739_p2_replicated_data.Log.Same.{
  SameRounds, SameRounds-trans, SameRounds-sym, set_log-SameRounds, set_log_accept-SameRounds,
  get_log_entry-set_log, set_log_again, set_log_accept_looked, get_log_key-SameRounds,
}
use cs739_p2_replicated_data.Database.{set_kv}
use cs739_p2_replicated_data.Process.{Process, count_incoming}
use cs739_p2_replicated_data.ConsensusRpc.{propose, accept, apply_success}
use cs739_p2_replicated_data.ConsensusRpc.Effects.{
  SameState, count_incoming-SameState, pax_log-count_incoming,
}
use cs739_p2_replicated_data.World.{World, step, steps}
use cs739_p2_replicated_data.World.Laws.{update_self}
use cs739_p2_replicated_data.Threads.{success_apply, events_of}

-- The two processes show the same log, store, leader and members. The counters are left out.
pub record Agrees (p q : Process) : Type 0 where
  pub rounds : SameRounds p.pax_log q.pax_log
  pub state : SameState p q

Agrees-chain : (p q s : Process) → Agrees p q → Agrees q s → Agrees p s
Agrees-chain p q s h g = record {
  rounds = SameRounds-trans p.pax_log q.pax_log s.pax_log h.rounds g.rounds;
  state = record {
    leader = g.state.leader ∙ h.state.leader;
    kv_store = g.state.kv_store ∙ h.state.kv_store;
    member_list = g.state.member_list ∙ h.state.member_list;
  };
}

pub Agrees-count_incoming :
    (n : String) (p q : Process) → Agrees p q → Agrees (count_incoming n p) q
Agrees-count_incoming n p q h =
    let same : SameState p (count_incoming n p) = count_incoming-SameState n p in
    record {
      rounds = rw (pax_log-count_incoming n p) h.rounds;
      state = record {
        leader = h.state.leader ∙ sym same.leader;
        kv_store = h.state.kv_store ∙ sym same.kv_store;
        member_list = h.state.member_list ∙ sym same.member_list;
      };
    }

pub Agrees-count_incoming₂ :
    (n : String) (p q : Process) → Agrees p q → Agrees p (count_incoming n q)
Agrees-count_incoming₂ n p q h =
    let same : SameState q (count_incoming n q) = count_incoming-SameState n q in
    record {
      rounds = rw (pax_log-count_incoming n q) h.rounds;
      state = record {
        leader = same.leader ∙ h.state.leader;
        kv_store = same.kv_store ∙ h.state.kv_store;
        member_list = same.member_list ∙ h.state.member_list;
      };
    }

-- A first look at an entry, against a whole proposal.
pub propose-Agrees :
    (r : Request) (p q : Process)
    → Agrees p q
    → Agrees (record p { pax_log = set_log r.key r.round p.pax_log }) (propose false r q).1
unfolding propose
propose-Agrees r p q h =
    let s : Process = count_incoming "ConsensusRPC::propose" q in
    let g : Agrees p s = Agrees-count_incoming₂ _ p q h in
    let once = set_log-SameRounds r.key r.round p.pax_log s.pax_log g.rounds in
    record {
      rounds = rw (get_log_entry-set_log r.key r.round (set_log r.key r.round s.pax_log)) (
          SameRounds-trans _ _ _ once (SameRounds-sym _ _ (set_log_again r.key r.round s.pax_log)));
      state = record {
        leader = g.state.leader;
        kv_store = g.state.kv_store;
        member_list = g.state.member_list;
      };
    }

-- A write of an acceptance, against a whole acceptance.
pub accept-Agrees :
    (r : Request) (p q : Process)
    → Agrees p q
    → Agrees
        (record p { pax_log = set_log_accept r.key r.round r.pserver_id r.op r.value p.pax_log })
        (accept false r q).1
unfolding accept
accept-Agrees r p q h =
    let s : Process = count_incoming "ConsensusRPC::accept" q in
    let g : Agrees p s = Agrees-count_incoming₂ _ p q h in
    let once =
      set_log_accept-SameRounds r.key r.round r.pserver_id r.op r.value p.pax_log s.pax_log
        g.rounds in
    record {
      rounds = rw (get_log_entry-set_log r.key r.round s.pax_log) (
          SameRounds-trans _ _ _ once (
            SameRounds-sym _ _
              (set_log_accept_looked r.key r.round r.pserver_id r.op r.value s.pax_log)));
      state = record {
        leader = g.state.leader;
        kv_store = g.state.kv_store;
        member_list = g.state.member_list;
      };
    }

pub read_key-Agrees :
    (r : Request) (p q : Process)
    → Agrees p q
    → Agrees (record p { pax_log = (get_log_key r.key p.pax_log).1 }) q
read_key-Agrees r p q h = record {
  rounds = SameRounds-trans _ _ _ (get_log_key-SameRounds r.key p.pax_log) h.rounds;
  state = record {
    leader = h.state.leader;
    kv_store = h.state.kv_store;
    member_list = h.state.member_list;
  };
}

pub apply-Agrees :
    (a : String) (w : World) (r : Request) (p : Process)
    → Agrees p (w a)
    → Agrees (apply_success r p) (steps (events_of a (success_apply r)) w a)
unfolding steps step
apply-Agrees a w r p h = elim (Bool-cases (str_eq r.key "leader")) [
  | inl e ↦
      rw (e, update_self w a _)
        (record {
          rounds = h.rounds;
          state = record {
            leader = refl;
            kv_store = h.state.kv_store;
            member_list = h.state.member_list;
          };
        })
  | inr e ↦
      rw (e, update_self w a _)
        (record {
          rounds = h.rounds;
          state = record {
            leader = h.state.leader;
            kv_store = ap (set_kv r.key r.value) h.state.kv_store;
            member_list = h.state.member_list;
          };
        })
]
