-- ===== src/Ppp/Fsm.antt =====
-- PPP_FSM of src/pppd/fsm.c.
use fastrg_node.Base.{ℕ, zero, suc, List, Option, none, some}
use fastrg_node.Ppp.{
  Cp, lcp, ipcp, ipv6cp, Ccb, Env, Event, Timer, Status, success, error, M, automaton, set_state,
  set_timer_counter,
}
use fastrg_node.Ppp.Rows.{Row, unknown_state, no_transition, transition, locate, handler_at}
use fastrg_node.Ppp.Lcp.{lcp_tbl}
use fastrg_node.Ppp.Ncp.{ncp_tbl}
use fastrg_node.Ppp.Handlers.{Fsm, run_action}

-- ppp_fsm_tbl
unfoldable pub table : Cp → List Row
unfolding lcp_tbl ncp_tbl
table lcp = lcp_tbl
table ipcp = ncp_tbl
table ipv6cp = ncp_tbl

-- What follows a handler: an error ends the loop.
unfoldable pub continue : M → Option (Status × Ccb) → Option (Status × Ccb)
continue k none = none
continue k (some (error, c)) = some (error, c)
continue k (some (success, c)) = k c

-- The handler loop from position `j` of row `i`. As in the source, each round reads the table of the
-- control protocol that is current by then, which a handler may have changed. `n` is what is left of
-- the ten places for handlers.
unfoldable pub run_handlers : Env → Fsm → Timer → ℕ → ℕ → ℕ → M
unfolding continue run_action set_timer_counter
run_handlers env fsm t zero i j c = some (success, c)
run_handlers env fsm t (suc n) i j c = elim (handler_at (table c.cp_id) i j) [
  | none ↦ some (success, c)
  | some a ↦
      continue (run_handlers env fsm t n i (suc j))
        (run_action env fsm t a (set_timer_counter c.cp_id 10 c))
]

-- PPP_FSM, for handlers that call `fsm`.
unfoldable pub fsm_body : Env → Fsm → Timer → Event → M
unfolding run_handlers handler_at locate table automaton set_state
fsm_body env fsm t event c = elim (locate (table c.cp_id) (automaton c.cp_id c).state event) [
  | unknown_state ↦ some (error, c)
  | no_transition ↦ some (success, c)
  | transition i r ↦ run_handlers env fsm t 10 i 0 (set_state c.cp_id r.next_state c)
]

-- PPP_FSM. The fuel bounds how deep the calls of PPP_FSM by its own handlers nest.
unfoldable pub ppp_fsm : ℕ → Env → Timer → Event → M
unfolding fsm_body
ppp_fsm zero env t event c = none
ppp_fsm (suc fuel) env t event c = fsm_body env (ppp_fsm fuel env) t event c
