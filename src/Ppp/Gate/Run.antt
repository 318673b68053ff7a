-- ===== src/Ppp/Gate/Run.antt =====
-- The gate of the IPv6 data plane under PPP_FSM of src/pppd/fsm.c: every handler of the tables, the
-- handler loop and the nested calls.
use fastrg_node.Base.{ℕ, zero, suc, true, Option, none, some, arith}
use fastrg_node.Ppp.{
  Cp, Ccb, Env, Event, Timer, Status, success, error, M, State, automaton, set_state,
  set_timer_counter, emit, timer_set, terminate_request, e_down, e_up,
}
use fastrg_node.Ppp.Rows.{
  Action, handler_at, locate, Lookup, unknown_state, no_transition, transition,
  a_create_close_to_lower_layer, a_create_down_event, a_create_up_event, a_init_restart_config,
  a_init_restart_count, a_init_restart_termin, a_send_code_reject, a_send_config_ack,
  a_send_config_nak_rej, a_send_config_request, a_send_echo_reply, a_send_padt,
  a_send_terminate_ack, a_send_terminate_request, a_this_layer_down, a_this_layer_finish,
  a_this_layer_start, a_this_layer_up, a_zero_restart_count,
}
use fastrg_node.Ppp.Session.{ipv6_dp_gate_update}
use fastrg_node.Ppp.Handlers.{
  Fsm, run_action, this_layer_up, ipcp_layer_up, ipv6cp_layer_up, a_config_request,
  a_terminate_request, a_code_reject, init_restart_config, init_restart_termin,
  transmit_config_request,
}
use fastrg_node.Ppp.Fsm.{ppp_fsm, fsm_body, run_handlers, continue, table}
use fastrg_node.Ppp.Gate.{
  GateFits, After, Keeps, ignoring, send_padt-GateFits, create_close-GateFits,
  this_layer_finish-GateFits, this_layer_down-GateFits, lcp_layer_up-GateFits, retransmit-GateFits,
  set_automaton-GateFits, gate_update-GateFits, dhcp6_pd_start-GateFits,
}

set_timer_counter-GateFits :
    (cp : Cp) (n : ℕ) (c : Ccb) → GateFits c → GateFits (set_timer_counter cp n c)
unfolding set_timer_counter
set_timer_counter-GateFits cp n c h = set_automaton-GateFits cp _ c h

set_state-GateFits : (cp : Cp) (s : State) (c : Ccb) → GateFits c → GateFits (set_state cp s c)
unfolding set_state
set_state-GateFits cp s c h = set_automaton-GateFits cp _ c h

transmit-GateFits : (c : Ccb) → GateFits c → GateFits (transmit_config_request c)
unfolding transmit_config_request emit
transmit-GateFits c h = set_automaton-GateFits c.cp_id _ c h

module _ (env : Env) (fsm : Fsm) (keeps : (t : Timer) (e : Event) → Keeps (fsm t e)) where
  this_layer_up-GateFits : Keeps (this_layer_up env fsm)
  unfolding this_layer_up ipcp_layer_up ipv6cp_layer_up emit
  this_layer_up-GateFits c h = ground (
    arith,
    lcp_layer_up-GateFits env fsm keeps c h,
    dhcp6_pd_start-GateFits (ipv6_dp_gate_update (record c { ipv6cp_up = true }))
        (gate_update-GateFits (record c { ipv6cp_up = true })),
  )

  run_action-GateFits : (t : Timer) (a : Action) → Keeps (run_action env fsm t a)
  unfolding run_action a_config_request a_terminate_request a_code_reject init_restart_config
      init_restart_termin emit timer_set
  run_action-GateFits t a_this_layer_start c h = ignoring env fsm keeps t e_up c h
  run_action-GateFits t a_this_layer_finish c h =
      this_layer_finish-GateFits env fsm keeps c.cp_id t c h
  run_action-GateFits t a_this_layer_up c h = this_layer_up-GateFits c h
  run_action-GateFits t a_this_layer_down c h = this_layer_down-GateFits env fsm keeps c.cp_id t c h
  run_action-GateFits t a_send_config_request c h =
      retransmit-GateFits env fsm keeps transmit_config_request transmit-GateFits t c h
  run_action-GateFits t a_send_config_ack c h = h
  run_action-GateFits t a_send_config_nak_rej c h = h
  run_action-GateFits t a_send_terminate_request c h =
      retransmit-GateFits env fsm keeps (λ c'. emit (terminate_request c'.cp_id) c') (λ c' h'. h') t
        c h
  run_action-GateFits t a_send_terminate_ack c h = h
  run_action-GateFits t a_send_code_reject c h = ground arith
  run_action-GateFits t a_send_echo_reply c h = h
  run_action-GateFits t a_send_padt c h = send_padt-GateFits env fsm keeps c h
  run_action-GateFits t a_create_up_event c h = h
  run_action-GateFits t a_create_down_event c h = ignoring env fsm keeps t e_down c h
  run_action-GateFits t a_create_close_to_lower_layer c h =
      create_close-GateFits env fsm keeps c.cp_id t c h
  run_action-GateFits t a_init_restart_count c h = h
  run_action-GateFits t a_init_restart_config c h = set_timer_counter-GateFits c.cp_id 9 c h
  run_action-GateFits t a_init_restart_termin c h = set_timer_counter-GateFits c.cp_id 9 c h
  run_action-GateFits t a_zero_restart_count c h = h

  continue-GateFits :
      (k : M) → Keeps k → (r : Option (Status × Ccb)) → After r → After (continue k r)
  unfolding continue
  continue-GateFits k hk none h = tt
  continue-GateFits k hk (some (error, c)) h = h
  continue-GateFits k hk (some (success, c)) h = hk c h

  handler_step-GateFits :
      (t : Timer) (k : M) (c : Ccb)
      → Keeps k
      → GateFits c
      → (o : Option Action)
      → After (elim o [
        | none ↦ some (success, c)
        | some a ↦ continue k (run_action env fsm t a (set_timer_counter c.cp_id 10 c))
      ])
  handler_step-GateFits t k c hk h none = h
  handler_step-GateFits t k c hk h (some a) =
      let c1 = set_timer_counter c.cp_id 10 c in
      continue-GateFits k hk (run_action env fsm t a c1)
        (run_action-GateFits t a c1 (set_timer_counter-GateFits c.cp_id 10 c h))

  run_handlers-GateFits : (t : Timer) (n i j : ℕ) → Keeps (run_handlers env fsm t n i j)
  unfolding run_handlers
  run_handlers-GateFits t zero i j c h = h
  run_handlers-GateFits t (suc n) i j c h =
      handler_step-GateFits t (run_handlers env fsm t n i (suc j)) c
        (run_handlers-GateFits t n i (suc j)) h (handler_at (table c.cp_id) i j)

  fsm_body-GateFits : (t : Timer) (e : Event) → Keeps (fsm_body env fsm t e)
  unfolding fsm_body
  fsm_body-GateFits t e c h = by_row (locate (table c.cp_id) (automaton c.cp_id c).state e)
    where
      by_row :
          (l : Lookup)
          → After (elim l [
            | unknown_state ↦ some (error, c)
            | no_transition ↦ some (success, c)
            | transition i r ↦ run_handlers env fsm t 10 i 0 (set_state c.cp_id r.next_state c)
          ])
      by_row unknown_state = h
      by_row no_transition = h
      by_row (transition i r) =
          run_handlers-GateFits t 10 i 0 (set_state c.cp_id r.next_state c)
            (set_state-GateFits c.cp_id r.next_state c h)

-- Whatever event reaches PPP_FSM in whatever state, with whatever its handlers call in turn: where
-- the gate of the IPv6 data plane was open exactly when IPv6 is enabled, IPV6CP is up and a prefix
-- is delegated, the same holds of the control block it leaves, on success and on error.
pub ppp_fsm-GateFits :
    (fuel : ℕ) (env : Env) (t : Timer) (e : Event) (c : Ccb)
    → GateFits c
    → After (ppp_fsm fuel env t e c)
unfolding ppp_fsm
ppp_fsm-GateFits zero env t e c h = tt
ppp_fsm-GateFits (suc fuel) env t e c h =
    fsm_body-GateFits env (ppp_fsm fuel env) (λ t' e'. ppp_fsm-GateFits fuel env t' e') t e c h
