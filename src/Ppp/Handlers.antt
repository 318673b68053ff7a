-- ===== src/Ppp/Handlers.antt =====
-- The handlers of src/pppd/fsm.c, and PPP_bye of src/pppd/pppd.c. A handler that drives an automaton
-- again does so through its argument `fsm`, which stands for PPP_FSM.
use fastrg_node.Base.{
  ℕ, ◌∷◌, ◌+◌, ◌-◌, ◌%◌, true, false, ◌&&◌, ◌||◌, not, none, some, ◌==◌, if◌then◌else◌,
}
use fastrg_node.Ppp.{
  lcp, ipcp, ipv6cp, init, Event, e_up, e_down, e_open, e_close, e_timeout_counter_expired,
  lcp_protocol, ipcp_protocol, ipv6cp_protocol, other_protocol, pap, chap, other_auth, Timer,
  ppp_timer, ipv6cp_timer, send_config_request, send_terminate_request, config_request, config_ack,
  config_nak_rej, terminate_request, terminate_ack, code_reject, echo_reply, padt, pap_request,
  dns_proxy_started, connected_reported, Ccb, Env, Status, success, M, automaton, set_automaton,
  set_state, set_timer_counter, set_pending, emit, timer_set,
}
use fastrg_node.Ppp.Rows.{
  Action, a_create_close_to_lower_layer, a_create_down_event, a_create_up_event,
  a_init_restart_config, a_init_restart_count, a_init_restart_termin, a_send_code_reject,
  a_send_config_ack, a_send_config_nak_rej, a_send_config_request, a_send_echo_reply, a_send_padt,
  a_send_terminate_ack, a_send_terminate_request, a_this_layer_down, a_this_layer_finish,
  a_this_layer_start, a_this_layer_up, a_zero_restart_count,
}
use fastrg_node.Ppp.Session.{
  end_phase, pppoe_phase, lcp_phase, auth_phase, ipcp_phase, data_phase, ipv6_dp_gate_update,
  dhcp6_pd_stop, dhcp6_pd_start, phase_rollback, stop_timers, init_automata, exit_ppp, ipv6cp_stop,
}

-- PPP_FSM, as the handlers call it.
abbrev pub Fsm : Type 0
Fsm = Timer → Event → M

-- A statement whose result the code ignores, and what follows it.
infixr 5 ◌>>◌
abbrev pub ◌>>◌ : M → M → M
◌>>◌ m k c = elim (m c) [ none ↦ none | some (status, c') ↦ k c' ]

abbrev pub return : Status → M
return status c = some (status, c)

abbrev pub update : (Ccb → Ccb) → M
update f c = some (success, f c)

-- The start of PPP_bye.
unfoldable pub bye_start : Ccb → Ccb
unfolding stop_timers dhcp6_pd_stop ipv6_dp_gate_update set_pending
bye_start c =
    let c1 = ipv6_dp_gate_update (record (dhcp6_pd_stop (stop_timers c)) { ipv6cp_up = false }) in
    record (set_pending ipv6cp false c1) { dp_start_bool = false }

-- PPP_bye in END_PHASE.
unfoldable pub bye_end : Env → Ccb → Ccb
unfolding bye_start exit_ppp
bye_end env c = exit_ppp env (record (bye_start c) { ppp_bool = false; ppp_processing = false })

-- The branch of PPP_bye that closes LCP.
unfoldable pub bye_close : Fsm → M
unfolding set_state
bye_close fsm c =
    (fsm ppp_timer e_close >> return success) (
      set_state ipv6cp init (set_state ipcp init (record c { ppp_processing = true; cp_id = lcp })))

-- PPP_bye. In PPPOE_PHASE it calls itself in END_PHASE.
unfoldable pub ppp_bye : Env → Fsm → M
unfolding bye_start bye_end bye_close init_automata exit_ppp
ppp_bye env fsm c =
    if c.phase == end_phase
    then some (success, bye_end env c)
    else if c.phase == pppoe_phase
    then some (success, bye_end env (init_automata (record (bye_start c) { phase = end_phase })))
    else if c.phase == lcp_phase
    then bye_close fsm (bye_start c)
    else if c.phase == data_phase || c.phase == ipcp_phase
    then bye_close fsm (record (bye_start c) { dp_start_bool = false; phase = lcp_phase })
    else some
        (success, exit_ppp env (record (bye_start c) { ppp_bool = false; ppp_processing = false }))

-- A_send_padt, with the PADT case of pppoe_send_pkt.
unfoldable pub send_padt : Env → Fsm → M
unfolding emit ppp_bye
send_padt env fsm c =
    (ppp_bye env fsm >> update (λ c'. record c' { phase = end_phase }))
      (record (emit padt c) { phase = pppoe_phase; pppoe_active = false })

-- A_create_close_to_lower_layer
unfoldable pub create_close_to_lower_layer : Fsm → Timer → M
unfolding ipv6cp_stop phase_rollback
create_close_to_lower_layer fsm t c = elim c.cp_id [
  | ipv6cp ↦ some (success, ipv6cp_stop c)
  | _ ↦
      (fsm t e_close >> return success)
        (record (phase_rollback (record c { cp_id = lcp })) { ppp_alive = false })
]

-- A_this_layer_finish
unfoldable pub this_layer_finish : Fsm → Timer → M
unfolding create_close_to_lower_layer
this_layer_finish fsm t c = elim c.cp_id [
  | ipv6cp ↦ create_close_to_lower_layer fsm t c
  | _ ↦ (fsm t e_down >> return success) c
]

-- The opening of IPV6CP, where IPv6 is enabled.
unfoldable pub open_ipv6 : Fsm → M
open_ipv6 fsm c =
    if c.ipv6_enabled
    then (fsm ipv6cp_timer e_open >> return success) (record c { cp_id = ipv6cp })
    else some (success, c)

-- The opening of the network protocols where neither side authenticates.
unfoldable pub open_network : Fsm → M
unfolding open_ipv6
open_network fsm c =
    (fsm ppp_timer e_open >> open_ipv6 fsm) (record c { cp_id = ipcp; phase = ipcp_phase })

-- build_auth_request_pap and the call of wan_ctrl_tx behind it: the phase changes in any case.
unfoldable pub request_pap : Env → Ccb → Ccb
request_pap env c = record c {
  phase = auth_phase;
  outputs = if env.pap_fits then pap_request ∷ c.outputs else c.outputs;
}

-- lcp_layer_up
unfoldable pub lcp_layer_up : Env → Fsm → M
unfolding request_pap
lcp_layer_up env fsm c =
    let c1 = record c { echo_miss_count = 0; ppp_alive = true } in
    if c1.lcp_auth_rejected && not c1.peer_requires_auth
    then open_network fsm c1
    else elim c1.auth_method [
      | pap ↦ some (success, request_pap env c1)
      | chap ↦ some (success, record c1 { phase = auth_phase })
      | other_auth ↦ some (success, c1)
    ]

-- 8.8.8.8 and 1.1.1.1 stand in for a server that the peer did not assign.
unfoldable pub fallback_dns : ℕ → ℕ → ℕ
fallback_dns fallback dns = if dns == 0xffffffff || dns == 0 then fallback else dns

-- ipcp_layer_up. dns_proxy_init fails for null pointers only, which are not passed here.
unfoldable pub ipcp_layer_up : Ccb → Ccb
unfolding emit fallback_dns
ipcp_layer_up c =
    let c1 = record c { dp_start_bool = true; phase = data_phase } in
    let c2 = record c1 {
      hsi_primary_dns = fallback_dns 0x08080808 c1.hsi_primary_dns;
      hsi_secondary_dns = fallback_dns 0x01010101 c1.hsi_secondary_dns;
    } in
    emit connected_reported (emit (dns_proxy_started c2.hsi_primary_dns c2.hsi_secondary_dns) c2)

-- ipv6cp_layer_up
unfoldable pub ipv6cp_layer_up : Ccb → Ccb
unfolding ipv6_dp_gate_update dhcp6_pd_start
ipv6cp_layer_up c = dhcp6_pd_start (ipv6_dp_gate_update (record c { ipv6cp_up = true }))

-- A_this_layer_up
unfoldable pub this_layer_up : Env → Fsm → M
unfolding lcp_layer_up ipcp_layer_up ipv6cp_layer_up automaton
this_layer_up env fsm c = elim (automaton c.cp_id c).ppp_protocol [
  | lcp_protocol ↦ lcp_layer_up env fsm c
  | ipcp_protocol ↦ some (success, ipcp_layer_up c)
  | ipv6cp_protocol ↦ some (success, ipv6cp_layer_up c)
  | other_protocol ↦ some (success, c)
]

-- What leaving the opened LCP state does to the network protocols.
unfoldable pub lcp_down : Ccb → Ccb
unfolding set_state set_pending dhcp6_pd_stop ipv6_dp_gate_update
lcp_down c =
    let c1 = set_state ipv6cp init (set_state ipcp init (record c { dp_start_bool = false })) in
    let c2 = dhcp6_pd_stop (set_pending ipv6cp false c1) in
    record (ipv6_dp_gate_update (record c2 { ipv6cp_up = false })) { ppp_ipv6cp = none }

-- A_this_layer_down
unfoldable pub this_layer_down : Fsm → Timer → M
unfolding lcp_down dhcp6_pd_stop ipv6_dp_gate_update
this_layer_down fsm t c = elim c.cp_id [
  | ipv6cp ↦
      (fsm t e_close >> return success)
        (ipv6_dp_gate_update (record (dhcp6_pd_stop c) { ipv6cp_up = false }))
  | ipcp ↦ (fsm t e_close >> update (λ c'. record c' { dp_start_bool = false })) c
  | lcp ↦ (fsm t e_close >> return success) (lcp_down c)
]

-- A_init_restart_config and A_init_restart_termin: nine more rounds, one every three seconds.
unfoldable pub init_restart_config : Timer → Ccb → Ccb
unfolding set_timer_counter timer_set
init_restart_config t c =
    timer_set t (some (send_config_request c.cp_id)) (set_timer_counter c.cp_id 9 c)

unfoldable pub init_restart_termin : Timer → Ccb → Ccb
unfolding set_timer_counter timer_set
init_restart_termin t c =
    timer_set t (some (send_terminate_request c.cp_id)) (set_timer_counter c.cp_id 9 c)

-- build_config_request, as far as it changes the control block, and the sending of the frame.
unfoldable pub transmit_config_request : Ccb → Ccb
unfolding automaton set_automaton emit
transmit_config_request c =
    let a = automaton c.cp_id c in
    let id = a.identifier % 255 + 1 in
    emit (config_request c.cp_id id)
      (set_automaton c.cp_id (record a { identifier = id; config_request_pending = true }) c)

-- One round of a retransmission: past the last one the automaton is told, before it the frame is
-- sent and the counter falls.
unfoldable pub retransmit : (Ccb → Ccb) → Fsm → Timer → M
unfolding automaton set_timer_counter timer_set
retransmit transmit fsm t c =
    if (automaton c.cp_id c).timer_counter == 0
    then (fsm t e_timeout_counter_expired >> return success) (timer_set t none c)
    else (let c1 = transmit c in
        some (success, set_timer_counter c1.cp_id ((automaton c1.cp_id c1).timer_counter - 1) c1))

-- A_send_config_request
unfoldable pub a_config_request : Fsm → Timer → M
unfolding retransmit transmit_config_request
a_config_request fsm t c = retransmit transmit_config_request fsm t c

-- A_send_terminate_request
unfoldable pub a_terminate_request : Fsm → Timer → M
unfolding retransmit emit
a_terminate_request fsm t c = retransmit (λ c'. emit (terminate_request c'.cp_id) c') fsm t c

-- A_send_code_reject, which returns FALSE where the frame cannot be built.
unfoldable pub a_code_reject : Env → M
unfolding emit
a_code_reject env c =
    if env.reject_builds
    then some (success, emit (code_reject c.cp_id) c)
    else some (env.false_status, c)

-- The call of a handler of the table.
unfoldable pub run_action : Env → Fsm → Timer → Action → M
unfolding this_layer_finish open_network this_layer_up this_layer_down send_padt
    create_close_to_lower_layer a_config_request a_terminate_request a_code_reject
    init_restart_config init_restart_termin emit
run_action env fsm t a_this_layer_start c = (fsm t e_up >> return success) c
run_action env fsm t a_this_layer_finish c = this_layer_finish fsm t c
run_action env fsm t a_this_layer_up c = this_layer_up env fsm c
run_action env fsm t a_this_layer_down c = this_layer_down fsm t c
run_action env fsm t a_send_config_request c = a_config_request fsm t c
run_action env fsm t a_send_config_ack c = some (success, emit (config_ack c.cp_id) c)
run_action env fsm t a_send_config_nak_rej c = some (success, emit (config_nak_rej c.cp_id) c)
run_action env fsm t a_send_terminate_request c = a_terminate_request fsm t c
run_action env fsm t a_send_terminate_ack c = some (success, emit (terminate_ack c.cp_id) c)
run_action env fsm t a_send_code_reject c = a_code_reject env c
run_action env fsm t a_send_echo_reply c = some (success, emit (echo_reply c.cp_id) c)
run_action env fsm t a_send_padt c = send_padt env fsm c
run_action env fsm t a_create_up_event c = some (success, c)
run_action env fsm t a_create_down_event c = (fsm t e_down >> return success) c
run_action env fsm t a_create_close_to_lower_layer c = create_close_to_lower_layer fsm t c
run_action env fsm t a_init_restart_count c = some (success, c)
run_action env fsm t a_init_restart_config c = some (success, init_restart_config t c)
run_action env fsm t a_init_restart_termin c = some (success, init_restart_termin t c)
run_action env fsm t a_zero_restart_count c = some (success, c)
