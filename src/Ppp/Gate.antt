-- ===== src/Ppp/Gate.antt =====
-- The gate of the IPv6 data plane under the handlers of src/pppd/fsm.c and PPP_bye.
use fastrg_node.Base.{
  ℕ, zero, suc, ◌-◌, ◌≡◌, refl, Bool, true, false, ◌&&◌, ◌||◌, not, Option, none, some, arith, ◌==◌,
  if◌then◌else◌, Bool-cases, inl, inr,
}
use fastrg_node.Ppp.{
  Cp, lcp, ipcp, ipv6cp, Ccb, Env, Event, Timer, ppp_timer, ipv6cp_timer, Status, success, error, M,
  State, Automaton, Auth, automaton, set_automaton, set_state, set_timer_counter, set_pending, emit,
  timer_set, padt, init, Output, Callback, lcp_protocol, ipcp_protocol, ipv6cp_protocol,
  other_protocol, pap, chap, other_auth, e_close, e_down, e_open, e_up, e_timeout_counter_expired,
}
use fastrg_node.Ppp.Rows.{
  Action, handler_at, locate, Lookup, unknown_state, no_transition, transition,
  a_create_close_to_lower_layer, a_create_down_event, a_create_up_event, a_init_restart_config,
  a_init_restart_count, a_init_restart_termin, a_send_code_reject, a_send_config_ack,
  a_send_config_nak_rej, a_send_config_request, a_send_echo_reply, a_send_padt,
  a_send_terminate_ack, a_send_terminate_request, a_this_layer_down, a_this_layer_finish,
  a_this_layer_start, a_this_layer_up, a_zero_restart_count,
}
use fastrg_node.Ppp.Session.{
  lcp_phase, end_phase, pppoe_phase, ipcp_phase, phase_rollback, ipv6_dp_gate_update, dhcp6_pd_stop,
  dhcp6_pd_start, exit_ppp, ipv6cp_stop, init_automata, stop_timers,
}
use fastrg_node.Ppp.Handlers.{
  Fsm, run_action, ppp_bye, bye_start, bye_end, bye_close, send_padt, this_layer_up,
  this_layer_down, this_layer_finish, create_close_to_lower_layer, open_network, open_ipv6,
  lcp_layer_up, ipcp_layer_up, ipv6cp_layer_up, lcp_down, a_config_request, a_terminate_request,
  a_code_reject, init_restart_config, init_restart_termin, retransmit, transmit_config_request,
  request_pap, ◌>>◌, return, update,
}
use fastrg_node.Ppp.Fsm.{ppp_fsm, fsm_body, run_handlers, continue, table}
pub mod Run

-- The gate is open exactly where IPv6 is enabled, IPV6CP is up and a prefix is delegated.
abbrev pub GateFits : Ccb → Type 0
GateFits c = c.ipv6_dp_bool ≡ (c.ipv6_enabled && c.ipv6cp_up && c.dhcp6_pd_ready)

-- The outcome of a computation keeps the gate fitting, where there is one.
abbrev pub After : Option (Status × Ccb) → Type 0
After none = Unit {0}
After (some (s, c)) = GateFits c

abbrev pub Keeps : M → Type 0
Keeps m = (c : Ccb) → GateFits c → After (m c)

Keeps-seq : (m k : M) (c : Ccb) → After (m c) → Keeps k → After ((m >> k) c)
Keeps-seq m k c h hk = seq (m c) h
  where
    seq :
        (r : Option (Status × Ccb)) → After r → After (elim r [ none ↦ none | some (s, c') ↦ k c' ])
    seq none h' = tt
    seq (some (s, c')) h' = hk c' h'

pub gate_update-GateFits : (c : Ccb) → GateFits (ipv6_dp_gate_update c)
unfolding ipv6_dp_gate_update
gate_update-GateFits c = ground arith

dhcp6_pd_stop-GateFits : (c : Ccb) → GateFits (dhcp6_pd_stop c)
unfolding dhcp6_pd_stop
dhcp6_pd_stop-GateFits c = ground arith

pub dhcp6_pd_start-GateFits : (c : Ccb) → GateFits c → GateFits (dhcp6_pd_start c)
unfolding dhcp6_pd_start
dhcp6_pd_start-GateFits c h = ground arith

pub set_automaton-GateFits :
    (cp : Cp) (a : Automaton) (c : Ccb) → GateFits c → GateFits (set_automaton cp a c)
unfolding set_automaton
set_automaton-GateFits lcp a c h = h
set_automaton-GateFits ipcp a c h = h
set_automaton-GateFits ipv6cp a c h = h

exit_ppp-GateFits : (env : Env) (c : Ccb) → GateFits (exit_ppp env c)
unfolding exit_ppp
exit_ppp-GateFits env c = ground arith

bye_start-GateFits : (c : Ccb) → GateFits (bye_start c)
unfolding bye_start
bye_start-GateFits c = ground arith

lcp_down-GateFits : (c : Ccb) → GateFits (lcp_down c)
unfolding lcp_down
lcp_down-GateFits c = ground arith

ipv6cp_stop-GateFits : (c : Ccb) → GateFits (ipv6cp_stop c)
unfolding ipv6cp_stop
ipv6cp_stop-GateFits c = ground arith

module _ (env : Env) (fsm : Fsm) (keeps : (t : Timer) (e : Event) → Keeps (fsm t e)) where
  pub ignoring :
      (t : Timer) (e : Event) (c : Ccb) → GateFits c → After ((fsm t e >> return success) c)
  ignoring t e c h = Keeps-seq (fsm t e) (return success) c (keeps t e c h) (λ c' h'. h')

  bye_close-GateFits : (c : Ccb) → GateFits c → After (bye_close fsm c)
  unfolding bye_close set_state set_automaton automaton
  bye_close-GateFits c h =
      ignoring ppp_timer e_close
        (set_state ipv6cp init
          (set_state ipcp init (record c { ppp_processing = true; cp_id = lcp })))
        h

  pub ppp_bye-GateFits : Keeps (ppp_bye env fsm)
  unfolding ppp_bye
  ppp_bye-GateFits c h =
      let c1 = bye_start c in
      let h1 = bye_start-GateFits c in
      let ending = λ (c' : Ccb).
        exit_ppp-GateFits env
          (record (bye_start c') { ppp_bool = false; ppp_processing = false }) in
      ground (
        arith,
        ending c,
        ending (init_automata (record c1 { phase = end_phase })),
        bye_close-GateFits c1 h1,
        bye_close-GateFits (record c1 { dp_start_bool = false; phase = lcp_phase }) h1,
      )

  pub send_padt-GateFits : Keeps (send_padt env fsm)
  unfolding send_padt emit
  send_padt-GateFits c h =
      Keeps-seq (ppp_bye env fsm) (update (λ c'. record c' { phase = end_phase }))
        (record (emit padt c) { phase = pppoe_phase; pppoe_active = false })
        (ppp_bye-GateFits (record (emit padt c) { phase = pppoe_phase; pppoe_active = false }) h)
        (λ c' h'. h')

  closing-GateFits :
      (t : Timer) (c : Ccb)
      → GateFits c
      → After (
          (fsm t e_close >> return success)
            (record (phase_rollback (record c { cp_id = lcp })) { ppp_alive = false }))
  unfolding phase_rollback
  closing-GateFits t c h =
      ignoring t e_close (record (phase_rollback (record c { cp_id = lcp })) { ppp_alive = false })
        h

  pub create_close-GateFits :
      (cp : Cp) (t : Timer) (c : Ccb)
      → GateFits c
      → After (create_close_to_lower_layer fsm t (record c { cp_id = cp }))
  unfolding create_close_to_lower_layer phase_rollback
  create_close-GateFits ipv6cp t c h = ipv6cp_stop-GateFits (record c { cp_id = ipv6cp })
  create_close-GateFits lcp t c h = closing-GateFits t c h
  create_close-GateFits ipcp t c h = closing-GateFits t c h

  pub this_layer_finish-GateFits :
      (cp : Cp) (t : Timer) (c : Ccb)
      → GateFits c
      → After (this_layer_finish fsm t (record c { cp_id = cp }))
  unfolding this_layer_finish
  this_layer_finish-GateFits ipv6cp t c h = create_close-GateFits ipv6cp t c h
  this_layer_finish-GateFits lcp t c h = ignoring t e_down (record c { cp_id = lcp }) h
  this_layer_finish-GateFits ipcp t c h = ignoring t e_down (record c { cp_id = ipcp }) h

  pub this_layer_down-GateFits :
      (cp : Cp) (t : Timer) (c : Ccb)
      → GateFits c
      → After (this_layer_down fsm t (record c { cp_id = cp }))
  unfolding this_layer_down
  this_layer_down-GateFits ipv6cp t c h =
      let c1 = record (dhcp6_pd_stop (record c { cp_id = ipv6cp })) { ipv6cp_up = false } in
      ignoring t e_close (ipv6_dp_gate_update c1) (gate_update-GateFits c1)
  this_layer_down-GateFits lcp t c h =
      let c1 = record c { cp_id = lcp } in ignoring t e_close (lcp_down c1) (lcp_down-GateFits c1)
  this_layer_down-GateFits ipcp t c h =
      Keeps-seq (fsm t e_close) (update (λ c'. record c' { dp_start_bool = false }))
        (record c { cp_id = ipcp }) (keeps t e_close (record c { cp_id = ipcp }) h) (λ c' h'. h')

  open_ipv6-GateFits : Keeps (open_ipv6 fsm)
  unfolding open_ipv6
  open_ipv6-GateFits c h =
      ground (arith, ignoring ipv6cp_timer e_open (record c { cp_id = ipv6cp }) h)

  pub open_network-GateFits : Keeps (open_network fsm)
  unfolding open_network
  open_network-GateFits c h =
      Keeps-seq (fsm ppp_timer e_open) (open_ipv6 fsm)
        (record c { cp_id = ipcp; phase = ipcp_phase })
        (keeps ppp_timer e_open (record c { cp_id = ipcp; phase = ipcp_phase }) h)
        open_ipv6-GateFits

  pub lcp_layer_up-GateFits : Keeps (lcp_layer_up env fsm)
  unfolding lcp_layer_up
  lcp_layer_up-GateFits c h =
      ground (arith, open_network-GateFits (record c { echo_miss_count = 0; ppp_alive = true }) h)

  pub retransmit-GateFits :
      (transmit : Ccb → Ccb)
      → ((c : Ccb) → GateFits c → GateFits (transmit c))
      → (t : Timer) → Keeps (retransmit transmit fsm t)
  unfolding retransmit
  retransmit-GateFits transmit kt t c h =
      let c1 = transmit c in
      ground (
        arith,
        ignoring t e_timeout_counter_expired (timer_set t none c) h,
        set_automaton-GateFits c1.cp_id
            (record (automaton c1.cp_id c1) {
              timer_counter = (automaton c1.cp_id c1).timer_counter - 1;
            })
            c1 (kt c h),
      )
