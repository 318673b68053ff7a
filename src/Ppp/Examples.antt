-- ===== src/Ppp/Examples.antt =====
-- Runs of the PPP model at fixed inputs.
use fastrg_node.Base.{◌≡◌, refl, true, false, none, some, arith, [], ◌∷◌, ◌⊎◌, inl, inr, ◌||◌}
use fastrg_node.Ppp.{
  ipv6cp, lcp, ipcp, State, opened, request_sent, ack_sent, closing, e_down, e_recv_terminate_ack,
  e_recv_config_ack, e_recv_good_config_request, Automaton, Protocol, lcp_protocol, ipcp_protocol,
  ipv6cp_protocol, pap, dhcp6_bound, ppp_timer, Ccb, Env, Status, error, send_terminate_request,
}
use fastrg_node.Ppp.Rows.{locate}
use fastrg_node.Ppp.Lcp.{lcp_tbl}
use fastrg_node.Ppp.Session.{end_phase, data_phase}
use fastrg_node.Ppp.Handlers.{ppp_bye}
use fastrg_node.Ppp.Fsm.{ppp_fsm}
use fastrg_node.Ppp.Total.{ppp_fsm-total}
use fastrg_node.Ppp.Gate.{After}
use fastrg_node.Ppp.Gate.Run.{ppp_fsm-GateFits}
use fastrg_node.Ppp.Ended.{IsEnded, Yields, ppp_bye-IsEnded}
use fastrg_node.Ppp.Hangup.{rounds, hangup_ends}
use fastrg_node.Ppp.Negotiation.{IsAuthenticating, lcp_negotiation}
use fastrg_node.Ppp.Opened.{
  IsDown, announces, IsConnected, receive_all, ppp_fsm-IsDown, renegotiation_closes,
  ipcp_negotiation,
}

abbrev env : Env
env = record { pap_fits = true; reject_builds = true; false_status = error; max_recv_unit = 1492 }

abbrev automaton_in : State → Protocol → Automaton
automaton_in s p = record {
  state = s;
  timer_counter = 10;
  ppp_protocol = p;
  identifier = 7;
  config_request_pending = false;
}

-- A session in DATA_PHASE with every control protocol open and a delegated prefix.
abbrev online : Ccb
online = record {
  cp_id = lcp;
  lcp_cp = automaton_in opened lcp_protocol;
  ipcp_cp = automaton_in opened ipcp_protocol;
  ipv6cp_cp = automaton_in opened ipv6cp_protocol;
  phase = data_phase;
  session_id = 17;
  hsi_ipv4 = 0x0a000002;
  hsi_ipv4_gw = 0x0a000001;
  hsi_primary_dns = 0x08080808;
  hsi_secondary_dns = 0x01010101;
  mru = 1492;
  lcp_auth_rejected = false;
  lcp_mru_rejected = false;
  lcp_magic_rejected = false;
  peer_requires_auth = true;
  auth_method = pap;
  echo_miss_count = 0;
  ppp_bool = true;
  dp_start_bool = true;
  redial_pending = false;
  ppp_processing = false;
  pppoe_active = true;
  ipv6_enabled = true;
  ipv6cp_up = true;
  dhcp6_pd_ready = true;
  ipv6_dp_bool = true;
  dhcp6_state = dhcp6_bound;
  ppp = none;
  ppp_ipv6cp = none;
  ppp_alive = true;
  pppoe = false;
  dhcp6_timer = true;
  ra_timer = true;
  outputs = [];
}

-- The same session before the peer has answered the request of IPCP.
abbrev negotiating : Ccb
negotiating = record online {
  cp_id = ipcp;
  ipcp_cp = automaton_in request_sent ipcp_protocol;
  dp_start_bool = false;
}

renegotiates :
    (announces request_sent (locate lcp_tbl opened e_recv_good_config_request)
      || announces ack_sent (locate lcp_tbl opened e_recv_good_config_request))
    ≡ true
unfolding locate lcp_tbl
renegotiates = refl

ppp_fsm-total_example : (r : Status × Ccb) × (ppp_fsm 5 env ppp_timer e_down online ≡ some r)
ppp_fsm-total_example = ppp_fsm-total 5 env ppp_timer e_down online (omega arith)

ppp_fsm-GateFits_example : After (ppp_fsm 5 env ppp_timer e_down online)
ppp_fsm-GateFits_example = ppp_fsm-GateFits 5 env ppp_timer e_down online refl

hangup_ends_example :
    Yields
      (λ c'.
        (c'.ppp ≡ some (send_terminate_request lcp))
        × Yields (IsEnded env) (ppp_fsm 5 env ppp_timer e_recv_terminate_ack c')
        × Yields
            (IsEnded env)
            (rounds 10 (send_terminate_request lcp) (ppp_fsm 5 env) ppp_timer c'))
      (ppp_bye env (ppp_fsm 5 env) online)
hangup_ends_example = hangup_ends 5 env online (omega arith) refl (inr (inr refl))

ppp_bye-IsEnded_example :
    Yields (IsEnded env) (ppp_bye env (ppp_fsm 5 env) (record online { phase = end_phase }))
ppp_bye-IsEnded_example =
    ppp_bye-IsEnded env (ppp_fsm 5 env) (record online { phase = end_phase }) (inl refl)

ppp_fsm-IsDown_example :
    Yields (λ c'. (c'.lcp_cp.state ≡ opened) ⊎ IsDown c') (ppp_fsm 5 env ppp_timer e_down online)
ppp_fsm-IsDown_example = ppp_fsm-IsDown 5 env ppp_timer e_down online (omega arith) refl refl

renegotiation_closes_example :
    Yields
      (λ c'. c'.lcp_cp.state ≡ closing)
      (ppp_fsm 5 env ppp_timer e_recv_good_config_request online)
renegotiation_closes_example =
    renegotiation_closes 5 env ppp_timer e_recv_good_config_request online (omega arith) refl refl
      renegotiates

ipcp_negotiation_example :
    Yields IsConnected (
      receive_all 5 env ppp_timer (e_recv_config_ack ∷ e_recv_good_config_request ∷ []) negotiating)
    × Yields IsConnected (
        receive_all 5 env ppp_timer
          (e_recv_good_config_request ∷ e_recv_config_ack ∷ [])
          negotiating)
ipcp_negotiation_example = ipcp_negotiation 5 env ppp_timer negotiating (omega arith) refl refl refl

-- The session before LCP, and before IPV6CP, has been answered.
abbrev dialing : Ccb
dialing = record online { lcp_cp = automaton_in request_sent lcp_protocol; dp_start_bool = false }

abbrev opening_ipv6 : Ccb
opening_ipv6 = record online {
  cp_id = ipv6cp;
  ipv6cp_cp = automaton_in request_sent ipv6cp_protocol;
}

lcp_negotiation_example :
    Yields IsAuthenticating
      (receive_all 5 env ppp_timer (e_recv_config_ack ∷ e_recv_good_config_request ∷ []) dialing)
    × Yields IsAuthenticating
        (receive_all 5 env ppp_timer (e_recv_good_config_request ∷ e_recv_config_ack ∷ []) dialing)
lcp_negotiation_example =
    lcp_negotiation 5 env ppp_timer dialing (omega arith) refl refl refl refl refl
