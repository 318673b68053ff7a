-- ===== src/Ppp/Session.antt =====
-- What the handlers of src/pppd/fsm.c do to the session as a whole: the gate of the IPv6 data plane
-- (src/pppd/pppd.c), starting and stopping prefix delegation (src/dhcpd6/dhcpd6.c), rolling the
-- phase back (src/pppd/fsm.c) and ending the session (exit_ppp of src/pppd/pppd.c).
use fastrg_node.Base.{ℕ, ◌-◌, true, false, ◌&&◌, not, ◌||◌, none, ◌∷◌, leb, if◌then◌else◌}
use fastrg_node.Ppp.{
  lcp, ipcp, ipv6cp, init, stopped, Ccb, Env, dhcp6_idle, dhcp6_soliciting, dhcp6_solicit,
  disconnected_reported, redial_requested, set_state, set_pending, emit,
}

-- END_PHASE to DATA_PHASE.
abbrev pub end_phase : ℕ
end_phase = 0

abbrev pub pppoe_phase : ℕ
pppoe_phase = 1

abbrev pub lcp_phase : ℕ
lcp_phase = 2

abbrev pub auth_phase : ℕ
auth_phase = 3

abbrev pub ipcp_phase : ℕ
ipcp_phase = 4

abbrev pub data_phase : ℕ
data_phase = 5

-- pppd_ipv6_dp_gate_update
unfoldable pub ipv6_dp_gate_update : Ccb → Ccb
ipv6_dp_gate_update c = record c {
  ipv6_dp_bool = if c.ipv6_enabled && c.ipv6cp_up && c.dhcp6_pd_ready then true else false;
}

-- dhcp6_clear_lease, as far as its fields are modelled.
unfoldable pub dhcp6_clear_lease : Ccb → Ccb
unfolding ipv6_dp_gate_update
dhcp6_clear_lease c = ipv6_dp_gate_update (record c { dhcp6_pd_ready = false })

-- dhcp6_pd_stop, with nd6_ra_stop.
unfoldable pub dhcp6_pd_stop : Ccb → Ccb
unfolding dhcp6_clear_lease
dhcp6_pd_stop c = record (dhcp6_clear_lease (record c { ra_timer = false; dhcp6_timer = false })) {
  dhcp6_state = dhcp6_idle;
}

-- dhcp6_pd_start, past its first test.
unfoldable pub dhcp6_solicit_start : Ccb → Ccb
unfolding dhcp6_pd_stop emit
dhcp6_solicit_start c =
    record (emit dhcp6_solicit (record (dhcp6_pd_stop c) { dhcp6_state = dhcp6_soliciting })) {
      dhcp6_timer = true;
    }

-- dhcp6_pd_start: each field that it can change is as in `dhcp6_solicit_start`, or as it was where
-- IPv6 is off or IPV6CP is down.
unfoldable pub dhcp6_pd_start : Ccb → Ccb
unfolding dhcp6_solicit_start
dhcp6_pd_start c =
    let idle = not c.ipv6_enabled || not c.ipv6cp_up in
    let d = dhcp6_solicit_start c in
    record c {
      dhcp6_pd_ready = if idle then c.dhcp6_pd_ready else d.dhcp6_pd_ready;
      ipv6_dp_bool = if idle then c.ipv6_dp_bool else d.ipv6_dp_bool;
      dhcp6_state = if idle then c.dhcp6_state else d.dhcp6_state;
      dhcp6_timer = if idle then c.dhcp6_timer else d.dhcp6_timer;
      ra_timer = if idle then c.ra_timer else d.ra_timer;
      outputs = if idle then c.outputs else d.outputs;
    }

-- ppp_phase_rollback
unfoldable pub phase_rollback : Ccb → Ccb
phase_rollback c = record c { phase = if leb lcp_phase c.phase then c.phase - 2 else end_phase }

-- The stopping of every timer, as PPP_bye and exit_ppp begin.
unfoldable pub stop_timers : Ccb → Ccb
stop_timers c = record c {
  ppp = none;
  ppp_ipv6cp = none;
  dhcp6_timer = false;
  ra_timer = false;
  pppoe = false;
  ppp_alive = false;
}

-- The three automata back in S_INIT.
unfoldable pub init_automata : Ccb → Ccb
unfolding set_state
init_automata c = set_state ipv6cp init (set_state ipcp init (set_state lcp init c))

-- The deferred connect at the end of exit_ppp.
unfoldable pub honour_redial : Ccb → Ccb
honour_redial c = record c {
  redial_pending = false;
  outputs = if c.redial_pending then redial_requested ∷ c.outputs else c.outputs;
}

-- exit_ppp
unfoldable pub exit_ppp : Env → Ccb → Ccb
unfolding stop_timers dhcp6_pd_stop init_automata set_pending ipv6_dp_gate_update emit honour_redial
exit_ppp env c =
    let c1 = dhcp6_pd_stop (stop_timers (record c { ppp_bool = false; dp_start_bool = false })) in
    let c2 = set_pending ipv6cp false (init_automata (record c1 { phase = end_phase })) in
    let c3 = ipv6_dp_gate_update (record c2 { ipv6cp_up = false }) in
    let c4 = record c3 {
      pppoe_active = false;
      session_id = 0;
      hsi_ipv4 = 0;
      hsi_ipv4_gw = 0;
      hsi_primary_dns = 0xffffffff;
      hsi_secondary_dns = 0xffffffff;
      mru = env.max_recv_unit;
      lcp_auth_rejected = false;
      lcp_mru_rejected = false;
      lcp_magic_rejected = false;
      peer_requires_auth = false;
    } in
    honour_redial (emit disconnected_reported c4)

-- ipv6cp_stop
unfoldable pub ipv6cp_stop : Ccb → Ccb
unfolding dhcp6_pd_stop set_pending ipv6_dp_gate_update set_state
ipv6cp_stop c =
    let c1 = set_pending ipv6cp false (record (dhcp6_pd_stop c) { ppp_ipv6cp = none }) in
    set_state ipv6cp stopped (ipv6_dp_gate_update (record c1 { ipv6cp_up = false }))
