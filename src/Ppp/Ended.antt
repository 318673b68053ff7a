-- ===== src/Ppp/Ended.antt =====
-- The end of a session as PPP_bye and exit_ppp of src/pppd/pppd.c leave it.
use fastrg_node.Base.{
  ◌≡◌, refl, Bool, true, false, ◌&&◌, Option, none, some, if◌then◌else◌, ◌⊎◌, inl, inr,
}
use fastrg_node.Ppp.{init, Ccb, Env, Status}
use fastrg_node.Ppp.Session.{end_phase, pppoe_phase, auth_phase, exit_ppp, init_automata}
use fastrg_node.Ppp.Handlers.{Fsm, ppp_bye, bye_start}

-- Every automaton is back at the start, no user traffic passes, no timer runs, and neither the
-- session nor its negotiated parameters are left.
pub record IsEnded (env : Env) (c : Ccb) : Type 0 where
  pub lcp_init : c.lcp_cp.state ≡ init
  pub ipcp_init : c.ipcp_cp.state ≡ init
  pub ipv6cp_init : c.ipv6cp_cp.state ≡ init
  pub ended : c.phase ≡ end_phase
  pub no_session : (c.session_id ≡ 0) × (c.pppoe_active ≡ false)
  pub no_traffic : (c.ppp_bool ≡ false) × (c.dp_start_bool ≡ false) × (c.ipv6_dp_bool ≡ false)
  pub no_ipv6 : (c.ipv6cp_up ≡ false) × (c.dhcp6_pd_ready ≡ false)
  pub no_timers :
      (c.ppp ≡ none)
      × (c.ppp_ipv6cp ≡ none)
      × (c.pppoe ≡ false)
      × (c.ppp_alive ≡ false)
      × (c.dhcp6_timer ≡ false)
      × (c.ra_timer ≡ false)
  pub no_address : (c.hsi_ipv4 ≡ 0) × (c.hsi_ipv4_gw ≡ 0) × (c.mru ≡ env.max_recv_unit)
  pub not_processing : c.ppp_processing ≡ false

-- The computation returns, and its control block satisfies `P`.
abbrev pub Yields : (Ccb → Type 0) → Option (Status × Ccb) → Type 0
Yields P none = ⊥
Yields P (some (s, c)) = P c

pub gate_closed : (enabled : Bool) → (if enabled && false && false then true else false) ≡ false
gate_closed true = refl
gate_closed false = refl

exit_ppp-IsEnded : (env : Env) (c : Ccb) → c.ppp_processing ≡ false → IsEnded env (exit_ppp env c)
unfolding exit_ppp
exit_ppp-IsEnded env c h = record {
  lcp_init = refl;
  ipcp_init = refl;
  ipv6cp_init = refl;
  ended = refl;
  no_session = (refl, refl);
  no_traffic = (refl, refl, gate_closed c.ipv6_enabled);
  no_ipv6 = (refl, refl);
  no_timers = (refl, refl, refl, refl, refl, refl);
  no_address = (refl, refl, refl);
  not_processing = h;
}

-- PPP_bye in END_PHASE, PPPOE_PHASE and AUTH_PHASE returns at once, and the session is over.
pub ppp_bye-IsEnded :
    (env : Env) (fsm : Fsm) (c : Ccb)
    → (c.phase ≡ end_phase) ⊎ (c.phase ≡ pppoe_phase) ⊎ (c.phase ≡ auth_phase)
    → Yields (IsEnded env) (ppp_bye env fsm c)
unfolding ppp_bye
ppp_bye-IsEnded env fsm c (inl h) =
    rw h (
      exit_ppp-IsEnded env (record (bye_start c) { ppp_bool = false; ppp_processing = false }) refl)
ppp_bye-IsEnded env fsm c (inr (inr h)) = rw h (
    exit_ppp-IsEnded env
      (record (bye_start c) { phase = auth_phase; ppp_bool = false; ppp_processing = false }) refl)
ppp_bye-IsEnded env fsm c (inr (inl h)) =
    let c1 = init_automata (record (bye_start c) { phase = end_phase }) in
    rw h (
      exit_ppp-IsEnded env (record (bye_start c1) { ppp_bool = false; ppp_processing = false })
        refl)
