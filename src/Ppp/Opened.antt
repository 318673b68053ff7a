-- ===== src/Ppp/Opened.antt =====
-- An opened LCP under the table of src/pppd/fsm.c: what its events leave of LCP and of the network
-- protocols above it.
use fastrg_node.Base.{
  List, [], ◌∷◌, ℕ, suc, ◌≡◌, refl, ◌≤◌, Bool, true, false, ◌||◌, some, arith, subst, sym, ◌⊎◌, inl,
  inr,
}
use fastrg_node.Ppp.{
  Cp, lcp, ipcp, State, init, closing, opened, request_sent, ack_sent, Event, e_up, e_down,
  e_recv_good_config_request, e_recv_bad_config_request, e_recv_config_ack, e_recv_config_nak_rej,
  e_recv_terminate_ack, Protocol, ipcp_protocol, Timer, Ccb, Env, success, M,
}
use fastrg_node.Ppp.Rows.{Lookup, unknown_state, no_transition, transition, locate, is_state}
use fastrg_node.Ppp.Lcp.{lcp_tbl}
use fastrg_node.Ppp.Session.{data_phase}
use fastrg_node.Ppp.Handlers.{◌>>◌}
use fastrg_node.Ppp.Fsm.{ppp_fsm}
use fastrg_node.Ppp.Total.{five_more}
use fastrg_node.Ppp.LayerUp.{at_lcp}
use fastrg_node.Ppp.Ended.{Yields, gate_closed}

-- No network protocol is up and no user traffic passes.
pub record IsDown (c : Ccb) : Type 0 where
  pub ipcp_init : c.ipcp_cp.state ≡ init
  pub ipv6cp_init : c.ipv6cp_cp.state ≡ init
  pub no_traffic : c.dp_start_bool ≡ false
  pub no_ipv6 : (c.ipv6cp_up ≡ false) × (c.dhcp6_pd_ready ≡ false) × (c.ipv6_dp_bool ≡ false)

-- Whether the row that a state and an event select goes on in state `s`.
abbrev pub announces : State → Lookup → Bool
announces s unknown_state = false
announces s no_transition = false
announces s (transition i r) = is_state r.next_state s

opened_event :
    (e : Event) (f : ℕ) (env : Env) (t : Timer) (c : Ccb)
    → Yields
        (λ c'. (c'.lcp_cp.state ≡ opened) ⊎ IsDown c')
        (ppp_fsm (suc (suc (suc (suc (suc f))))) env t e (at_lcp opened c))
unfolding ppp_fsm
opened_event e_up f env t c = inl refl
opened_event e_down f env t c = inr (record {
  ipcp_init = refl;
  ipv6cp_init = refl;
  no_traffic = refl;
  no_ipv6 = (refl, refl, gate_closed c.ipv6_enabled);
})
opened_event e_recv_good_config_request f env t c = inr (record {
  ipcp_init = refl;
  ipv6cp_init = refl;
  no_traffic = refl;
  no_ipv6 = (refl, refl, gate_closed c.ipv6_enabled);
})
opened_event _ f env t c = ground (arith, gate_closed c.ipv6_enabled)

renegotiates :
    (e : Event) (f : ℕ) (env : Env) (t : Timer) (c : Ccb)
    → (announces request_sent (locate lcp_tbl opened e)
        || announces ack_sent (locate lcp_tbl opened e))
      ≡ true
    → Yields
        (λ c'. c'.lcp_cp.state ≡ closing)
        (ppp_fsm (suc (suc (suc (suc (suc f))))) env t e (at_lcp opened c))
unfolding ppp_fsm locate lcp_tbl
renegotiates e_recv_good_config_request f env t c h = refl
renegotiates e_recv_bad_config_request f env t c h = refl
renegotiates e_recv_config_ack f env t c h = refl
renegotiates e_recv_config_nak_rej f env t c h = refl
renegotiates e_recv_terminate_ack f env t c h = refl
renegotiates _ f env t c h = ground (arith, h)

-- Events one after the other, as far as the calls return.
unfoldable pub receive_all : ℕ → Env → Timer → List Event → M
unfolding ppp_fsm
receive_all fuel env t [] c = some (success, c)
receive_all fuel env t (e ∷ es) c = (ppp_fsm fuel env t e >> receive_all fuel env t es) c

-- IPCP in state `s`, with the protocol number `p` and the control protocol `id` selected.
abbrev ipcp_with : Cp → State → Protocol → Ccb → Ccb
ipcp_with id s p c = record c {
  cp_id = id;
  ipcp_cp = record (c.ipcp_cp) { state = s; ppp_protocol = p };
}

-- IPCP is open, user traffic passes, and the connection has been reported.
abbrev pub IsConnected : Ccb → Type 0
IsConnected c = (c.ipcp_cp.state ≡ opened) × (c.dp_start_bool ≡ true) × (c.phase ≡ data_phase)

ack_first :
    (f : ℕ) (env : Env) (t : Timer) (c : Ccb)
    → Yields IsConnected (
        receive_all
          (suc (suc (suc (suc (suc f)))))
          env
          t
          (e_recv_config_ack ∷ e_recv_good_config_request ∷ [])
          (ipcp_with ipcp request_sent ipcp_protocol c))
unfolding receive_all
ack_first f env t c = (refl, refl, refl)

request_first :
    (f : ℕ) (env : Env) (t : Timer) (c : Ccb)
    → Yields IsConnected (
        receive_all
          (suc (suc (suc (suc (suc f)))))
          env
          t
          (e_recv_good_config_request ∷ e_recv_config_ack ∷ [])
          (ipcp_with ipcp request_sent ipcp_protocol c))
unfolding receive_all
request_first f env t c = (refl, refl, refl)

lcp_opened_eta :
    (id : Cp) (s : State) (c : Ccb)
    → id ≡ lcp
    → s ≡ opened
    → record c { cp_id = id; lcp_cp = record (c.lcp_cp) { state = s } } ≡ at_lcp opened c
lcp_opened_eta id s c h k = rw (h, k) refl

ipcp_with_eta :
    (id : Cp) (s : State) (p : Protocol) (c : Ccb)
    → id ≡ ipcp
    → s ≡ request_sent
    → p ≡ ipcp_protocol
    → ipcp_with id s p c ≡ ipcp_with ipcp request_sent ipcp_protocol c
ipcp_with_eta id s p c h k l = rw (h, k, l) refl

-- An event that an open LCP receives either leaves it open, or the network protocols are back at the
-- start, no user traffic passes and the IPv6 gate is shut.
pub ppp_fsm-IsDown :
    (fuel : ℕ) (env : Env) (t : Timer) (e : Event) (c : Ccb)
    → 5 ≤ fuel
    → c.cp_id ≡ lcp
    → c.lcp_cp.state ≡ opened
    → Yields (λ c'. (c'.lcp_cp.state ≡ opened) ⊎ IsDown c') (ppp_fsm fuel env t e c)
ppp_fsm-IsDown fuel env t e c enough id o =
    let (f, eq) = five_more fuel enough in
    rw eq (
      subst
        (λ c0.
          Yields (λ c'. (c'.lcp_cp.state ≡ opened) ⊎ IsDown c')
            (ppp_fsm (suc (suc (suc (suc (suc f))))) env t e c0))
        (sym (lcp_opened_eta c.cp_id c.lcp_cp.state c id o)) (opened_event e f env t c))

-- An event on which the table sends an open LCP back into the negotiation, to REQUEST_SENT or to
-- ACK_SENT, ends in CLOSING instead: the handler that takes the network protocols down closes LCP
-- after the table's next state has been entered.
pub renegotiation_closes :
    (fuel : ℕ) (env : Env) (t : Timer) (e : Event) (c : Ccb)
    → 5 ≤ fuel
    → c.cp_id ≡ lcp
    → c.lcp_cp.state ≡ opened
    → (announces request_sent (locate lcp_tbl opened e)
        || announces ack_sent (locate lcp_tbl opened e))
      ≡ true
    → Yields (λ c'. c'.lcp_cp.state ≡ closing) (ppp_fsm fuel env t e c)
renegotiation_closes fuel env t e c enough id o h =
    let (f, eq) = five_more fuel enough in
    rw eq (
      subst
        (λ c0.
          Yields (λ c'. c'.lcp_cp.state ≡ closing)
            (ppp_fsm (suc (suc (suc (suc (suc f))))) env t e c0))
        (sym (lcp_opened_eta c.cp_id c.lcp_cp.state c id o)) (renegotiates e f env t c h))

-- Once IPCP has sent its request, the peer's acknowledgement and the peer's own request, in either
-- order, open it: the calls return, user traffic passes and the session is in DATA_PHASE.
pub ipcp_negotiation :
    (fuel : ℕ) (env : Env) (t : Timer) (c : Ccb)
    → 5 ≤ fuel
    → c.cp_id ≡ ipcp
    → c.ipcp_cp.state ≡ request_sent
    → c.ipcp_cp.ppp_protocol ≡ ipcp_protocol
    → Yields IsConnected
        (receive_all fuel env t (e_recv_config_ack ∷ e_recv_good_config_request ∷ []) c)
      × Yields IsConnected
          (receive_all fuel env t (e_recv_good_config_request ∷ e_recv_config_ack ∷ []) c)
ipcp_negotiation fuel env t c enough id s p =
    let (f, eq) = five_more fuel enough in
    let at = sym (ipcp_with_eta c.cp_id c.ipcp_cp.state c.ipcp_cp.ppp_protocol c id s p) in
    rw eq (
      subst
          (λ c0. Yields IsConnected (
            receive_all (suc (suc (suc (suc (suc f))))) env t
              (e_recv_config_ack ∷ e_recv_good_config_request ∷ []) c0))
          at (ack_first f env t c),
      subst
          (λ c0. Yields IsConnected (
            receive_all (suc (suc (suc (suc (suc f))))) env t
              (e_recv_good_config_request ∷ e_recv_config_ack ∷ []) c0))
          at (request_first f env t c),
    )
