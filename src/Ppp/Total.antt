-- ===== src/Ppp/Total.antt =====
-- The calls that PPP_FSM makes of itself end, whatever states the automata are in.
use fastrg_node.Base.{arith, ◌≤◌, ◌-◌, ℕ, suc, ◌≡◌, refl, true, Option, none, some}
use fastrg_node.Ppp.{
  Cp, lcp, ipcp, ipv6cp, Ccb, Env, Event, e_up, e_down, e_timeout_counter_expired,
  e_recv_good_config_request, e_recv_config_ack, e_recv_terminate_ack,
  e_recv_bad_code_protocol_reject, Timer, Status, State, init, closed, closing, ack_received,
  ack_sent,
}
use fastrg_node.Ppp.Fsm.{ppp_fsm}
use fastrg_node.Ppp.LayerUp.{
  done, at_lcp, at_ipcp, at_ipv6cp, lcp_up_ack_received, lcp_up_ack_sent, ipcp_up_ack_received,
  ipcp_up_ack_sent, ipv6cp_up_ack_received, ipv6cp_up_ack_sent,
}

lcp_total :
    (s : State) (e : Event) (f : ℕ) (env : Env) (t : Timer) (c : Ccb)
    → done (ppp_fsm (suc (suc (suc (suc (suc f))))) env t e (at_lcp s c)) ≡ true
unfolding ppp_fsm
lcp_total ack_received e_recv_good_config_request f env t c = lcp_up_ack_received f env t c
lcp_total ack_sent e_recv_config_ack f env t c = lcp_up_ack_sent f env t c
lcp_total _ e_up f env t c = ground arith
lcp_total _ _ f env t c = ground arith

ipv6cp_total :
    (s : State) (e : Event) (f : ℕ) (env : Env) (t : Timer) (c : Ccb)
    → done (ppp_fsm (suc (suc (suc (suc (suc f))))) env t e (at_ipv6cp s c)) ≡ true
unfolding ppp_fsm
ipv6cp_total ack_received e_recv_good_config_request f env t c = ipv6cp_up_ack_received f env t c
ipv6cp_total ack_sent e_recv_config_ack f env t c = ipv6cp_up_ack_sent f env t c
ipv6cp_total _ e_up f env t c = ground arith
ipv6cp_total _ _ f env t c = ground arith

-- The events on which a closed or closing IPCP goes on to close LCP, in every state of LCP.
abbrev with_lcp : State → Ccb → Ccb
with_lcp l c = record c { lcp_cp = record (c.lcp_cp) { state = l } }

ipcp_closed_down :
    (l : State) (f : ℕ) (env : Env) (t : Timer) (c : Ccb)
    → done (ppp_fsm (suc (suc (suc (suc (suc f))))) env t e_down (at_ipcp closed (with_lcp l c)))
      ≡ true
unfolding ppp_fsm
ipcp_closed_down init f env t c = refl
ipcp_closed_down _ f env t c = refl

ipcp_closed_recv_bad_code_protocol_reject :
    (l : State) (f : ℕ) (env : Env) (t : Timer) (c : Ccb)
    → done (
        ppp_fsm
          (suc (suc (suc (suc (suc f)))))
          env
          t
          e_recv_bad_code_protocol_reject
          (at_ipcp closed (with_lcp l c)))
      ≡ true
unfolding ppp_fsm
ipcp_closed_recv_bad_code_protocol_reject init f env t c = refl
ipcp_closed_recv_bad_code_protocol_reject _ f env t c = refl

ipcp_closing_timeout_counter_expired :
    (l : State) (f : ℕ) (env : Env) (t : Timer) (c : Ccb)
    → done (
        ppp_fsm
          (suc (suc (suc (suc (suc f)))))
          env
          t
          e_timeout_counter_expired
          (at_ipcp closing (with_lcp l c)))
      ≡ true
unfolding ppp_fsm
ipcp_closing_timeout_counter_expired init f env t c = refl
ipcp_closing_timeout_counter_expired _ f env t c = refl

ipcp_closing_recv_terminate_ack :
    (l : State) (f : ℕ) (env : Env) (t : Timer) (c : Ccb)
    → done (
        ppp_fsm
          (suc (suc (suc (suc (suc f)))))
          env
          t
          e_recv_terminate_ack
          (at_ipcp closing (with_lcp l c)))
      ≡ true
unfolding ppp_fsm
ipcp_closing_recv_terminate_ack init f env t c = refl
ipcp_closing_recv_terminate_ack _ f env t c = refl

ipcp_closing_recv_bad_code_protocol_reject :
    (l : State) (f : ℕ) (env : Env) (t : Timer) (c : Ccb)
    → done (
        ppp_fsm
          (suc (suc (suc (suc (suc f)))))
          env
          t
          e_recv_bad_code_protocol_reject
          (at_ipcp closing (with_lcp l c)))
      ≡ true
unfolding ppp_fsm
ipcp_closing_recv_bad_code_protocol_reject init f env t c = refl
ipcp_closing_recv_bad_code_protocol_reject _ f env t c = refl

ipcp_total :
    (s : State) (e : Event) (f : ℕ) (env : Env) (t : Timer) (c : Ccb)
    → done (ppp_fsm (suc (suc (suc (suc (suc f))))) env t e (at_ipcp s c)) ≡ true
unfolding ppp_fsm
ipcp_total ack_received e_recv_good_config_request f env t c = ipcp_up_ack_received f env t c
ipcp_total ack_sent e_recv_config_ack f env t c = ipcp_up_ack_sent f env t c
ipcp_total closed e_down f env t c = ipcp_closed_down c.lcp_cp.state f env t c
ipcp_total closed e_recv_bad_code_protocol_reject f env t c =
    ipcp_closed_recv_bad_code_protocol_reject c.lcp_cp.state f env t c
ipcp_total closing e_timeout_counter_expired f env t c =
    ipcp_closing_timeout_counter_expired c.lcp_cp.state f env t c
ipcp_total closing e_recv_terminate_ack f env t c =
    ipcp_closing_recv_terminate_ack c.lcp_cp.state f env t c
ipcp_total closing e_recv_bad_code_protocol_reject f env t c =
    ipcp_closing_recv_bad_code_protocol_reject c.lcp_cp.state f env t c
ipcp_total _ e_up f env t c = ground arith
ipcp_total _ _ f env t c = ground arith

ppp_fsm-done :
    (e : Event) (f : ℕ) (env : Env) (t : Timer) (c : Ccb) (cp : Cp)
    → done (ppp_fsm (suc (suc (suc (suc (suc f))))) env t e (record c { cp_id = cp })) ≡ true
ppp_fsm-done e f env t c lcp = lcp_total c.lcp_cp.state e f env t c
ppp_fsm-done e f env t c ipcp = ipcp_total c.ipcp_cp.state e f env t c
ppp_fsm-done e f env t c ipv6cp = ipv6cp_total c.ipv6cp_cp.state e f env t c

some_of_done : (m : Option (Status × Ccb)) → done m ≡ true → (r : Status × Ccb) × (m ≡ some r)
some_of_done none d = cc
some_of_done (some r) d = (r, refl)

pub five_more : (fuel : ℕ) → 5 ≤ fuel → (f : ℕ) × (fuel ≡ suc (suc (suc (suc (suc f)))))
five_more fuel h = (fuel - 5, omega arith)

-- For every control block, event and timer, PPP_FSM returns: its calls of itself through the
-- handlers nest at most five deep.
pub ppp_fsm-total :
    (fuel : ℕ) (env : Env) (t : Timer) (e : Event) (c : Ccb)
    → 5 ≤ fuel
    → (r : Status × Ccb) × (ppp_fsm fuel env t e c ≡ some r)
ppp_fsm-total fuel env t e c h =
    let (f, eq) = five_more fuel h in rw eq (some_of_done _ (ppp_fsm-done e f env t c c.cp_id))
