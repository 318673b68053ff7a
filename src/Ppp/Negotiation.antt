-- ===== src/Ppp/Negotiation.antt =====
-- The negotiations of LCP and of IPV6CP under the tables of src/pppd/fsm.c, from the request on.
use fastrg_node.Base.{ℕ, suc, [], ◌∷◌, ◌≡◌, refl, ◌≤◌, Bool, true, false, subst, sym}
use fastrg_node.Ppp.{
  Cp, lcp, ipv6cp, State, opened, request_sent, e_recv_good_config_request, e_recv_config_ack, Auth,
  pap, Protocol, lcp_protocol, ipv6cp_protocol, Timer, Ccb, Env, dhcp6_soliciting,
}
use fastrg_node.Ppp.Session.{auth_phase}
use fastrg_node.Ppp.Total.{five_more}
use fastrg_node.Ppp.Ended.{Yields}
use fastrg_node.Ppp.Opened.{receive_all}

-- LCP in state `s`, with the protocol number `p` and the control protocol `id` selected, the peer's
-- wish to authenticate and the agreed method.
abbrev lcp_with : Cp → State → Protocol → Bool → Auth → Ccb → Ccb
lcp_with id s p required method c = record c {
  cp_id = id;
  lcp_cp = record (c.lcp_cp) { state = s; ppp_protocol = p };
  peer_requires_auth = required;
  auth_method = method;
}

-- LCP is open, the session authenticates, and the keepalive timer runs.
abbrev pub IsAuthenticating : Ccb → Type 0
IsAuthenticating c = (c.lcp_cp.state ≡ opened) × (c.phase ≡ auth_phase) × (c.ppp_alive ≡ true)

lcp_ack_first :
    (rejected : Bool) (f : ℕ) (env : Env) (t : Timer) (c : Ccb)
    → Yields IsAuthenticating (
        receive_all
          (suc (suc (suc (suc (suc f)))))
          env
          t
          (e_recv_config_ack ∷ e_recv_good_config_request ∷ [])
          (lcp_with lcp request_sent lcp_protocol true pap
            (record c { lcp_auth_rejected = rejected })))
unfolding receive_all
lcp_ack_first true f env t c = (refl, refl, refl)
lcp_ack_first false f env t c = (refl, refl, refl)

lcp_request_first :
    (rejected : Bool) (f : ℕ) (env : Env) (t : Timer) (c : Ccb)
    → Yields IsAuthenticating (
        receive_all
          (suc (suc (suc (suc (suc f)))))
          env
          t
          (e_recv_good_config_request ∷ e_recv_config_ack ∷ [])
          (lcp_with lcp request_sent lcp_protocol true pap
            (record c { lcp_auth_rejected = rejected })))
unfolding receive_all
lcp_request_first true f env t c = (refl, refl, refl)
lcp_request_first false f env t c = (refl, refl, refl)

lcp_with_eta :
    (id : Cp) (s : State) (p : Protocol) (required : Bool) (method : Auth) (c : Ccb)
    → id ≡ lcp
    → s ≡ request_sent
    → p ≡ lcp_protocol
    → required ≡ true
    → method ≡ pap
    → lcp_with id s p required method c ≡ lcp_with lcp request_sent lcp_protocol true pap c
lcp_with_eta id s p required method c h k l m n = rw (h, k, l, m, n) refl

-- Once LCP has sent its request to a peer that requires authentication by PAP, the peer's
-- acknowledgement and its own acceptable request, in either order, open LCP: the calls return, the
-- session is in AUTH_PHASE and the keepalive timer runs.
pub lcp_negotiation :
    (fuel : ℕ) (env : Env) (t : Timer) (c : Ccb)
    → 5 ≤ fuel
    → c.cp_id ≡ lcp
    → c.lcp_cp.state ≡ request_sent
    → c.lcp_cp.ppp_protocol ≡ lcp_protocol
    → c.peer_requires_auth ≡ true
    → c.auth_method ≡ pap
    → Yields IsAuthenticating
        (receive_all fuel env t (e_recv_config_ack ∷ e_recv_good_config_request ∷ []) c)
      × Yields IsAuthenticating
          (receive_all fuel env t (e_recv_good_config_request ∷ e_recv_config_ack ∷ []) c)
lcp_negotiation fuel env t c enough id s p r m =
    let (f, eq) = five_more fuel enough in
    let at = sym (
      lcp_with_eta c.cp_id c.lcp_cp.state c.lcp_cp.ppp_protocol c.peer_requires_auth c.auth_method c
        id s p r m) in
    rw eq (
      subst
          (λ c0. Yields IsAuthenticating (
            receive_all (suc (suc (suc (suc (suc f))))) env t
              (e_recv_config_ack ∷ e_recv_good_config_request ∷ []) c0))
          at (lcp_ack_first c.lcp_auth_rejected f env t c),
      subst
          (λ c0. Yields IsAuthenticating (
            receive_all (suc (suc (suc (suc (suc f))))) env t
              (e_recv_good_config_request ∷ e_recv_config_ack ∷ []) c0))
          at (lcp_request_first c.lcp_auth_rejected f env t c),
    )

-- IPV6CP in state `s`, with the protocol number `p`, the control protocol `id` selected and IPv6 on
-- or off.
abbrev ipv6cp_with : Cp → State → Protocol → Bool → Ccb → Ccb
ipv6cp_with id s p enabled c = record c {
  cp_id = id;
  ipv6cp_cp = record (c.ipv6cp_cp) { state = s; ppp_protocol = p };
  ipv6_enabled = enabled;
}

-- IPV6CP is up and a prefix is being solicited, the gate shut until it is there.
abbrev pub IsSoliciting : Ccb → Type 0
IsSoliciting c =
    (c.ipv6cp_cp.state ≡ opened)
    × (c.ipv6cp_up ≡ true)
    × (c.dhcp6_state ≡ dhcp6_soliciting)
    × (c.dhcp6_timer ≡ true)
    × (c.ipv6_dp_bool ≡ false)

ipv6cp_ack_first :
    (f : ℕ) (env : Env) (t : Timer) (c : Ccb)
    → Yields IsSoliciting (
        receive_all
          (suc (suc (suc (suc (suc f)))))
          env
          t
          (e_recv_config_ack ∷ e_recv_good_config_request ∷ [])
          (ipv6cp_with ipv6cp request_sent ipv6cp_protocol true c))
unfolding receive_all
ipv6cp_ack_first f env t c = (refl, refl, refl, refl, refl)

ipv6cp_request_first :
    (f : ℕ) (env : Env) (t : Timer) (c : Ccb)
    → Yields IsSoliciting (
        receive_all
          (suc (suc (suc (suc (suc f)))))
          env
          t
          (e_recv_good_config_request ∷ e_recv_config_ack ∷ [])
          (ipv6cp_with ipv6cp request_sent ipv6cp_protocol true c))
unfolding receive_all
ipv6cp_request_first f env t c = (refl, refl, refl, refl, refl)

ipv6cp_with_eta :
    (id : Cp) (s : State) (p : Protocol) (enabled : Bool) (c : Ccb)
    → id ≡ ipv6cp
    → s ≡ request_sent
    → p ≡ ipv6cp_protocol
    → enabled ≡ true
    → ipv6cp_with id s p enabled c ≡ ipv6cp_with ipv6cp request_sent ipv6cp_protocol true c
ipv6cp_with_eta id s p enabled c h k l m = rw (h, k, l, m) refl

-- Once IPV6CP has sent its request with IPv6 enabled, the peer's acknowledgement and its own
-- acceptable request, in either order, open it: the calls return, a prefix is being solicited, and the
-- gate of the IPv6 data plane is shut.
ipv6cp_negotiation :
    (fuel : ℕ) (env : Env) (t : Timer) (c : Ccb)
    → 5 ≤ fuel
    → c.cp_id ≡ ipv6cp
    → c.ipv6cp_cp.state ≡ request_sent
    → c.ipv6cp_cp.ppp_protocol ≡ ipv6cp_protocol
    → c.ipv6_enabled ≡ true
    → Yields IsSoliciting
        (receive_all fuel env t (e_recv_config_ack ∷ e_recv_good_config_request ∷ []) c)
      × Yields IsSoliciting
          (receive_all fuel env t (e_recv_good_config_request ∷ e_recv_config_ack ∷ []) c)
ipv6cp_negotiation fuel env t c enough id s p en =
    let (f, eq) = five_more fuel enough in
    let at = sym (
      ipv6cp_with_eta c.cp_id c.ipv6cp_cp.state c.ipv6cp_cp.ppp_protocol c.ipv6_enabled c id s p
        en) in
    rw eq (
      subst
          (λ c0. Yields IsSoliciting (
            receive_all (suc (suc (suc (suc (suc f))))) env t
              (e_recv_config_ack ∷ e_recv_good_config_request ∷ []) c0))
          at (ipv6cp_ack_first f env t c),
      subst
          (λ c0. Yields IsSoliciting (
            receive_all (suc (suc (suc (suc (suc f))))) env t
              (e_recv_good_config_request ∷ e_recv_config_ack ∷ []) c0))
          at (ipv6cp_request_first f env t c),
    )
