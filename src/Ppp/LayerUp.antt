-- ===== src/Ppp/LayerUp.antt =====
-- The transitions that bring a layer up return: their handler opens the network protocols in turn.
use fastrg_node.Base.{
  arith, if◌then◌else◌, ℕ, zero, suc, ◌≡◌, refl, Bool, true, false, Option, none, some,
}
use fastrg_node.Ppp.{
  Cp, lcp, ipcp, ipv6cp, Ccb, Env, e_open, e_recv_good_config_request, e_recv_config_ack, Timer,
  Status, ppp_timer, ipv6cp_timer, success, error, M, State, init, opened, ack_received, ack_sent,
  set_timer_counter, set_state, emit, config_ack,
}
use fastrg_node.Ppp.Rows.{handler_at, a_this_layer_up}
use fastrg_node.Ppp.Handlers.{open_network, Fsm, this_layer_up}
use fastrg_node.Ppp.Session.{ipcp_phase}
use fastrg_node.Ppp.Fsm.{ppp_fsm, continue, run_handlers, table}

abbrev pub done {ℓ} : {A : Type ℓ} → Option A → Bool
done none = false
done (some x) = true

-- The control block with one automaton driven, in a state that a proof can split on.
abbrev pub at_lcp : State → Ccb → Ccb
at_lcp s c = record c { cp_id = lcp; lcp_cp = record (c.lcp_cp) { state = s } }

abbrev pub at_ipcp : State → Ccb → Ccb
at_ipcp s c = record c { cp_id = ipcp; ipcp_cp = record (c.ipcp_cp) { state = s } }

abbrev pub at_ipv6cp : State → Ccb → Ccb
at_ipv6cp s c = record c { cp_id = ipv6cp; ipv6cp_cp = record (c.ipv6cp_cp) { state = s } }

handlers_end :
    (env : Env) (fsm : Fsm) (t : Timer) (n i j : ℕ) (c : Ccb)
    → handler_at (table c.cp_id) i j ≡ none
    → run_handlers env fsm t n i j c ≡ some (success, c)
unfolding run_handlers
handlers_end env fsm t zero i j c h = refl
handlers_end env fsm t (suc n) i j c h = rw (h, run_handlers)

continue-done :
    (env : Env) (fsm : Fsm) (t : Timer) (n i j : ℕ) (r : Option (Status × Ccb))
    → ((cp : Cp) → handler_at (table cp) i j ≡ none)
    → done r ≡ true
    → done (continue (run_handlers env fsm t n i j) r) ≡ true
unfolding continue
continue-done env fsm t n i j none h d = d
continue-done env fsm t n i j (some (error, c)) h d = refl
continue-done env fsm t n i j (some (success, c)) h d =
    rw (handlers_end env fsm t n i j c (h c.cp_id))

ipcp_open :
    (s : State) (f : ℕ) (env : Env) (t : Timer) (c : Ccb)
    → done (ppp_fsm (suc (suc (suc (suc f)))) env t e_open (at_ipcp s c)) ≡ true
unfolding ppp_fsm
ipcp_open init f env t c = refl
ipcp_open opened f env t c = refl
ipcp_open _ f env t c = refl

ipv6cp_open :
    (s : State) (f : ℕ) (env : Env) (t : Timer) (c : Ccb)
    → done (ppp_fsm (suc (suc (suc (suc f)))) env t e_open (at_ipv6cp s c)) ≡ true
unfolding ppp_fsm
ipv6cp_open init f env t c = refl
ipv6cp_open opened f env t c = refl
ipv6cp_open _ f env t c = refl

bind-done :
    (m : Option (Status × Ccb)) (k : M)
    → done m ≡ true
    → ((c : Ccb) → done (k c) ≡ true)
    → done (elim m [ none ↦ none | some (s, c) ↦ k c ]) ≡ true
bind-done none k d h = d
bind-done (some (s, c)) k d h = h c

if-done :
    (b : Bool) (x y : Option (Status × Ccb))
    → done x ≡ true
    → done y ≡ true
    → done (if b then x else y) ≡ true
if-done true x y dx dy = dx
if-done false x y dx dy = dy

open_network-done :
    (f : ℕ) (env : Env) (c : Ccb)
    → done (open_network (ppp_fsm (suc (suc (suc (suc f)))) env) c) ≡ true
unfolding open_network
open_network-done f env c =
    bind-done _ _ (ipcp_open c.ipcp_cp.state f env ppp_timer (record c { phase = ipcp_phase }))
      λ c1.
        if-done c1.ipv6_enabled _ _
          (bind-done _ _
            (ipv6cp_open c1.ipv6cp_cp.state f env ipv6cp_timer (record c1 { cp_id = ipv6cp }))
            (λ c2. refl))
          refl

layer_up-done :
    (f : ℕ) (env : Env) (c : Ccb)
    → done (this_layer_up env (ppp_fsm (suc (suc (suc (suc f)))) env) c) ≡ true
unfolding this_layer_up
layer_up-done f env c =
    ground (arith, open_network-done f env (record c { echo_miss_count = 0; ppp_alive = true }))

-- The last handler of a row brings a layer up, and no table has a handler behind it in that row.
up_round :
    (n i j f : ℕ) (env : Env) (t : Timer) (c : Ccb)
    → handler_at (table c.cp_id) i j ≡ some a_this_layer_up
    → ((cp : Cp) → handler_at (table cp) i (suc j) ≡ none)
    → done (run_handlers env (ppp_fsm (suc (suc (suc (suc f)))) env) t (suc n) i j c) ≡ true
unfolding run_handlers
up_round n i j f env t c at last =
    rw (at, run_handlers)
      (continue-done env (ppp_fsm (suc (suc (suc (suc f)))) env) t n i (suc j) _ last
        (layer_up-done f env (set_timer_counter c.cp_id 10 c)))

pub lcp_up_ack_received :
    (f : ℕ) (env : Env) (t : Timer) (c : Ccb)
    → done (
        ppp_fsm
          (suc (suc (suc (suc (suc f)))))
          env
          t
          e_recv_good_config_request
          (at_lcp ack_received c))
      ≡ true
unfolding ppp_fsm
lcp_up_ack_received f env t c =
    up_round 8 88 1 f env t
      (emit (config_ack lcp)
        (set_timer_counter lcp 10 (set_state lcp opened (at_lcp ack_received c))))
      refl (elim [ lcp ↦ refl | ipcp ↦ refl | ipv6cp ↦ refl ])

pub lcp_up_ack_sent :
    (f : ℕ) (env : Env) (t : Timer) (c : Ccb)
    → done (ppp_fsm (suc (suc (suc (suc (suc f))))) env t e_recv_config_ack (at_lcp ack_sent c))
      ≡ true
unfolding ppp_fsm
lcp_up_ack_sent f env t c =
    up_round 8 106 1 f env t (set_timer_counter lcp 10 (set_state lcp opened (at_lcp ack_sent c)))
      refl (elim [ lcp ↦ refl | ipcp ↦ refl | ipv6cp ↦ refl ])

pub ipcp_up_ack_received :
    (f : ℕ) (env : Env) (t : Timer) (c : Ccb)
    → done (
        ppp_fsm
          (suc (suc (suc (suc (suc f)))))
          env
          t
          e_recv_good_config_request
          (at_ipcp ack_received c))
      ≡ true
unfolding ppp_fsm
ipcp_up_ack_received f env t c =
    up_round 8 87 1 f env t
      (emit (config_ack ipcp)
        (set_timer_counter ipcp 10 (set_state ipcp opened (at_ipcp ack_received c))))
      refl (elim [ lcp ↦ refl | ipcp ↦ refl | ipv6cp ↦ refl ])

pub ipcp_up_ack_sent :
    (f : ℕ) (env : Env) (t : Timer) (c : Ccb)
    → done (ppp_fsm (suc (suc (suc (suc (suc f))))) env t e_recv_config_ack (at_ipcp ack_sent c))
      ≡ true
unfolding ppp_fsm
ipcp_up_ack_sent f env t c =
    up_round 8 105 1 f env t
      (set_timer_counter ipcp 10 (set_state ipcp opened (at_ipcp ack_sent c))) refl
      (elim [ lcp ↦ refl | ipcp ↦ refl | ipv6cp ↦ refl ])

pub ipv6cp_up_ack_received :
    (f : ℕ) (env : Env) (t : Timer) (c : Ccb)
    → done (
        ppp_fsm
          (suc (suc (suc (suc (suc f)))))
          env
          t
          e_recv_good_config_request
          (at_ipv6cp ack_received c))
      ≡ true
unfolding ppp_fsm
ipv6cp_up_ack_received f env t c =
    up_round 8 87 1 f env t
      (emit (config_ack ipv6cp)
        (set_timer_counter ipv6cp 10 (set_state ipv6cp opened (at_ipv6cp ack_received c))))
      refl (elim [ lcp ↦ refl | ipcp ↦ refl | ipv6cp ↦ refl ])

pub ipv6cp_up_ack_sent :
    (f : ℕ) (env : Env) (t : Timer) (c : Ccb)
    → done (ppp_fsm (suc (suc (suc (suc (suc f))))) env t e_recv_config_ack (at_ipv6cp ack_sent c))
      ≡ true
unfolding ppp_fsm
ipv6cp_up_ack_sent f env t c =
    up_round 8 105 1 f env t
      (set_timer_counter ipv6cp 10 (set_state ipv6cp opened (at_ipv6cp ack_sent c))) refl
      (elim [ lcp ↦ refl | ipcp ↦ refl | ipv6cp ↦ refl ])
