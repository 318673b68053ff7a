-- ===== src/Ppp/Hangup.antt =====
-- Ending a session: PPP_bye of src/pppd/pppd.c, the LCP automaton of src/pppd/fsm.c that it closes,
-- and the callback that repeats the terminate request.
use fastrg_node.Base.{
  ℕ, zero, suc, ◌-◌, ◌≡◌, refl, ◌≤◌, true, false, Option, none, some, arith, ◌==◌, ◌⊎◌, inl, inr,
  subst, sym,
}
use fastrg_node.Ppp.{
  lcp, ipcp, ipv6cp, init, closing, opened, e_close, e_recv_terminate_ack,
  e_timeout_counter_expired, Timer, ppp_timer, Ccb, Env, Status, success, M, automaton,
  set_automaton, set_state, Callback, send_config_request, send_terminate_request, emit, timer_set,
  set_timer_counter, terminate_request,
}
use fastrg_node.Ppp.Session.{lcp_phase, ipcp_phase, data_phase}
use fastrg_node.Ppp.Handlers.{
  Fsm, ppp_bye, bye_close, bye_start, a_config_request, a_terminate_request, retransmit, ◌>>◌,
  return,
}
use fastrg_node.Ppp.Fsm.{ppp_fsm}
use fastrg_node.Ppp.Total.{five_more}
use fastrg_node.Ppp.LayerUp.{at_lcp}
use fastrg_node.Ppp.Ended.{IsEnded, Yields, gate_closed}

-- send_config_request_lcp, send_terminate_request_lcp and those for the other protocols.
unfoldable pub run_callback : Callback → Fsm → Timer → M
unfolding a_config_request a_terminate_request
run_callback (send_config_request cp) fsm t c = a_config_request fsm t (record c { cp_id = cp })
run_callback (send_terminate_request cp) fsm t c =
    a_terminate_request fsm t (record c { cp_id = cp })

-- `n` expiries of the retransmission timer in a row, with nothing received in between.
unfoldable pub rounds : ℕ → Callback → Fsm → Timer → M
unfolding run_callback
rounds zero cb fsm t c = some (success, c)
rounds (suc n) cb fsm t c = (run_callback cb fsm t >> rounds n cb fsm t) c

closing_ack :
    (f : ℕ) (env : Env) (t : Timer) (c : Ccb)
    → Yields
        (IsEnded env)
        (ppp_fsm (suc (suc (suc (suc (suc f))))) env t e_recv_terminate_ack (at_lcp closing c))
unfolding ppp_fsm
closing_ack f env t c = record {
  lcp_init = refl;
  ipcp_init = refl;
  ipv6cp_init = refl;
  ended = refl;
  no_session = (refl, refl);
  no_traffic = (refl, refl, gate_closed c.ipv6_enabled);
  no_ipv6 = (refl, refl);
  no_timers = (refl, refl, refl, refl, refl, refl);
  no_address = (refl, refl, refl);
  not_processing = refl;
}

closing_expired :
    (f : ℕ) (env : Env) (t : Timer) (c : Ccb)
    → Yields
        (IsEnded env)
        (ppp_fsm (suc (suc (suc (suc (suc f))))) env t e_timeout_counter_expired (at_lcp closing c))
unfolding ppp_fsm
closing_expired f env t c = record {
  lcp_init = refl;
  ipcp_init = refl;
  ipv6cp_init = refl;
  ended = refl;
  no_session = (refl, refl);
  no_traffic = (refl, refl, gate_closed c.ipv6_enabled);
  no_ipv6 = (refl, refl);
  no_timers = (refl, refl, refl, refl, refl, refl);
  no_address = (refl, refl, refl);
  not_processing = refl;
}

-- LCP in CLOSING, `n` transmissions left.
abbrev at_closing : ℕ → Ccb → Ccb
at_closing n c = record c {
  cp_id = lcp;
  lcp_cp = record (c.lcp_cp) { state = closing; timer_counter = n };
}

Yields-seq :
    (P Q : Ccb → Type 0) (r : Option (Status × Ccb)) (k : M)
    → Yields P r
    → ((c : Ccb) → P c → Yields Q (k c))
    → Yields Q (elim r [ none ↦ none | some (s, c') ↦ k c' ])
Yields-seq P Q none k h hk = absurd h
Yields-seq P Q (some (s, c)) k h hk = hk c h

suc-minus : (n : ℕ) → suc n - 1 ≡ n
suc-minus n = omega arith

suc_positive : (n : ℕ) → (suc n == 0) ≡ false
suc_positive n = ground arith

-- A round before the last one sends the request and counts down.
one_round :
    (n : ℕ) (fsm : Fsm) (t : Timer) (c : Ccb)
    → run_callback (send_terminate_request lcp) fsm t (at_closing (suc n) c)
      ≡ some (success, at_closing n (emit (terminate_request lcp) c))
unfolding run_callback a_terminate_request retransmit emit set_timer_counter
one_round n fsm t c = rw (suc-minus n, suc_positive n) refl

rounds-IsEnded :
    (n f : ℕ) (env : Env) (t : Timer) (c : Ccb)
    → Yields (IsEnded env) (
        rounds
          (suc n)
          (send_terminate_request lcp)
          (ppp_fsm (suc (suc (suc (suc (suc f))))) env)
          t
          (at_closing n c))
unfolding rounds run_callback
rounds-IsEnded zero f env t c =
    let c1 = timer_set t none (at_closing 0 c) in
    Yields-seq (IsEnded env) (IsEnded env)
      ((ppp_fsm (suc (suc (suc (suc (suc f))))) env t e_timeout_counter_expired >> return success)
        c1)
      (return success)
      (Yields-seq (IsEnded env) (IsEnded env)
        (ppp_fsm (suc (suc (suc (suc (suc f))))) env t e_timeout_counter_expired c1)
        (return success) (closing_expired f env t c1) (λ c' h. h))
      (λ c' h. h)
rounds-IsEnded (suc n) f env t c =
    subst
      (λ r. Yields (IsEnded env) (elim r [
        | none ↦ none
        | some (s, c') ↦
            rounds (suc n) (send_terminate_request lcp)
              (ppp_fsm (suc (suc (suc (suc (suc f))))) env) t c'
      ]))
      (sym (one_round n (ppp_fsm (suc (suc (suc (suc (suc f))))) env) t c))
      (rounds-IsEnded n f env t (emit (terminate_request lcp) c))

-- What PPP_bye leaves where it has closed LCP.
IsClosing : Ccb → Type 0
IsClosing c = (c ≡ at_closing 9 c) × (c.ppp ≡ some (send_terminate_request lcp))

closing_ends :
    (f : ℕ) (env : Env) (c : Ccb)
    → IsClosing c
    → (c.ppp ≡ some (send_terminate_request lcp))
      × Yields
          (IsEnded env)
          (ppp_fsm (suc (suc (suc (suc (suc f))))) env ppp_timer e_recv_terminate_ack c)
      × Yields (IsEnded env) (
          rounds 10
            (send_terminate_request lcp)
            (ppp_fsm (suc (suc (suc (suc (suc f))))) env)
            ppp_timer
            c)
unfolding IsClosing
closing_ends f env c (eq, p) = (
  p,
  subst
      (λ c'.
        Yields (IsEnded env)
          (ppp_fsm (suc (suc (suc (suc (suc f))))) env ppp_timer e_recv_terminate_ack c'))
      (sym eq) (closing_ack f env ppp_timer (at_closing 9 c)),
  subst
      (λ c'. Yields (IsEnded env) (
        rounds 10 (send_terminate_request lcp) (ppp_fsm (suc (suc (suc (suc (suc f))))) env)
          ppp_timer c'))
      (sym eq) (rounds-IsEnded 9 f env ppp_timer c),
)

Yields-map :
    (P Q : Ccb → Type 0) (r : Option (Status × Ccb))
    → Yields P r
    → ((c : Ccb) → P c → Q c)
    → Yields Q r
Yields-map P Q none h k = absurd h
Yields-map P Q (some (s, c)) h k = k c h

lcp_closes :
    (f : ℕ) (env : Env) (c : Ccb)
    → Yields IsClosing
        (ppp_fsm (suc (suc (suc (suc (suc f))))) env ppp_timer e_close (at_lcp opened c))
unfolding ppp_fsm IsClosing
lcp_closes f env c = (refl, refl)

bye_close-IsClosing :
    (f : ℕ) (env : Env) (c : Ccb)
    → c.lcp_cp.state ≡ opened
    → Yields IsClosing (bye_close (ppp_fsm (suc (suc (suc (suc (suc f))))) env) c)
unfolding bye_close set_state set_automaton automaton
bye_close-IsClosing f env c o =
    subst
      (λ s. Yields IsClosing (
        bye_close (ppp_fsm (suc (suc (suc (suc (suc f))))) env)
          (record c { lcp_cp = record (c.lcp_cp) { state = s } })))
      (sym o)
      (Yields-seq IsClosing IsClosing
        (ppp_fsm (suc (suc (suc (suc (suc f))))) env ppp_timer e_close (at_lcp opened c1))
        (return success) (lcp_closes f env c1) (λ c' h. h))
  where
    c1 : Ccb
    c1 =
        set_state ipv6cp init
          (set_state ipcp init (record c { ppp_processing = true; cp_id = lcp }))

ppp_bye-IsClosing :
    (f : ℕ) (env : Env) (c : Ccb)
    → c.lcp_cp.state ≡ opened
    → (c.phase ≡ lcp_phase) ⊎ (c.phase ≡ ipcp_phase) ⊎ (c.phase ≡ data_phase)
    → Yields IsClosing (ppp_bye env (ppp_fsm (suc (suc (suc (suc (suc f))))) env) c)
unfolding ppp_bye
ppp_bye-IsClosing f env c o (inl p) =
    rw p (bye_close-IsClosing f env (record (bye_start c) { phase = lcp_phase }) o)
ppp_bye-IsClosing f env c o (inr (inl p)) = rw p (
    bye_close-IsClosing f env (record (bye_start c) { dp_start_bool = false; phase = lcp_phase }) o)
ppp_bye-IsClosing f env c o (inr (inr p)) = rw p (
    bye_close-IsClosing f env (record (bye_start c) { dp_start_bool = false; phase = lcp_phase }) o)

-- A session whose LCP is open is hung up in any of its later phases: PPP_bye returns and leaves the
-- retransmission timer set to the terminate request of LCP. From there the peer's terminate
-- acknowledgement ends the session, and so do ten expiries of the timer without any answer.
pub hangup_ends :
    (fuel : ℕ) (env : Env) (c : Ccb)
    → 5 ≤ fuel
    → c.lcp_cp.state ≡ opened
    → (c.phase ≡ lcp_phase) ⊎ (c.phase ≡ ipcp_phase) ⊎ (c.phase ≡ data_phase)
    → Yields
        (λ c'.
          (c'.ppp ≡ some (send_terminate_request lcp))
          × Yields (IsEnded env) (ppp_fsm fuel env ppp_timer e_recv_terminate_ack c')
          × Yields
              (IsEnded env)
              (rounds 10 (send_terminate_request lcp) (ppp_fsm fuel env) ppp_timer c'))
        (ppp_bye env (ppp_fsm fuel env) c)
hangup_ends fuel env c enough o h =
    let (f, eq) = five_more fuel enough in
    rw eq (
      Yields-map IsClosing _ (ppp_bye env (ppp_fsm (suc (suc (suc (suc (suc f))))) env) c)
        (ppp_bye-IsClosing f env c o h) (λ c'. closing_ends f env c'))
