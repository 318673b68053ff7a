-- ===== src/Dhcp/Timeout.antt =====
-- The timeout of an offer or a lease, in src/dhcpd/dhcp_fsm.c.
use fastrg_node.Base.{
  ℕ, false, ◌≡◌, ◌⊎◌, inl, inr, refl, sym, ◌∙◌, subst, [], ◌∷◌, ◌==◌, ==_iff, some, get_elem?,
  arith, Bool-cases, ◌≢◌,
}
use fastrg_node.Dhcp.{LanUser, Ccb, Status, release_lan_user}
use fastrg_node.Dhcp.Leases.{get_elem?-update, get_elem?-update_ne}
use fastrg_node.Dhcp.Fsm.{
  send_release, Row, row, dhcp_fsm_tbl, rows_of_state, row_of_event, on_user, e_timeout, s_init,
  run_handler, run_handlers, enter_state, run_row, dhcp_fsm,
}

-- The rows of the timeout.
timeout_of : ℕ → Row
timeout_of s = row s e_timeout s_init (send_release ∷ [])

offer_timeout : row_of_event 3 e_timeout (rows_of_state 3 dhcp_fsm_tbl) ≡ some (timeout_of 3)
unfolding row_of_event rows_of_state dhcp_fsm_tbl timeout_of
offer_timeout = refl

ack_timeout : row_of_event 5 e_timeout (rows_of_state 5 dhcp_fsm_tbl) ≡ some (timeout_of 5)
unfolding row_of_event rows_of_state dhcp_fsm_tbl timeout_of
ack_timeout = refl

abbrev FindsTimeout : ℕ → Type 0
FindsTimeout s = row_of_event s e_timeout (rows_of_state s dhcp_fsm_tbl) ≡ some (timeout_of s)

find_timeout : (s : ℕ) → (s ≡ 3) ⊎ (s ≡ 5) → FindsTimeout s
find_timeout s (inl e) = subst FindsTimeout (sym e) offer_timeout
find_timeout s (inr e) = subst FindsTimeout (sym e) ack_timeout

run_row_timeout :
    (c : Ccb) (i mac s : ℕ) (e : LanUser)
    → (e.state ≡ 3) ⊎ (e.state ≡ 5)
    → run_row (some (timeout_of s)) c i e mac
      ≡ (Status.success, on_user release_lan_user i (on_user (enter_state s_init) i c))
unfolding run_row timeout_of run_handlers run_handler
run_row_timeout c i mac s e h = elim (Bool-cases (e.state == 1)) [
  | inl k ↦ absurd (ground (arith, h, (==_iff e.state 1).0 k))
  | inr k ↦ rw k refl
]

-- When the timer of a user that has an offer or a lease expires, dhcp_fsm succeeds: its address and the
-- user are no longer in use, the user's MAC address is cleared, its timer is stopped, its state is 1,
-- S_DHCP_INIT, and the rest of its entry and the other users do not change.
pub dhcp_fsm-timeout :
    (c : Ccb) (i mac : ℕ) (e : LanUser)
    → get_elem? c.per_lan_user_pool i ≡ some e
    → (e.state ≡ 3) ⊎ (e.state ≡ 5)
    → ((dhcp_fsm c i mac e_timeout).0 ≡ Status.success)
      × (get_elem? (((dhcp_fsm c i mac e_timeout).1).per_lan_user_pool) i
          ≡ some (record e {
            state = 1;
            lan_user_used = false;
            user_mac = 0;
            timer = false;
            used = false;
          }))
      × ((j : ℕ)
          → i ≢ j
          → get_elem? (((dhcp_fsm c i mac e_timeout).1).per_lan_user_pool) j
            ≡ get_elem? c.per_lan_user_pool j)
unfolding dhcp_fsm release_lan_user
dhcp_fsm-timeout c i mac e at_i h =
    rw (dhcp_fsm, at_i, find_timeout e.state h, run_row_timeout c i mac e.state e h)
      (
        refl,
        get_elem?-update release_lan_user _ i (enter_state 1 e)
            (get_elem?-update (enter_state 1) c.per_lan_user_pool i e at_i),
        λ j ne.
            get_elem?-update_ne release_lan_user _ i j (λ k. ne (sym k))
            ∙ get_elem?-update_ne (enter_state 1) c.per_lan_user_pool i j (λ k. ne (sym k)),
      )
