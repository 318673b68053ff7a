-- ===== src/Dhcp/Expiry.antt =====
-- Every LAN user that has an offer or a lease has a pending timer, which ends it.
use fastrg_node.Base.{
  ℕ, zero, suc, ◌≡◌, ◌⊎◌, inl, inr, refl, sym, ap, ◌∙◌, subst, List, [], ◌∷◌, true, ◌==◌, ==_iff,
  Option, none, some, get_elem?, arith, Bool-cases, Option-cases,
}
use fastrg_node.Dhcp.{
  LanUser, Ccb, Status, release_lan_user, update, pick_ip_from_pool, offered, offer,
}
use fastrg_node.Dhcp.Fsm.{
  Handler, send_offer, wait_request_timer, send_ack, wait_lease_timer, send_nak, send_release,
  mark_ip_conflicted, send_ack_inform, Row, dhcp_fsm_tbl, rows_of_state, row_of_event, on_user, arm,
  conflicted, offer_result, run_handler, run_handlers, after, enter_state, run_row, dhcp_fsm,
  settle, serve,
}

-- A user outside S_DHCP_INIT has a timer.
unfoldable pub Armed : LanUser → Type 0
Armed e = (e.state ≡ 1) ⊎ (e.timer ≡ true)

abbrev pub AllArmed : List LanUser → Type 0
AllArmed [] = Unit {0}
AllArmed (e ∷ es) = Armed e × AllArmed es

-- All but the user at a place.
abbrev ArmedBut : ℕ → List LanUser → Type 0
ArmedBut i [] = Unit {0}
ArmedBut zero (e ∷ es) = AllArmed es
ArmedBut (suc i) (e ∷ es) = Armed e × ArmedBut i es

but : (i : ℕ) (es : List LanUser) → AllArmed es → ArmedBut i es
but i [] h = tt
but zero (e ∷ es) h = h.1
but (suc i) (e ∷ es) h = (h.0, but i es h.1)

-- A change of that user leaves the others as they are, and one that arms it arms all.
update-but :
    (f : LanUser → LanUser) (i : ℕ) (es : List LanUser) → ArmedBut i es → ArmedBut i (update f i es)
update-but f i [] h = tt
update-but f zero (e ∷ es) h = h
update-but f (suc i) (e ∷ es) h = (h.0, update-but f i es h.1)

update-Armed :
    (f : LanUser → LanUser) (i : ℕ) (es : List LanUser)
    → ((e : LanUser) → Armed (f e))
    → ArmedBut i es
    → AllArmed (update f i es)
update-Armed f i [] h k = tt
update-Armed f zero (e ∷ es) h k = (h e, k)
update-Armed f (suc i) (e ∷ es) h k = (k.0, update-Armed f i es h k.1)

-- A change that touches neither state nor timer.
keeps :
    (f : LanUser → LanUser) (j : ℕ) (es : List LanUser)
    → ((e : LanUser) → Armed e → Armed (f e))
    → AllArmed es
    → AllArmed (update f j es)
keeps f j [] h k = tt
keeps f zero (e ∷ es) h k = (h e k.0, k.1)
keeps f (suc j) (e ∷ es) h k = (k.0, keeps f j es h k.1)

keeps-but :
    (f : LanUser → LanUser) (j i : ℕ) (es : List LanUser)
    → ((e : LanUser) → Armed e → Armed (f e))
    → ArmedBut i es
    → ArmedBut i (update f j es)
keeps-but f j i [] h k = tt
keeps-but f zero zero (e ∷ es) h k = k
keeps-but f zero (suc i) (e ∷ es) h k = (h e k.0, k.1)
keeps-but f (suc j) zero (e ∷ es) h k = keeps f j es h k
keeps-but f (suc j) (suc i) (e ∷ es) h k = (k.0, keeps-but f j i es h k.1)

offer-Armed : (mac : ℕ) (e : LanUser) → Armed e → Armed (offer mac e)
unfolding Armed
offer-Armed mac e h = ground (arith, h)

release-Armed : (e : LanUser) → Armed (release_lan_user e)
unfolding Armed release_lan_user
release-Armed e = inl refl

arm-Armed : (e : LanUser) → Armed (arm e)
unfolding Armed
arm-Armed e = inr refl

conflicted-Armed : (e : LanUser) → Armed (conflicted e)
unfolding Armed
conflicted-Armed e = inr refl

-- What dhcpd leaves, whether the handlers succeed or not.
abbrev Settled : ℕ → Status × Ccb → Type 0
Settled i r = AllArmed ((settle i r).per_lan_user_pool)

abbrev But : ℕ → Ccb → Type 0
But i c = ArmedBut i c.per_lan_user_pool

-- An offer leaves the others armed; what comes next settles the user.
offered-Settled :
    (c : Ccb) (i mac : ℕ) (o : Option ℕ) (rest : Ccb → Status × Ccb)
    → But i c
    → ((c' : Ccb) → But i c' → Settled i (rest c'))
    → Settled i (after (offer_result (offered mac c o)) rest)
unfolding offered
offered-Settled c i mac none rest h k =
    update-Armed release_lan_user i c.per_lan_user_pool release-Armed h
offered-Settled c i mac (some j) rest h k =
    k _ (keeps-but (offer mac) j i c.per_lan_user_pool (offer-Armed mac) h)

-- Handlers that settle the user whatever it was before.
abbrev Ends : List Handler → Type 0
Ends hs = (c : Ccb) (i mac : ℕ) → But i c → Settled i (run_handlers hs c i mac)

-- Handlers that change nothing.
abbrev Quiet : List Handler → Type 0
Quiet hs = (c : Ccb) (i mac : ℕ) → run_handlers hs c i mac ≡ (Status.success, c)

RowFits : Row → Type 0
RowFits r = Ends r.hdl ⊎ ((r.state ≡ r.next_state) × Quiet r.hdl)

abbrev AllFit : List Row → Type 0
AllFit [] = Unit {0}
AllFit (r ∷ rs) = RowFits r × AllFit rs

armed_last : (c : Ccb) (i : ℕ) → But i c → AllArmed ((on_user arm i c).per_lan_user_pool)
armed_last c i h = update-Armed arm i c.per_lan_user_pool arm-Armed h

offer_row : Ends (send_offer ∷ wait_request_timer ∷ [])
unfolding run_handlers run_handler pick_ip_from_pool
offer_row c i mac h =
    offered-Settled c i mac _ (λ c'. run_handlers (wait_request_timer ∷ []) c' i mac) h
      (λ c' h'. armed_last c' i h')

ack_row : Ends (send_ack ∷ wait_lease_timer ∷ [])
unfolding run_handlers run_handler
ack_row c i mac h = armed_last c i h

release_row : Ends (send_release ∷ [])
unfolding run_handlers run_handler
release_row c i mac h = update-Armed release_lan_user i c.per_lan_user_pool release-Armed h

nak_release_row : Ends (send_nak ∷ send_release ∷ [])
unfolding run_handlers run_handler
nak_release_row c i mac h = update-Armed release_lan_user i c.per_lan_user_pool release-Armed h

decline_row : Ends (mark_ip_conflicted ∷ [])
unfolding run_handlers run_handler
decline_row c i mac h = update-Armed conflicted i c.per_lan_user_pool conflicted-Armed h

nak_row : Quiet (send_nak ∷ [])
unfolding run_handlers run_handler
nak_row c i mac = refl

inform_row : Quiet (send_ack_inform ∷ [])
unfolding run_handlers run_handler
inform_row c i mac = refl

dhcp_fsm_tbl-AllFit : AllFit dhcp_fsm_tbl
unfolding dhcp_fsm_tbl RowFits
dhcp_fsm_tbl-AllFit = (
  inl offer_row,
  (
    inl ack_row,
    (
      inr (refl, nak_row),
      (
        inr (refl, inform_row),
        (
          inl offer_row,
          (
            inl release_row,
            (
              inl ack_row,
              (
                inl nak_release_row,
                (
                  inl release_row,
                  (
                    inl release_row,
                    (
                      inl ack_row,
                      (
                        inl nak_release_row,
                        (inl offer_row, (inl decline_row, (inr (refl, inform_row), tt))),
                      ),
                    ),
                  ),
                ),
              ),
            ),
          ),
        ),
      ),
    ),
  ),
)

rows_of_state-AllFit : (s : ℕ) (rs : List Row) → AllFit rs → AllFit (rows_of_state s rs)
unfolding rows_of_state
rows_of_state-AllFit s [] h = tt
rows_of_state-AllFit s (r ∷ rs) h = elim (Bool-cases (r.state == s)) [
  | inl e ↦ rw e h
  | inr e ↦ rw e (rows_of_state-AllFit s rs h.1)
]

-- The row that is found is one of the state.
row_of_event-RowFits :
    (s ev : ℕ) (rs : List Row) (r : Row)
    → AllFit rs
    → row_of_event s ev rs ≡ some r
    → RowFits r × (r.state ≡ s)
unfolding row_of_event
row_of_event-RowFits s ev [] r h e = ground (arith, e)
row_of_event-RowFits s ev (x ∷ rs) r h e = elim (Bool-cases (x.state == s)) [
  | inr k ↦ absurd (ground (arith, e, k))
  | inl k ↦ elim (Bool-cases (x.event == ev)) [
    | inl k' ↦
        let same : x ≡ r = ground (arith, e, k, k') in
        (subst RowFits same h.0, ap (λ y. y.state) (sym same) ∙ (==_iff x.state s).0 k)
    | inr k' ↦ row_of_event-RowFits s ev rs r h.1 (ground (arith, e, k, k'))
  ]
]

run_row-Settled :
    (o : Option Row) (c : Ccb) (i : ℕ) (e : LanUser) (mac : ℕ)
    → ((r : Row) → o ≡ some r → RowFits r × (r.state ≡ e.state))
    → AllArmed c.per_lan_user_pool
    → Settled i (run_row o c i e mac)
unfolding run_row RowFits
run_row-Settled none c i e mac fits h =
    update-Armed release_lan_user i c.per_lan_user_pool release-Armed (but i c.per_lan_user_pool h)
run_row-Settled (some r) c i e mac fits h = elim ((fits r refl).0) [
  | inl ends ↦ elim (Bool-cases (e.state == r.next_state)) [
    | inl k ↦ rw k (ends c i mac (but i c.per_lan_user_pool h))
    | inr k ↦ rw k (
        ends (on_user (enter_state r.next_state) i c) i mac (
          update-but (enter_state r.next_state) i c.per_lan_user_pool
            (but i c.per_lan_user_pool h)))
  ]
  | inr (same, quiet) ↦
      rw ((==_iff e.state r.next_state).1 (sym ((fits r refl).1) ∙ same), quiet c i mac) h
]

-- Where every user outside S_DHCP_INIT has a pending timer, that still holds after dhcp_fsm on any
-- event for any user, with the release that dhcpd makes where dhcp_fsm fails.
pub serve-AllArmed :
    (c : Ccb) (i mac ev : ℕ)
    → AllArmed c.per_lan_user_pool
    → AllArmed ((serve c i mac ev).per_lan_user_pool)
unfolding serve dhcp_fsm
serve-AllArmed c i mac ev h = elim (Option-cases (get_elem? c.per_lan_user_pool i)) [
  | inl e ↦
      rw (dhcp_fsm, e)
        (update-Armed release_lan_user i c.per_lan_user_pool release-Armed
          (but i c.per_lan_user_pool h))
  | inr (u, e) ↦
      rw (dhcp_fsm, e)
        (run_row-Settled _ c i u mac
          (λ r k.
            row_of_event-RowFits u.state ev _ r
              (rows_of_state-AllFit u.state dhcp_fsm_tbl dhcp_fsm_tbl-AllFit) k)
          h)
]
