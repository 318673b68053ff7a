-- ===== src/Dhcp/Fsm.antt =====
-- src/dhcpd/dhcp_fsm.c: the table, the handlers and the state machine of a LAN user, and the search of
-- dhcpd (src/dhcpd/dhcpd.c) for the user of a packet.
use fastrg_node.Base.{
  ℕ, List, [], ◌∷◌, true, ◌==◌, if◌then◌else◌, Option, none, some, get_elem?, take,
}
use fastrg_node.Dhcp.{LanUser, Ccb, Status, release_lan_user, update, pick_ip_from_pool, next}

-- The handlers of the table, A_*.
pub data Handler : Type 0 where
  send_offer : Handler
  wait_request_timer : Handler
  send_ack : Handler
  wait_lease_timer : Handler
  send_nak : Handler
  send_release : Handler
  mark_ip_conflicted : Handler
  send_ack_inform : Handler

-- DHCP_STATE, as far as a user gets to it, and the end of the table.
abbrev pub s_init : ℕ
s_init = 1

abbrev pub s_offer_sent : ℕ
s_offer_sent = 3

abbrev pub s_ack_sent : ℕ
s_ack_sent = 5

-- DHCP_EVENT_TYPE, as far as the table has it.
abbrev pub e_discover : ℕ
e_discover = 1

abbrev pub e_good_request : ℕ
e_good_request = 3

abbrev pub e_bad_request : ℕ
e_bad_request = 4

abbrev pub e_timeout : ℕ
e_timeout = 7

abbrev pub e_release : ℕ
e_release = 8

abbrev pub e_decline : ℕ
e_decline = 9

abbrev pub e_inform : ℕ
e_inform = 10

-- tDHCP_STATE_TBL
pub record Row : Type 0 where
  pub state : ℕ
  pub event : ℕ
  pub next_state : ℕ
  pub hdl : List Handler

abbrev pub row : ℕ → ℕ → ℕ → List Handler → Row
row s e n hs = record { state = s; event = e; next_state = n; hdl = hs }

-- dhcp_fsm_tbl; its last row, S_DHCP_INVLD, is the end of the list.
unfoldable pub dhcp_fsm_tbl : List Row
dhcp_fsm_tbl =
    row s_init e_discover s_offer_sent (send_offer ∷ wait_request_timer ∷ [])
    ∷ row s_init e_good_request s_ack_sent (send_ack ∷ wait_lease_timer ∷ [])
    ∷ row s_init e_bad_request s_init (send_nak ∷ [])
    ∷ row s_init e_inform s_init (send_ack_inform ∷ [])
    ∷ row s_offer_sent e_discover s_offer_sent (send_offer ∷ wait_request_timer ∷ [])
    ∷ row s_offer_sent e_timeout s_init (send_release ∷ [])
    ∷ row s_offer_sent e_good_request s_ack_sent (send_ack ∷ wait_lease_timer ∷ [])
    ∷ row s_offer_sent e_bad_request s_init (send_nak ∷ send_release ∷ [])
    ∷ row s_ack_sent e_timeout s_init (send_release ∷ [])
    ∷ row s_ack_sent e_release s_init (send_release ∷ [])
    ∷ row s_ack_sent e_good_request s_ack_sent (send_ack ∷ wait_lease_timer ∷ [])
    ∷ row s_ack_sent e_bad_request s_init (send_nak ∷ send_release ∷ [])
    ∷ row s_ack_sent e_discover s_offer_sent (send_offer ∷ wait_request_timer ∷ [])
    ∷ row s_ack_sent e_decline s_init (mark_ip_conflicted ∷ [])
    ∷ row s_ack_sent e_inform s_ack_sent (send_ack_inform ∷ [])
    ∷ []

-- The first loop: to the first row of the state.
unfoldable pub rows_of_state : ℕ → List Row → List Row
rows_of_state s [] = []
rows_of_state s (r ∷ rs) = if r.state == s then r ∷ rs else rows_of_state s rs

-- The second loop: to the row of the event, among the rows of the state that follow one another.
unfoldable pub row_of_event : ℕ → ℕ → List Row → Option Row
row_of_event s ev [] = none
row_of_event s ev (r ∷ rs) =
    let rest = row_of_event s ev rs in
    if r.state == s then (if r.event == ev then some r else rest) else none

abbrev pub on_user : (LanUser → LanUser) → ℕ → Ccb → Ccb
on_user f i c = record c { per_lan_user_pool = update f i c.per_lan_user_pool }

abbrev pub arm : LanUser → LanUser
arm e = record e { timer = true }

-- A_mark_ip_conflicted: the address is in use by nobody until the timer calls release_lan_user.
abbrev pub conflicted : LanUser → LanUser
conflicted e = record e {
  used = true;
  lan_user_used = true;
  user_mac = 0;
  mac_addr = 0;
  timer = true;
}

-- The frame builders fail only where build_dhcp_offer finds no address.
abbrev pub offer_result : Option ℕ × Ccb → Status × Ccb
offer_result (none, c) = (Status.error, c)
offer_result (some i, c) = (Status.success, c)

-- A handler, for the user at `i` and the source address `mac` of the packet.
unfoldable pub run_handler : Handler → Ccb → ℕ → ℕ → Status × Ccb
run_handler send_offer c i mac = offer_result (pick_ip_from_pool c i mac)
run_handler wait_request_timer c i mac = (Status.success, on_user arm i c)
run_handler send_ack c i mac = (Status.success, c)
run_handler wait_lease_timer c i mac = (Status.success, on_user arm i c)
run_handler send_nak c i mac = (Status.success, c)
run_handler send_release c i mac = (Status.success, on_user release_lan_user i c)
run_handler mark_ip_conflicted c i mac = (Status.success, on_user conflicted i c)
run_handler send_ack_inform c i mac = (Status.success, c)

abbrev pub after : Status × Ccb → (Ccb → Status × Ccb) → Status × Ccb
after (Status.error, c) rest = (Status.error, c)
after (Status.success, c) rest = rest c

-- The handlers of a row, up to the first that fails.
unfoldable pub run_handlers : List Handler → Ccb → ℕ → ℕ → Status × Ccb
run_handlers [] c i mac = (Status.success, c)
run_handlers (h ∷ hs) c i mac = after (run_handler h c i mac) λ c'. run_handlers hs c' i mac

abbrev pub enter_state : ℕ → LanUser → LanUser
enter_state n e = record e { state = n }

unfoldable pub run_row : Option Row → Ccb → ℕ → LanUser → ℕ → Status × Ccb
run_row none c i e mac = (Status.error, c)
run_row (some r) c i e mac =
    run_handlers r.hdl
      (if e.state == r.next_state then c else on_user (enter_state r.next_state) i c) i mac

-- dhcp_fsm. There is a user at every index that the code uses.
unfoldable pub dhcp_fsm : Ccb → ℕ → ℕ → ℕ → Status × Ccb
dhcp_fsm c i mac ev = elim (get_elem? c.per_lan_user_pool i) [
  | none ↦ (Status.error, c)
  | some e ↦ run_row (row_of_event e.state ev (rows_of_state e.state dhcp_fsm_tbl)) c i e mac
]

-- The end of dhcpd: a user whose event fails is released.
abbrev pub settle : ℕ → Status × Ccb → Ccb
settle i (Status.success, c) = c
settle i (Status.error, c) = on_user release_lan_user i c

unfoldable pub serve : Ccb → ℕ → ℕ → ℕ → Ccb
serve c i mac ev = settle i (dhcp_fsm c i mac ev)

-- The loop of dhcpd over the users: the first that has the address or is not in use.
unfoldable pub find_user : ℕ → List LanUser → Option ℕ
find_user mac [] = none
find_user mac (e ∷ es) =
    let rest = find_user mac es in
    if e.user_mac == mac then some 0 else if e.lan_user_used then next rest else some 0

-- The user of the packet, with a timer that releases it; none is left where all are in use.
unfoldable pub pick_user : Ccb → ℕ → Option ℕ × Ccb
pick_user c mac = elim (find_user mac (take c.per_lan_user_pool_len c.per_lan_user_pool)) [
  | none ↦ (none, c)
  | some i ↦
      (some i, on_user (λ e. record e { user_mac = mac; lan_user_used = true; timer = true }) i c)
]
