-- ===== src/Ppp/Rows.antt =====
-- The rows of the tables of src/pppd/fsm.c, and the two loops of PPP_FSM that look one up.
use fastrg_node.Base.{
  ℕ, suc, List, [], ◌∷◌, Option, none, some, Bool, not, ◌==◌, if◌then◌else◌, get_elem?,
}
use fastrg_node.Ppp.{
  State, init, starting, closed, stopped, closing, stopping, request_sent, ack_received, ack_sent,
  opened, invld, Event, e_up, e_down, e_open, e_close, e_timeout_counter_positive,
  e_timeout_counter_expired, e_recv_good_config_request, e_recv_bad_config_request,
  e_recv_config_ack, e_recv_config_nak_rej, e_recv_terminate_request, e_recv_terminate_ack,
  e_recv_unknown_code, e_recv_good_code_protocol_reject, e_recv_bad_code_protocol_reject,
  e_recv_echo_request, e_recv_echo_reply, e_unknown,
}

-- The handlers that the tables name, A_*.
pub data Action : Type 0 where
  a_create_close_to_lower_layer : Action
  a_create_down_event : Action
  a_create_up_event : Action
  a_init_restart_config : Action
  a_init_restart_count : Action
  a_init_restart_termin : Action
  a_send_code_reject : Action
  a_send_config_ack : Action
  a_send_config_nak_rej : Action
  a_send_config_request : Action
  a_send_echo_reply : Action
  a_send_padt : Action
  a_send_terminate_ack : Action
  a_send_terminate_request : Action
  a_this_layer_down : Action
  a_this_layer_finish : Action
  a_this_layer_start : Action
  a_this_layer_up : Action
  a_zero_restart_count : Action

-- tPPP_STATE_TBL; the handlers are the list up to the first null pointer.
pub record Row : Type 0 where
  pub state : State
  pub event : Event
  pub next_state : State
  pub hdl : List Action

abbrev pub row : State → Event → State → List Action → Row
row s e n h = record { state = s; event = e; next_state = n; hdl = h }

-- The numbers of the enums.
abbrev pub state_u8 : State → ℕ
state_u8 init = 0
state_u8 starting = 1
state_u8 closed = 2
state_u8 stopped = 3
state_u8 closing = 4
state_u8 stopping = 5
state_u8 request_sent = 6
state_u8 ack_received = 7
state_u8 ack_sent = 8
state_u8 opened = 9
state_u8 invld = 10

abbrev pub event_u16 : Event → ℕ
event_u16 e_up = 0
event_u16 e_down = 1
event_u16 e_open = 2
event_u16 e_close = 3
event_u16 e_timeout_counter_positive = 4
event_u16 e_timeout_counter_expired = 5
event_u16 e_recv_good_config_request = 6
event_u16 e_recv_bad_config_request = 7
event_u16 e_recv_config_ack = 8
event_u16 e_recv_config_nak_rej = 9
event_u16 e_recv_terminate_request = 10
event_u16 e_recv_terminate_ack = 11
event_u16 e_recv_unknown_code = 12
event_u16 e_recv_good_code_protocol_reject = 13
event_u16 e_recv_bad_code_protocol_reject = 14
event_u16 e_recv_echo_request = 15
event_u16 e_recv_echo_reply = 16
event_u16 e_unknown = 17

abbrev pub is_state : State → State → Bool
is_state s t = state_u8 s == state_u8 t

abbrev pub is_event : Event → Event → Bool
is_event e f = event_u16 e == event_u16 f

-- The first loop: the position and the rest of the table from the first row that has the state;
-- `none` where the sentinel comes first.
unfoldable pub find_state : ℕ → List Row → State → Option (ℕ × List Row)
find_state i [] s = none
find_state i (r ∷ rs) s =
    let rest = find_state (suc i) rs s in
    if is_state r.state invld then none else if is_state r.state s then some (i, r ∷ rs) else rest

-- The second loop: it goes on while the rows have the state, and stops at the event.
unfoldable pub find_event : ℕ → List Row → State → Event → Option (ℕ × Row)
find_event i [] s e = none
find_event i (r ∷ rs) s e =
    let rest = find_event (suc i) rs s e in
    if not (is_state r.state s) then none else if is_event r.event e then some (i, r) else rest

-- What the two loops end in.
pub data Lookup : Type 0 where
  unknown_state : Lookup
  no_transition : Lookup
  transition : ℕ → Row → Lookup

unfoldable pub locate : List Row → State → Event → Lookup
unfolding find_state find_event
locate tbl s e = elim (find_state 0 tbl s) [
  | none ↦ unknown_state
  | some (i, rows) ↦ elim (find_event i rows s e) [
    | none ↦ no_transition
    | some (j, r) ↦ transition j r
  ]
]

-- ppp_fsm_tbl[...][i].hdl[j], where it is no null pointer.
unfoldable pub handler_at : List Row → ℕ → ℕ → Option Action
handler_at tbl i j = elim (get_elem? tbl i) [ none ↦ none | some r ↦ get_elem? r.hdl j ]
