-- ===== src/Conntrack/Guard.antt =====
-- tcp_conntrack_inbound_valid of src/pppd/tcp_conntrack.h, the guard in front of the state machine
-- for packets from the WAN side, and what the two do together.
use fastrg_node.Base.{none, ◌≡◌, ◌≢◌, Bool, true, false, ◌||◌, ◌==◌, arith}
use fastrg_node.Conntrack.{
  State, none_state, syn_sent, syn_recv, established, fin_wait, close_wait, last_ack, time_wait,
  close, mid_stream, invld, Event, ev_syn, ev_syn_ack, ev_ack, ev_fin_wan, ev_rst, TcpFlags,
}
use fastrg_node.Conntrack.Table.{tcp_conntrack_tbl}
use fastrg_node.Conntrack.Fsm.{flags_to_event, lookup_row, state_u8, event_u8}

abbrev is_event : Event → Event → Bool
is_event a b = event_u8 a == event_u8 b

-- The switch of tcp_conntrack_inbound_valid, from the event on.
unfoldable pub admits : State → Event → Bool
admits none_state e = is_event e ev_ack || is_event e ev_fin_wan || is_event e ev_rst
admits mid_stream e =
    is_event e ev_ack || is_event e ev_fin_wan || is_event e ev_rst || is_event e ev_syn_ack
admits syn_sent e = is_event e ev_syn_ack || is_event e ev_rst
admits syn_recv e =
    is_event e ev_syn_ack || is_event e ev_ack || is_event e ev_fin_wan || is_event e ev_rst
admits established e =
    is_event e ev_ack || is_event e ev_fin_wan || is_event e ev_rst || is_event e ev_syn_ack
admits fin_wait e = is_event e ev_ack || is_event e ev_fin_wan || is_event e ev_rst
admits close_wait e = is_event e ev_ack || is_event e ev_rst
admits last_ack e = is_event e ev_ack || is_event e ev_rst
admits time_wait e = is_event e ev_ack || is_event e ev_rst
admits close e = false
admits invld e = false

-- tcp_conntrack_inbound_valid
unfoldable pub inbound_valid : State → TcpFlags → Bool
unfolding admits flags_to_event
inbound_valid s flags = admits s (flags_to_event flags true)

admits-lookup :
    (s : State) (e : Event)
    → admits s e ≡ true
    → lookup_row tcp_conntrack_tbl (state_u8 s) (event_u8 e) ≢ none
unfolding admits lookup_row tcp_conntrack_tbl
admits-lookup none_state ev_syn h = ground arith
admits-lookup _ ev_syn h = ground arith
admits-lookup _ _ h = ground arith

-- The state machine has a transition for every packet that the guard admits.
inbound_valid-lookup :
    (s : State) (flags : TcpFlags)
    → inbound_valid s flags ≡ true
    → lookup_row tcp_conntrack_tbl (state_u8 s) (event_u8 (flags_to_event flags true)) ≢ none
unfolding inbound_valid
inbound_valid-lookup s flags h = admits-lookup s (flags_to_event flags true) h

-- From the WAN side a packet is admitted in CLOSE and in an invalid state never, and a SYN without
-- an ACK never.
pub inbound_valid-refuses :
    (s : State) (flags : TcpFlags)
    → inbound_valid s flags ≡ true
    → (s ≢ close) × (s ≢ invld) × (flags_to_event flags true ≢ ev_syn)
unfolding inbound_valid admits
inbound_valid-refuses none_state flags h = ground arith
inbound_valid-refuses _ flags h = ground arith
