-- ===== src/Ppp.antt =====
-- The PPP automata: src/pppd/fsm.c and src/pppd/fsm.h, with the parts of src/pppd/pppd.c,
-- src/pppd/pppd.h, src/pppd/header.h and src/dhcpd6/dhcpd6.c that their handlers call. This file
-- holds the control block; the children hold the code over it.
pub mod Rows
pub mod Lcp
pub mod Ncp
pub mod Session
pub mod Handlers
pub mod Fsm
pub mod LayerUp
pub mod Total
pub mod Gate
pub mod Ended
pub mod Hangup
pub mod Opened
pub mod Negotiation
mod Examples
use fastrg_node.Base.{ℕ, Bool, List, ◌∷◌, Option}

-- PPP_CP_*: the control protocol that is being driven.
pub data Cp : Type 0 where
  lcp : Cp
  ipcp : Cp
  ipv6cp : Cp

-- PPP_STATE; `invld` is the sentinel of the tables.
pub data State : Type 0 where
  init : State
  starting : State
  closed : State
  stopped : State
  closing : State
  stopping : State
  request_sent : State
  ack_received : State
  ack_sent : State
  opened : State
  invld : State

-- PPP_EVENT_TYPE.
pub data Event : Type 0 where
  e_up : Event
  e_down : Event
  e_open : Event
  e_close : Event
  e_timeout_counter_positive : Event
  e_timeout_counter_expired : Event
  e_recv_good_config_request : Event
  e_recv_bad_config_request : Event
  e_recv_config_ack : Event
  e_recv_config_nak_rej : Event
  e_recv_terminate_request : Event
  e_recv_terminate_ack : Event
  e_recv_unknown_code : Event
  e_recv_good_code_protocol_reject : Event
  e_recv_bad_code_protocol_reject : Event
  e_recv_echo_request : Event
  e_recv_echo_reply : Event
  e_unknown : Event

-- The protocol number in a control protocol's ppp_payload, as far as A_this_layer_up tells them
-- apart.
pub data Protocol : Type 0 where
  lcp_protocol : Protocol
  ipcp_protocol : Protocol
  ipv6cp_protocol : Protocol
  other_protocol : Protocol

pub data Auth : Type 0 where
  pap : Auth
  chap : Auth
  other_auth : Auth

-- The two timers that are handed to the automata.
pub data Timer : Type 0 where
  ppp_timer : Timer
  ipv6cp_timer : Timer

-- What a running retransmission timer calls back.
pub data Callback : Type 0 where
  send_config_request : Cp → Callback
  send_terminate_request : Cp → Callback

-- What the code sends or reports.
pub data Output : Type 0 where
  config_request : Cp → ℕ → Output
  config_ack : Cp → Output
  config_nak_rej : Cp → Output
  terminate_request : Cp → Output
  terminate_ack : Cp → Output
  code_reject : Cp → Output
  echo_reply : Cp → Output
  padt : Output
  pap_request : Output
  dhcp6_solicit : Output
  dns_proxy_started : ℕ → ℕ → Output
  connected_reported : Output
  disconnected_reported : Output
  redial_requested : Output

-- A control_protocol_t with the entries of `identifier` and `config_request_pending` for it.
pub record Automaton : Type 0 where
  pub state : State
  pub timer_counter : ℕ
  pub ppp_protocol : Protocol
  pub identifier : ℕ
  pub config_request_pending : Bool

pub data Dhcp6State : Type 0 where
  dhcp6_idle : Dhcp6State
  dhcp6_soliciting : Dhcp6State
  dhcp6_requesting : Dhcp6State
  dhcp6_bound : Dhcp6State
  dhcp6_renewing : Dhcp6State

-- The fields of ppp_ccb_t that the automata and the session teardown read or write. A timer of
-- which only the callback of one kind is ever set is a Boolean: running or not. `outputs` lists
-- what was sent and reported, the latest first.
pub record Ccb : Type 0 where
  pub cp_id : Cp
  pub lcp_cp : Automaton
  pub ipcp_cp : Automaton
  pub ipv6cp_cp : Automaton
  pub phase : ℕ
  pub session_id : ℕ
  pub hsi_ipv4 : ℕ
  pub hsi_ipv4_gw : ℕ
  pub hsi_primary_dns : ℕ
  pub hsi_secondary_dns : ℕ
  pub mru : ℕ
  pub lcp_auth_rejected : Bool
  pub lcp_mru_rejected : Bool
  pub lcp_magic_rejected : Bool
  pub peer_requires_auth : Bool
  pub auth_method : Auth
  pub echo_miss_count : ℕ
  pub ppp_bool : Bool
  pub dp_start_bool : Bool
  pub redial_pending : Bool
  pub ppp_processing : Bool
  pub pppoe_active : Bool
  pub ipv6_enabled : Bool
  pub ipv6cp_up : Bool
  pub dhcp6_pd_ready : Bool
  pub ipv6_dp_bool : Bool
  pub dhcp6_state : Dhcp6State
  pub ppp : Option Callback
  pub ppp_ipv6cp : Option Callback
  pub ppp_alive : Bool
  pub pppoe : Bool
  pub dhcp6_timer : Bool
  pub ra_timer : Bool
  pub outputs : List Output

-- STATUS. The value that FALSE stands for as a STATUS is part of `Env`.
pub data Status : Type 0 where
  success : Status
  error : Status

-- What the automata take from elsewhere. `pap_fits`: the credentials fit the PAP builder's buffer.
-- `reject_builds`: build_code_reject succeeds. `false_status`: FALSE, read as a STATUS; the value
-- comes from a header of another library. `max_recv_unit`: MAX_RECV_UNIT.
pub record Env : Type 0 where
  pub pap_fits : Bool
  pub reject_builds : Bool
  pub false_status : Status
  pub max_recv_unit : ℕ

-- A computation over the control block: `none` where the fuel ran out.
abbrev pub M : Type 0
M = Ccb → Option (Status × Ccb)

-- control_protocol[cp].
unfoldable pub automaton : Cp → Ccb → Automaton
automaton lcp c = c.lcp_cp
automaton ipcp c = c.ipcp_cp
automaton ipv6cp c = c.ipv6cp_cp

unfoldable pub set_automaton : Cp → Automaton → Ccb → Ccb
set_automaton lcp a c = record c { lcp_cp = a }
set_automaton ipcp a c = record c { ipcp_cp = a }
set_automaton ipv6cp a c = record c { ipv6cp_cp = a }

unfoldable pub set_state : Cp → State → Ccb → Ccb
unfolding automaton set_automaton
set_state cp s c = set_automaton cp (record (automaton cp c) { state = s }) c

unfoldable pub set_timer_counter : Cp → ℕ → Ccb → Ccb
unfolding automaton set_automaton
set_timer_counter cp n c = set_automaton cp (record (automaton cp c) { timer_counter = n }) c

unfoldable pub set_pending : Cp → Bool → Ccb → Ccb
unfolding automaton set_automaton
set_pending cp b c = set_automaton cp (record (automaton cp c) { config_request_pending = b }) c

-- Hand a frame to wan_ctrl_tx, or a report to its receiver.
unfoldable pub emit : Output → Ccb → Ccb
emit o c = record c { outputs = o ∷ c.outputs }

-- rte_timer_stop and rte_timer_reset on the timer that an automaton was handed.
unfoldable pub timer_set : Timer → Option Callback → Ccb → Ccb
timer_set t cb c = record c {
  ppp = elim t [ ppp_timer ↦ cb | ipv6cp_timer ↦ c.ppp ];
  ppp_ipv6cp = elim t [ ppp_timer ↦ c.ppp_ipv6cp | ipv6cp_timer ↦ cb ];
}
