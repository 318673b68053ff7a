-- ===== src/Conntrack.antt =====
-- TCP connection tracking: src/pppd/tcp_conntrack.h and src/pppd/tcp_conntrack.c. This file holds
-- the states, the events and the tracked fields; the children hold the code over them.
pub mod Table
pub mod Fsm
pub mod Index
pub mod Invariant
pub mod Guard
pub mod Window
pub mod Path
mod Examples
use fastrg_node.Base.{ℕ, Bool, ◌+◌, ◌*◌, ◌%◌, ◌^◌, ltb, if◌then◌else◌}

-- tcp_conntrack_state_t. The field `tcp_state` is a byte; `invld` stands for every byte that is no
-- state, the sentinel among them.
pub data State : Type 0 where
  none_state : State
  syn_sent : State
  syn_recv : State
  established : State
  fin_wait : State
  close_wait : State
  last_ack : State
  time_wait : State
  close : State
  mid_stream : State
  invld : State

-- tcp_conntrack_event_t.
pub data Event : Type 0 where
  ev_syn : Event
  ev_syn_ack : Event
  ev_ack : Event
  ev_fin_lan : Event
  ev_fin_wan : Event
  ev_rst : Event
  ev_invld : Event

-- The flags byte of the TCP header, read through the four masks that the code tests.
pub record TcpFlags : Type 0 where
  pub fin : Bool
  pub syn : Bool
  pub rst : Bool
  pub ack : Bool

-- What a tcp_conntrack_view_t points at, stored by value. The FIN mask has one field for each of
-- its two bits.
pub record View : Type 0 where
  pub tcp_state : State
  pub fin_lan : Bool
  pub fin_wan : Bool
  pub expire : ℕ
  pub max_seq_end_lan : ℕ
  pub max_seq_end_wan : ℕ
  pub max_ack_lan : ℕ
  pub max_ack_wan : ℕ
  pub max_win_lan : ℕ
  pub max_win_wan : ℕ

-- What the cycle counter and its frequency read at the time of a call.
pub record Clock : Type 0 where
  pub cur_cycles : ℕ
  pub cycles_in_sec : ℕ

abbrev pub u64_mod : ℕ
u64_mod = 2 ^ 64

-- fastrg_get_cur_cycles() + (U64)seconds * fastrg_get_cycles_in_sec(), in 64 bits.
abbrev pub deadline : Clock → ℕ → ℕ
deadline c seconds = (c.cur_cycles + seconds * c.cycles_in_sec) % u64_mod

-- nat_expire_set
unfoldable pub nat_expire_set : ℕ → View → View
nat_expire_set target v = record v { expire = target }

-- nat_expire_refresh: only where the new deadline is more than one second ahead.
unfoldable pub nat_expire_refresh : Clock → ℕ → View → View
nat_expire_refresh c target v =
    if ltb ((v.expire + 1 * c.cycles_in_sec) % u64_mod) target
    then record v { expire = target }
    else v
