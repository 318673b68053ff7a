-- ===== src/Conntrack/Invariant.antt =====
-- What the state machine of src/pppd/tcp_conntrack.c keeps true of a tracked connection.
use fastrg_node.Base.{◌+◌, ◌*◌, ◌%◌, ◌≤◌, ◌≡◌, ◌⊎◌, ◌≢◌, Bool, true, false, ◌||◌, arith, ◌↔◌}
use fastrg_node.Conntrack.{
  State, none_state, syn_recv, established, fin_wait, close_wait, last_ack, time_wait, close,
  mid_stream, invld, Event, ev_syn, ev_ack, ev_invld, TcpFlags, View, Clock, deadline, u64_mod,
}
use fastrg_node.Conntrack.Table.{error, timeout}
use fastrg_node.Conntrack.Fsm.{step, fsm_view, flags_to_event}

-- The FIN mask that a state goes with: none before the first FIN, one or both in FIN_WAIT, the WAN
-- side's alone in CLOSE_WAIT, both in LAST_ACK, and at least the WAN side's in TIME_WAIT.
abbrev pub FinsFit : State → Bool → Bool → Type 0
FinsFit fin_wait lan wan = (lan || wan) ≡ true
FinsFit close_wait lan wan = (lan ≡ false) × (wan ≡ true)
FinsFit last_ack lan wan = (lan ≡ true) × (wan ≡ true)
FinsFit time_wait lan wan = wan ≡ true
FinsFit close lan wan = Unit {0}
FinsFit invld lan wan = Unit {0}
FinsFit _ lan wan = (lan ≡ false) × (wan ≡ false)

abbrev pub IsTracked : View → Type 0
IsTracked v = FinsFit v.tcp_state v.fin_lan v.fin_wan

step-IsTracked_at :
    (s : State) (e : Event) (c : Clock) (v : View) (reply : Bool)
    → FinsFit s v.fin_lan v.fin_wan
    → IsTracked (step c (record v { tcp_state = s }) e reply).0
unfolding step
step-IsTracked_at none_state ev_syn c v reply h = ground arith
step-IsTracked_at _ ev_syn c v reply h = ground arith
step-IsTracked_at _ _ c v reply h = ground arith

-- Every packet, in either direction, keeps the FIN mask fitting the state.
pub fsm_view-IsTracked :
    (c : Clock) (v : View) (flags : TcpFlags) (is_reply : Bool)
    → IsTracked v
    → IsTracked (fsm_view c v flags is_reply).0
unfolding fsm_view
fsm_view-IsTracked c v flags is_reply h =
    step-IsTracked_at v.tcp_state (flags_to_event flags is_reply) c v is_reply h

-- The deadline after a packet: that of the state the connection is in now, or, where an
-- acknowledgement leaves the state as it was and the stored deadline is at most one second short
-- of it, the stored one.
abbrev pub Armed : Clock → View → View → Type 0
Armed c v w =
    (w.expire ≡ deadline c (timeout w.tcp_state))
    ⊎ ((w.tcp_state ≡ v.tcp_state)
        × (w.expire ≡ v.expire)
        × (deadline c (timeout w.tcp_state) ≤ (v.expire + 1 * c.cycles_in_sec) % u64_mod))

step-Armed_at :
    (s : State) (e : Event) (c : Clock) (v : View) (reply : Bool)
    → let w = (step c (record v { tcp_state = s }) e reply).0 in
      (w ≡ record v { tcp_state = s }) ⊎ Armed c (record v { tcp_state = s }) w
unfolding step
step-Armed_at none_state ev_syn c v reply = ground arith
step-Armed_at _ ev_syn c v reply = ground arith
step-Armed_at _ _ c v reply = ground arith

-- A packet leaves the tracked fields as they are, or arms the deadline of the state it leads to;
-- only where the state stays may the deadline stay too, at most one second short.
pub fsm_view-Armed :
    (c : Clock) (v : View) (flags : TcpFlags) (is_reply : Bool)
    → let w = (fsm_view c v flags is_reply).0 in (w ≡ v) ⊎ Armed c v w
unfolding fsm_view
fsm_view-Armed c v flags is_reply =
    step-Armed_at v.tcp_state (flags_to_event flags is_reply) c v is_reply

step-status_at :
    (s : State) (e : Event) (c : Clock) (v : View) (reply : Bool)
    → let r = step c (record v { tcp_state = s }) e reply in
      ((r.1 ≡ error) ↔ ((s ≡ invld) × (e ≢ ev_invld)))
      × (r.1 ≡ error → r.0 ≡ record v { tcp_state = s })
unfolding step
step-status_at none_state ev_syn c v reply = ground arith
step-status_at _ ev_syn c v reply = ground arith
step-status_at _ _ c v reply = ground arith

-- The state machine fails exactly on a packet with an event that meets an invalid state, and a
-- failing call changes nothing.
fsm_view-status :
    (c : Clock) (v : View) (flags : TcpFlags) (is_reply : Bool)
    → let r = fsm_view c v flags is_reply in
      ((r.1 ≡ error) ↔ ((v.tcp_state ≡ invld) × (flags_to_event flags is_reply ≢ ev_invld)))
      × (r.1 ≡ error → r.0 ≡ v)
unfolding fsm_view
fsm_view-status c v flags is_reply =
    step-status_at v.tcp_state (flags_to_event flags is_reply) c v is_reply

-- The fields of the sequence window.
abbrev pub SameWindow : View → View → Type 0
SameWindow v w =
    (w.max_seq_end_lan ≡ v.max_seq_end_lan)
    × (w.max_seq_end_wan ≡ v.max_seq_end_wan)
    × (w.max_ack_lan ≡ v.max_ack_lan)
    × (w.max_ack_wan ≡ v.max_ack_wan)
    × (w.max_win_lan ≡ v.max_win_lan)
    × (w.max_win_wan ≡ v.max_win_wan)

-- How a connection gets to be ESTABLISHED: it is already, or the third packet of the handshake
-- arrives, or the WAN side acknowledges in MID_STREAM.
abbrev pub Opens : State → Event → Bool → Type 0
Opens s e reply =
    (s ≡ established)
    ⊎ ((s ≡ syn_recv) × (e ≡ ev_ack))
    ⊎ ((s ≡ mid_stream) × (e ≡ ev_ack) × (reply ≡ true))

step-Opens_at :
    (s : State) (e : Event) (c : Clock) (v : View) (reply : Bool)
    → let w = (step c (record v { tcp_state = s }) e reply).0 in
      SameWindow v w × (w.tcp_state ≡ established → Opens s e reply)
unfolding step
step-Opens_at none_state ev_syn c v reply = ground arith
step-Opens_at _ ev_syn c v reply = ground arith
step-Opens_at _ _ c v reply = ground arith

-- A packet that leaves a connection ESTABLISHED found it so, or completed a handshake, or came as
-- an acknowledgement from the WAN side in MID_STREAM; the window fields are never touched here.
pub fsm_view-Opens :
    (c : Clock) (v : View) (flags : TcpFlags) (is_reply : Bool)
    → let w = (fsm_view c v flags is_reply).0 in
      SameWindow v w
      × (w.tcp_state ≡ established → Opens v.tcp_state (flags_to_event flags is_reply) is_reply)
unfolding fsm_view
fsm_view-Opens c v flags is_reply =
    step-Opens_at v.tcp_state (flags_to_event flags is_reply) c v is_reply
