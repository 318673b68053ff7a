-- ===== src/Conntrack/Fsm.antt =====
-- src/pppd/tcp_conntrack.h and src/pppd/tcp_conntrack.c: the event of a packet, the index that
-- tcp_conntrack_build_index derives from the table, and the state machine that looks rows up in it.
use fastrg_node.Base.{
  ℕ, zero, suc, ◌%◌, List, [], ◌∷◌, Option, none, some, Bool, true, false, ◌&&◌, ltb, leb, ◌==◌,
  if◌then◌else◌, get_elem?,
}
use fastrg_node.Conntrack.{
  State, none_state, syn_sent, syn_recv, established, fin_wait, close_wait, last_ack, time_wait,
  close, mid_stream, invld, Event, ev_syn, ev_syn_ack, ev_ack, ev_fin_lan, ev_fin_wan, ev_rst,
  ev_invld, TcpFlags, View, Clock,
}
use fastrg_node.Conntrack.Table.{Status, success, error, Action, run_action, Row, tcp_conntrack_tbl}

-- tcp_flags_to_event
unfoldable pub flags_to_event : TcpFlags → Bool → Event
flags_to_event f is_reply =
    if f.rst
    then ev_rst
    else if f.syn && f.ack
    then ev_syn_ack
    else if f.syn
    then ev_syn
    else if f.fin
    then (if is_reply then ev_fin_wan else ev_fin_lan)
    else if f.ack
    then ev_ack
    else ev_invld

-- The numbers of the enums.
abbrev pub state_u8 : State → ℕ
state_u8 none_state = 0
state_u8 syn_sent = 1
state_u8 syn_recv = 2
state_u8 established = 3
state_u8 fin_wait = 4
state_u8 close_wait = 5
state_u8 last_ack = 6
state_u8 time_wait = 7
state_u8 close = 8
state_u8 mid_stream = 9
state_u8 invld = 10

abbrev pub event_u8 : Event → ℕ
event_u8 ev_syn = 0
event_u8 ev_syn_ack = 1
event_u8 ev_ack = 2
event_u8 ev_fin_lan = 3
event_u8 ev_fin_wan = 4
event_u8 ev_rst = 5
event_u8 ev_invld = 6

abbrev pub nstate : ℕ
nstate = 10

abbrev pub nevent : ℕ
nevent = 6

-- tcp_fsm_idx and tcp_state_has_rows. A cell of the first is the byte of an int8_t, so that it is
-- negative from 128 up, and -1 is 255.
pub record Index : Type 0 where
  pub idx : ℕ → ℕ → ℕ
  pub has_rows : ℕ → Bool

abbrev pub is_negative : ℕ → Bool
is_negative b = leb 128 b

-- The memset and the static storage that the build starts from.
unfoldable pub empty_index : Index
empty_index = record { idx = λ s e. 255; has_rows = λ s. false }

-- One round of the loop: the row at position `i` has state `s` and event `e`.
unfoldable pub enter : Index → ℕ → ℕ → ℕ → Index
enter ix i s e =
    if ltb s nstate && ltb e nevent
    then record {
      idx =
          λ s' e'. if s' == s && e' == e && is_negative (ix.idx s e) then i % 256 else ix.idx s' e';
      has_rows = λ s'. if s' == s then true else ix.has_rows s';
    }
    else ix

-- The loop from position `i`, which the sentinel ends.
unfoldable pub build_from : ℕ → List Row → Index → Index
unfolding enter
build_from i [] ix = ix
build_from i (r ∷ rs) ix =
    let rest = build_from (suc i) rs (enter ix i (state_u8 r.state) (event_u8 r.event)) in
    if state_u8 r.state == nstate then ix else rest

-- tcp_conntrack_build_index, for any table.
unfoldable pub build_index : List Row → Index
unfolding build_from empty_index
build_index tbl = build_from 0 tbl empty_index

-- The handler chain, at most `n` calls of it: the first ERROR ends it.
unfoldable pub run_handlers : ℕ → Clock → Bool → List Action → View → View × Status
unfolding run_action
run_handlers zero c reply hdl v = (v, success)
run_handlers (suc n) c reply [] v = (v, success)
run_handlers (suc n) c reply (h ∷ hdl) v =
    let (v', status) = run_action c reply h v in
    let rest = run_handlers n c reply hdl v' in elim status [ success ↦ rest | error ↦ (v', error) ]

-- A transition by a row.
unfoldable pub fire : Clock → Bool → View → Row → View × Status
unfolding run_handlers
fire c reply v t = run_handlers 4 c reply t.hdl (record v { tcp_state = t.next_state })

-- The row that the index names for a state and an event: `none` where the cell is negative.
unfoldable pub lookup_row : List Row → ℕ → ℕ → Option Row
unfolding build_index
lookup_row tbl s e =
    let i = (build_index tbl).idx s e in if is_negative i then none else get_elem? tbl i

-- tcp_conntrack_fsm_view from the event on.
unfoldable pub step : Clock → View → Event → Bool → View × Status
unfolding lookup_row fire tcp_conntrack_tbl build_index
step c v e is_reply =
    if event_u8 e == nevent
    then (v, success)
    else if leb nstate (state_u8 v.tcp_state)
    then (v, error)
    else elim (lookup_row tcp_conntrack_tbl (state_u8 v.tcp_state) (event_u8 e)) [
      | none ↦ (
        v,
        (if (build_index tcp_conntrack_tbl).has_rows (state_u8 v.tcp_state)
            then success
            else error),
      )
      | some t ↦ fire c is_reply v t
    ]

-- tcp_conntrack_fsm_view
unfoldable pub fsm_view : Clock → View → TcpFlags → Bool → View × Status
unfolding step flags_to_event
fsm_view c v flags is_reply = step c v (flags_to_event flags is_reply) is_reply

-- The order in which the index was meant to find rows: the first row of the table, before the
-- sentinel, that has the state and the event.
unfoldable pub find_row : List Row → ℕ → ℕ → Option Row
find_row [] s e = none
find_row (r ∷ rs) s e =
    let rest = find_row rs s e in
    if state_u8 r.state == nstate
    then none
    else if state_u8 r.state == s && event_u8 r.event == e
    then some r
    else rest
