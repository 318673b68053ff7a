-- ===== src/Conntrack/Table.antt =====
-- src/pppd/tcp_conntrack.c: the action handlers and the transition table.
use fastrg_node.Base.{ℕ, List, [], ◌∷◌, Bool, true, false}
use fastrg_node.Conntrack.{
  State, none_state, syn_sent, syn_recv, established, fin_wait, close_wait, last_ack, time_wait,
  close, mid_stream, invld, Event, ev_syn, ev_syn_ack, ev_ack, ev_fin_lan, ev_fin_wan, ev_rst, View,
  Clock, deadline, nat_expire_set, nat_expire_refresh,
}

-- What a handler or the state machine returns.
pub data Status : Type 0 where
  success : Status
  error : Status

-- TCP_TIMEOUT_*, in seconds, of the state that they are named after; `invld` has none.
unfoldable pub timeout : State → ℕ
timeout none_state = 10
timeout syn_sent = 30
timeout syn_recv = 30
timeout established = 7200
timeout fin_wait = 120
timeout close_wait = 60
timeout last_ack = 30
timeout time_wait = 120
timeout close = 10
timeout mid_stream = 60
timeout invld = 0

-- The handlers of the table, tcp_act_*.
pub data Action : Type 0 where
  act_timeout_syn_sent : Action
  act_timeout_syn_recv : Action
  act_timeout_established : Action
  act_refresh_established : Action
  act_timeout_fin_wait : Action
  act_timeout_close_wait : Action
  act_timeout_last_ack : Action
  act_timeout_time_wait : Action
  act_timeout_close : Action
  act_timeout_mid_stream : Action
  act_mid_stream_ack : Action
  act_set_fin_lan : Action
  act_set_fin_wan : Action
  act_reset_fin_flags : Action

-- An acknowledgement in MID_STREAM: only one from the WAN side promotes the connection.
unfoldable pub mid_stream_ack : Clock → Bool → View → View
unfolding timeout nat_expire_set nat_expire_refresh
mid_stream_ack c true v =
    nat_expire_set (deadline c (timeout established)) (record v { tcp_state = established })
mid_stream_ack c false v = nat_expire_refresh c (deadline c (timeout mid_stream)) v

-- One handler call: the connection after it, and what it returns.
unfoldable pub run_action : Clock → Bool → Action → View → View × Status
unfolding timeout nat_expire_set nat_expire_refresh mid_stream_ack
run_action c reply act_timeout_syn_sent v =
    (nat_expire_set (deadline c (timeout syn_sent)) v, success)
run_action c reply act_timeout_syn_recv v =
    (nat_expire_set (deadline c (timeout syn_recv)) v, success)
run_action c reply act_timeout_established v =
    (nat_expire_set (deadline c (timeout established)) v, success)
run_action c reply act_refresh_established v =
    (nat_expire_refresh c (deadline c (timeout established)) v, success)
run_action c reply act_timeout_fin_wait v =
    (nat_expire_set (deadline c (timeout fin_wait)) v, success)
run_action c reply act_timeout_close_wait v =
    (nat_expire_set (deadline c (timeout close_wait)) v, success)
run_action c reply act_timeout_last_ack v =
    (nat_expire_set (deadline c (timeout last_ack)) v, success)
run_action c reply act_timeout_time_wait v =
    (nat_expire_set (deadline c (timeout time_wait)) v, success)
run_action c reply act_timeout_close v = (nat_expire_set (deadline c (timeout close)) v, success)
run_action c reply act_timeout_mid_stream v =
    (nat_expire_set (deadline c (timeout mid_stream)) v, success)
run_action c reply act_mid_stream_ack v = (mid_stream_ack c reply v, success)
run_action c reply act_set_fin_lan v = (record v { fin_lan = true }, success)
run_action c reply act_set_fin_wan v = (record v { fin_wan = true }, success)
run_action c reply act_reset_fin_flags v = (record v { fin_lan = false; fin_wan = false }, success)

-- tcp_conntrack_state_tbl_t; the handler chain is the list up to its NULL.
pub record Row : Type 0 where
  pub state : State
  pub event : Event
  pub next_state : State
  pub hdl : List Action

abbrev pub row : State → Event → State → List Action → Row
row s e n h = record { state = s; event = e; next_state = n; hdl = h }

-- The rows of tcp_conntrack_tbl and the sentinel that ends it.
unfoldable pub tcp_conntrack_tbl : List Row
tcp_conntrack_tbl =
    row none_state ev_syn syn_sent (act_timeout_syn_sent ∷ [])
    ∷ row none_state ev_syn_ack syn_recv (act_timeout_syn_recv ∷ [])
    ∷ row none_state ev_ack mid_stream (act_timeout_mid_stream ∷ [])
    ∷ row none_state ev_fin_lan fin_wait (act_set_fin_lan ∷ act_timeout_fin_wait ∷ [])
    ∷ row none_state ev_fin_wan close_wait (act_set_fin_wan ∷ act_timeout_close_wait ∷ [])
    ∷ row none_state ev_rst close (act_timeout_close ∷ [])
    ∷ row mid_stream ev_ack mid_stream (act_mid_stream_ack ∷ [])
    ∷ row mid_stream ev_syn syn_sent (act_reset_fin_flags ∷ act_timeout_syn_sent ∷ [])
    ∷ row mid_stream ev_syn_ack mid_stream (act_timeout_mid_stream ∷ [])
    ∷ row mid_stream ev_fin_lan fin_wait (act_set_fin_lan ∷ act_timeout_fin_wait ∷ [])
    ∷ row mid_stream ev_fin_wan close_wait (act_set_fin_wan ∷ act_timeout_close_wait ∷ [])
    ∷ row mid_stream ev_rst close (act_timeout_close ∷ [])
    ∷ row syn_sent ev_syn syn_sent (act_timeout_syn_sent ∷ [])
    ∷ row syn_sent ev_syn_ack syn_recv (act_timeout_syn_recv ∷ [])
    ∷ row syn_sent ev_rst close (act_timeout_close ∷ [])
    ∷ row syn_recv ev_ack established (act_timeout_established ∷ [])
    ∷ row syn_recv ev_syn_ack syn_recv (act_timeout_syn_recv ∷ [])
    ∷ row syn_recv ev_fin_lan fin_wait (act_set_fin_lan ∷ act_timeout_fin_wait ∷ [])
    ∷ row syn_recv ev_fin_wan fin_wait (act_set_fin_wan ∷ act_timeout_fin_wait ∷ [])
    ∷ row syn_recv ev_rst close (act_timeout_close ∷ [])
    ∷ row established ev_ack established (act_refresh_established ∷ [])
    ∷ row established ev_syn syn_sent (act_reset_fin_flags ∷ act_timeout_syn_sent ∷ [])
    ∷ row established ev_syn_ack established (act_timeout_established ∷ [])
    ∷ row established ev_fin_lan fin_wait (act_set_fin_lan ∷ act_timeout_fin_wait ∷ [])
    ∷ row established ev_fin_wan close_wait (act_set_fin_wan ∷ act_timeout_close_wait ∷ [])
    ∷ row established ev_rst close (act_timeout_close ∷ [])
    ∷ row fin_wait ev_fin_wan time_wait (act_set_fin_wan ∷ act_timeout_time_wait ∷ [])
    ∷ row fin_wait ev_fin_lan fin_wait (act_set_fin_lan ∷ act_timeout_fin_wait ∷ [])
    ∷ row fin_wait ev_ack fin_wait (act_timeout_fin_wait ∷ [])
    ∷ row fin_wait ev_rst close (act_timeout_close ∷ [])
    ∷ row close_wait ev_fin_lan last_ack (act_set_fin_lan ∷ act_timeout_last_ack ∷ [])
    ∷ row close_wait ev_ack close_wait (act_timeout_close_wait ∷ [])
    ∷ row close_wait ev_rst close (act_timeout_close ∷ [])
    ∷ row last_ack ev_ack time_wait (act_timeout_time_wait ∷ [])
    ∷ row last_ack ev_rst close (act_timeout_close ∷ [])
    ∷ row time_wait ev_ack time_wait (act_timeout_time_wait ∷ [])
    ∷ row time_wait ev_rst close (act_timeout_close ∷ [])
    ∷ row time_wait ev_syn syn_sent (act_reset_fin_flags ∷ act_timeout_syn_sent ∷ [])
    ∷ row close ev_rst close (act_timeout_close ∷ [])
    ∷ row close ev_syn syn_sent (act_reset_fin_flags ∷ act_timeout_syn_sent ∷ [])
    ∷ row invld ev_syn none_state []
    ∷ []
