-- ===== src/Ppp/Ncp.antt =====
-- ppp_fsm_tbl_ncp of src/pppd/fsm.c, one list of rows for each state.
use fastrg_node.Base.{List, [], ◌∷◌, ◌++◌}
use fastrg_node.Ppp.{
  init, starting, closed, stopped, closing, stopping, request_sent, ack_received, ack_sent, opened,
  invld, e_up, e_down, e_open, e_close, e_timeout_counter_positive, e_timeout_counter_expired,
  e_recv_good_config_request, e_recv_bad_config_request, e_recv_config_ack, e_recv_config_nak_rej,
  e_recv_terminate_request, e_recv_terminate_ack, e_recv_unknown_code,
  e_recv_good_code_protocol_reject, e_recv_bad_code_protocol_reject, e_recv_echo_request,
  e_recv_echo_reply,
}
use fastrg_node.Ppp.Rows.{
  Row, row, a_create_close_to_lower_layer, a_create_down_event, a_create_up_event,
  a_init_restart_config, a_init_restart_count, a_init_restart_termin, a_send_code_reject,
  a_send_config_ack, a_send_config_nak_rej, a_send_config_request, a_send_terminate_ack,
  a_send_terminate_request, a_this_layer_down, a_this_layer_finish, a_this_layer_start,
  a_this_layer_up, a_zero_restart_count,
}

unfoldable pub ncp_init : List Row
ncp_init =
    row init e_up closed ([])
    ∷ row init e_open starting (a_this_layer_start ∷ [])
    ∷ row init e_close init ([])
    ∷ []

unfoldable pub ncp_starting : List Row
ncp_starting =
    row starting e_up request_sent (a_send_config_request ∷ a_init_restart_config ∷ [])
    ∷ row starting e_open starting ([])
    ∷ row starting e_close init (a_this_layer_finish ∷ [])
    ∷ []

unfoldable pub ncp_closed : List Row
ncp_closed =
    row closed e_down init (a_create_close_to_lower_layer ∷ [])
    ∷ row closed e_open request_sent (a_send_config_request ∷ a_init_restart_config ∷ [])
    ∷ row closed e_close closed ([])
    ∷ row closed e_recv_good_config_request closed (a_send_terminate_ack ∷ [])
    ∷ row closed e_recv_bad_config_request closed (a_send_terminate_ack ∷ [])
    ∷ row closed e_recv_config_ack closed (a_send_terminate_ack ∷ [])
    ∷ row closed e_recv_config_nak_rej closed (a_send_terminate_ack ∷ [])
    ∷ row closed e_recv_terminate_request closed (a_send_terminate_ack ∷ [])
    ∷ row closed e_recv_terminate_ack closed ([])
    ∷ row closed e_recv_unknown_code closed (a_send_code_reject ∷ [])
    ∷ row closed e_recv_good_code_protocol_reject closed ([])
    ∷ row closed e_recv_bad_code_protocol_reject closed (a_this_layer_finish ∷ [])
    ∷ row closed e_recv_echo_request closed ([])
    ∷ row closed e_recv_echo_reply closed ([])
    ∷ []

unfoldable pub ncp_stopped : List Row
ncp_stopped =
    row stopped e_down starting (a_this_layer_start ∷ [])
    ∷ row stopped e_open stopped (a_create_down_event ∷ a_create_up_event ∷ [])
    ∷ row stopped e_close closed ([])
    ∷ row stopped e_recv_good_config_request ack_sent
        (a_init_restart_config ∷ a_send_config_request ∷ a_send_config_ack ∷ [])
    ∷ row stopped e_recv_bad_config_request request_sent
        (a_init_restart_config ∷ a_send_config_request ∷ a_send_config_nak_rej ∷ [])
    ∷ row stopped e_recv_config_ack stopped (a_send_terminate_ack ∷ [])
    ∷ row stopped e_recv_config_nak_rej stopped (a_send_terminate_ack ∷ [])
    ∷ row stopped e_recv_terminate_request stopped (a_send_terminate_ack ∷ [])
    ∷ row stopped e_recv_terminate_ack stopped ([])
    ∷ row stopped e_recv_unknown_code stopped (a_send_code_reject ∷ [])
    ∷ row stopped e_recv_good_code_protocol_reject stopped ([])
    ∷ row stopped e_recv_bad_code_protocol_reject stopped (a_this_layer_finish ∷ [])
    ∷ row stopped e_recv_echo_request stopped ([])
    ∷ row stopped e_recv_echo_reply stopped ([])
    ∷ []

unfoldable pub ncp_closing : List Row
ncp_closing =
    row closing e_down init ([])
    ∷ row closing e_open stopping (a_create_down_event ∷ a_create_up_event ∷ [])
    ∷ row closing e_close closing ([])
    ∷ row closing e_timeout_counter_positive closing (a_send_terminate_request ∷ [])
    ∷ row closing e_timeout_counter_expired closed (a_this_layer_finish ∷ [])
    ∷ row closing e_recv_good_config_request closing ([])
    ∷ row closing e_recv_bad_config_request closing ([])
    ∷ row closing e_recv_config_ack closing ([])
    ∷ row closing e_recv_config_nak_rej closing ([])
    ∷ row closing e_recv_terminate_request closing (a_send_terminate_ack ∷ [])
    ∷ row closing e_recv_terminate_ack closed (a_create_down_event ∷ a_create_up_event ∷ [])
    ∷ row closing e_recv_unknown_code closing (a_send_code_reject ∷ [])
    ∷ row closing e_recv_good_code_protocol_reject closing ([])
    ∷ row closing e_recv_bad_code_protocol_reject closed (a_this_layer_finish ∷ [])
    ∷ row closing e_recv_echo_request closing ([])
    ∷ row closing e_recv_echo_reply closing ([])
    ∷ []

unfoldable pub ncp_stopping : List Row
ncp_stopping =
    row stopping e_down starting ([])
    ∷ row stopping e_open stopping (a_create_down_event ∷ a_create_up_event ∷ [])
    ∷ row stopping e_close closing ([])
    ∷ row stopping e_timeout_counter_positive stopping (a_send_terminate_request ∷ [])
    ∷ row stopping e_timeout_counter_expired stopped (a_this_layer_finish ∷ [])
    ∷ row stopping e_recv_good_config_request stopping ([])
    ∷ row stopping e_recv_bad_config_request stopping ([])
    ∷ row stopping e_recv_config_ack stopping ([])
    ∷ row stopping e_recv_config_nak_rej stopping ([])
    ∷ row stopping e_recv_terminate_request stopping (a_send_terminate_ack ∷ [])
    ∷ row stopping e_recv_terminate_ack stopped (a_create_down_event ∷ a_create_up_event ∷ [])
    ∷ row stopping e_recv_unknown_code stopping (a_send_code_reject ∷ [])
    ∷ row stopping e_recv_good_code_protocol_reject stopping ([])
    ∷ row stopping e_recv_bad_code_protocol_reject stopped (a_this_layer_finish ∷ [])
    ∷ row stopping e_recv_echo_request stopping ([])
    ∷ row stopping e_recv_echo_reply stopping ([])
    ∷ []

unfoldable pub ncp_request_sent : List Row
ncp_request_sent =
    row request_sent e_down starting ([])
    ∷ row request_sent e_open request_sent ([])
    ∷ row request_sent e_close closing (a_init_restart_termin ∷ a_send_terminate_request ∷ [])
    ∷ row request_sent e_timeout_counter_positive request_sent (a_send_config_request ∷ [])
    ∷ row request_sent e_timeout_counter_expired stopped (a_this_layer_finish ∷ [])
    ∷ row request_sent e_recv_good_config_request ack_sent (a_send_config_ack ∷ [])
    ∷ row request_sent e_recv_bad_config_request request_sent (a_send_config_nak_rej ∷ [])
    ∷ row request_sent e_recv_config_ack ack_received (a_init_restart_count ∷ [])
    ∷ row request_sent e_recv_config_nak_rej request_sent
        (a_init_restart_config ∷ a_send_config_request ∷ [])
    ∷ row request_sent e_recv_terminate_request request_sent (a_send_terminate_ack ∷ [])
    ∷ row request_sent e_recv_terminate_ack request_sent ([])
    ∷ row request_sent e_recv_unknown_code request_sent (a_send_code_reject ∷ [])
    ∷ row request_sent e_recv_good_code_protocol_reject request_sent ([])
    ∷ row request_sent e_recv_bad_code_protocol_reject stopped (a_this_layer_finish ∷ [])
    ∷ row request_sent e_recv_echo_request request_sent ([])
    ∷ row request_sent e_recv_echo_reply request_sent ([])
    ∷ []

unfoldable pub ncp_ack_received : List Row
ncp_ack_received =
    row ack_received e_down starting ([])
    ∷ row ack_received e_open ack_received ([])
    ∷ row ack_received e_close closing (a_init_restart_termin ∷ a_send_terminate_request ∷ [])
    ∷ row ack_received e_timeout_counter_positive request_sent (a_send_config_request ∷ [])
    ∷ row ack_received e_timeout_counter_expired stopped (a_this_layer_finish ∷ [])
    ∷ row ack_received e_recv_good_config_request opened (a_send_config_ack ∷ a_this_layer_up ∷ [])
    ∷ row ack_received e_recv_bad_config_request ack_received (a_send_config_nak_rej ∷ [])
    ∷ row ack_received e_recv_config_ack request_sent (a_send_config_request ∷ [])
    ∷ row ack_received e_recv_config_nak_rej request_sent (a_send_config_request ∷ [])
    ∷ row ack_received e_recv_terminate_request request_sent (a_send_terminate_ack ∷ [])
    ∷ row ack_received e_recv_terminate_ack request_sent ([])
    ∷ row ack_received e_recv_unknown_code ack_received (a_send_code_reject ∷ [])
    ∷ row ack_received e_recv_good_code_protocol_reject request_sent ([])
    ∷ row ack_received e_recv_bad_code_protocol_reject stopped (a_this_layer_finish ∷ [])
    ∷ row ack_received e_recv_echo_request ack_received ([])
    ∷ row ack_received e_recv_echo_reply ack_received ([])
    ∷ []

unfoldable pub ncp_ack_sent : List Row
ncp_ack_sent =
    row ack_sent e_down starting ([])
    ∷ row ack_sent e_open ack_sent ([])
    ∷ row ack_sent e_close closing (a_init_restart_termin ∷ a_send_terminate_request ∷ [])
    ∷ row ack_sent e_timeout_counter_positive ack_sent (a_send_config_request ∷ [])
    ∷ row ack_sent e_timeout_counter_expired stopped (a_this_layer_finish ∷ [])
    ∷ row ack_sent e_recv_good_config_request ack_sent (a_send_config_ack ∷ [])
    ∷ row ack_sent e_recv_bad_config_request request_sent (a_send_config_nak_rej ∷ [])
    ∷ row ack_sent e_recv_config_ack opened (a_init_restart_count ∷ a_this_layer_up ∷ [])
    ∷ row ack_sent e_recv_config_nak_rej ack_sent
        (a_init_restart_config ∷ a_send_config_request ∷ [])
    ∷ row ack_sent e_recv_terminate_request request_sent (a_send_terminate_ack ∷ [])
    ∷ row ack_sent e_recv_terminate_ack ack_sent ([])
    ∷ row ack_sent e_recv_unknown_code ack_sent (a_send_code_reject ∷ [])
    ∷ row ack_sent e_recv_good_code_protocol_reject ack_sent ([])
    ∷ row ack_sent e_recv_bad_code_protocol_reject stopped (a_this_layer_finish ∷ [])
    ∷ row ack_sent e_recv_echo_request ack_sent ([])
    ∷ row ack_sent e_recv_echo_reply ack_sent ([])
    ∷ []

unfoldable pub ncp_opened : List Row
ncp_opened =
    row opened e_down starting (a_this_layer_down ∷ [])
    ∷ row opened e_open opened (a_create_down_event ∷ a_create_up_event ∷ [])
    ∷ row opened e_close closing
        (a_this_layer_down ∷ a_init_restart_termin ∷ a_send_terminate_request ∷ [])
    ∷ row opened e_recv_good_config_request ack_sent
        (a_this_layer_down ∷ a_send_config_request ∷ a_send_config_ack ∷ [])
    ∷ row opened e_recv_bad_config_request request_sent
        (a_this_layer_down ∷ a_send_config_request ∷ a_send_config_nak_rej ∷ [])
    ∷ row opened e_recv_config_ack request_sent (a_this_layer_down ∷ a_send_config_request ∷ [])
    ∷ row opened e_recv_config_nak_rej request_sent (a_this_layer_down ∷ a_send_config_request ∷ [])
    ∷ row opened e_recv_terminate_request stopping
        (a_this_layer_down ∷ a_zero_restart_count ∷ a_send_terminate_ack ∷ [])
    ∷ row opened e_recv_terminate_ack request_sent (a_this_layer_down ∷ a_send_config_request ∷ [])
    ∷ row opened e_recv_unknown_code opened (a_send_code_reject ∷ [])
    ∷ row opened e_recv_good_code_protocol_reject opened ([])
    ∷ row opened e_recv_bad_code_protocol_reject stopping
        (a_this_layer_down ∷ a_init_restart_termin ∷ a_send_terminate_request ∷ [])
    ∷ row opened e_recv_echo_request opened ([])
    ∷ row opened e_recv_echo_reply opened ([])
    ∷ []

-- The rows in the order of the source, and the sentinel that ends them.
unfoldable pub ncp_tbl : List Row
unfolding ncp_init ncp_starting ncp_closed ncp_stopped ncp_closing ncp_stopping ncp_request_sent
    ncp_ack_received ncp_ack_sent ncp_opened
ncp_tbl =
    ncp_init
    ++ (ncp_starting
        ++ (ncp_closed
            ++ (ncp_stopped
                ++ (ncp_closing
                    ++ (ncp_stopping
                        ++ (ncp_request_sent
                            ++ (ncp_ack_received
                                ++ (ncp_ack_sent
                                    ++ (ncp_opened ++ (row invld e_up init [] ∷ []))))))))))
