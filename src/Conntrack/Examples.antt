-- ===== src/Conntrack/Examples.antt =====
-- Runs of the conntrack model at fixed inputs.
use fastrg_node.Base.{◌≡◌, refl, ◌↔◌, ◌⊎◌, List, [], ◌∷◌, true, false, arith, length, ◌≤◌}
use fastrg_node.Conntrack.{none_state, established, fin_wait, close, invld, TcpFlags, View, Clock}
use fastrg_node.Conntrack.Table.{tcp_conntrack_tbl}
use fastrg_node.Conntrack.Fsm.{fsm_view, flags_to_event, lookup_row, find_row}
use fastrg_node.Conntrack.Index.{lookup_row-eq-find_row}
use fastrg_node.Conntrack.Guard.{inbound_valid}
use fastrg_node.Conntrack.Window.{
  TcpHdr, HdrFits, WindowFits, InWindow, Advanced, seq_valid, seq_update, peer_ack, peer_seq_end,
  seq_valid_iff, seq_update-Advanced,
}
use fastrg_node.Conntrack.Invariant.{Armed, Opens, SameWindow, fsm_view-Armed, fsm_view-Opens}
use fastrg_node.Conntrack.Path.{
  Packet, from_lan, from_wan, run, receive, outbound, inbound, IsEntry, run-IsEntry,
  inbound-enforces, run-close,
}

abbrev syn_flags : TcpFlags
syn_flags = record { fin = false; syn = true; rst = false; ack = false }

abbrev syn_ack_flags : TcpFlags
syn_ack_flags = record { fin = false; syn = true; rst = false; ack = true }

abbrev ack_flags : TcpFlags
ack_flags = record { fin = false; syn = false; rst = false; ack = true }

abbrev fin_flags : TcpFlags
fin_flags = record { fin = true; syn = false; rst = false; ack = true }

abbrev noon : Clock
noon = record { cur_cycles = 1000; cycles_in_sec = 10 }

abbrev fresh : View
fresh = record {
  tcp_state = none_state;
  fin_lan = false;
  fin_wan = false;
  expire = 0;
  max_seq_end_lan = 0;
  max_seq_end_wan = 0;
  max_ack_lan = 0;
  max_ack_wan = 0;
  max_win_lan = 0;
  max_win_wan = 0;
}

abbrev closed_entry : View
closed_entry = record fresh { tcp_state = close }

abbrev broken_entry : View
broken_entry = record fresh { tcp_state = invld }

-- A connection that has moved data in both directions.
abbrev busy : View
busy = record fresh {
  tcp_state = established;
  expire = 2000;
  max_seq_end_lan = 500;
  max_seq_end_wan = 900;
  max_ack_lan = 900;
  max_ack_wan = 500;
}

abbrev syn_hdr : TcpHdr
syn_hdr = record { sent_seq = 100; recv_ack = 0; rx_win = 512; tcp_flags = syn_flags }

abbrev syn_ack_hdr : TcpHdr
syn_ack_hdr = record { sent_seq = 700; recv_ack = 101; rx_win = 512; tcp_flags = syn_ack_flags }

abbrev ack_hdr : TcpHdr
ack_hdr = record { sent_seq = 910; recv_ack = 480; rx_win = 64; tcp_flags = ack_flags }

abbrev fin_hdr : TcpHdr
fin_hdr = record { sent_seq = 910; recv_ack = 480; rx_win = 64; tcp_flags = fin_flags }

fin_hdr-HdrFits : HdrFits fin_hdr
fin_hdr-HdrFits = record { sent_seq = omega arith; recv_ack = omega arith; rx_win = omega arith }

syn_hdr-HdrFits : HdrFits syn_hdr
syn_hdr-HdrFits = record { sent_seq = omega arith; recv_ack = omega arith; rx_win = omega arith }

syn_ack_hdr-HdrFits : HdrFits syn_ack_hdr
syn_ack_hdr-HdrFits = record {
  sent_seq = omega arith;
  recv_ack = omega arith;
  rx_win = omega arith;
}

busy-WindowFits : WindowFits busy
busy-WindowFits = record {
  max_seq_end_lan = omega arith;
  max_seq_end_wan = omega arith;
  max_ack_lan = omega arith;
  max_ack_wan = omega arith;
  max_win_lan = omega arith;
  max_win_wan = omega arith;
}

fresh-IsEntry : IsEntry fresh
fresh-IsEntry = record {
  tracked = (refl, refl);
  window = record {
    max_seq_end_lan = omega arith;
    max_seq_end_wan = omega arith;
    max_ack_lan = omega arith;
    max_ack_wan = omega arith;
    max_win_lan = omega arith;
    max_win_wan = omega arith;
  };
}

established_admits : inbound_valid established fin_flags ≡ true
unfolding inbound_valid
established_admits = refl

table_fits : length tcp_conntrack_tbl ≤ 128
unfolding tcp_conntrack_tbl
table_fits = omega arith

-- Opening, then a FIN from the WAN side.
abbrev opening : List Packet
opening = from_lan noon syn_hdr 0 ∷ from_wan noon true syn_ack_hdr 0 ∷ from_lan noon fin_hdr 0 ∷ []

fin_reaches_fin_wait : (run fresh opening).tcp_state ≡ fin_wait
unfolding run receive outbound seq_update fsm_view inbound inbound_valid seq_valid
fin_reaches_fin_wait = refl

run-IsEntry_example : IsEntry (run fresh opening)
run-IsEntry_example =
    run-IsEntry fresh opening (syn_hdr-HdrFits, (syn_ack_hdr-HdrFits, (fin_hdr-HdrFits, tt)))
      fresh-IsEntry

run-close_example :
    run closed_entry (from_wan noon true syn_hdr 0 ∷ from_wan noon false fin_hdr 5 ∷ [])
    ≡ closed_entry
run-close_example =
    run-close closed_entry (from_wan noon true syn_hdr 0 ∷ from_wan noon false fin_hdr 5 ∷ []) tt
      refl

inbound-enforces_example :
    (((inbound noon true busy fin_hdr 5).1 ≡ true)
      ↔ ((inbound_valid established fin_flags ≡ true) × (seq_valid busy fin_hdr true ≡ true)))
    × ((inbound noon false busy fin_hdr 5).1 ≡ true)
    × ((inbound noon true busy fin_hdr 5).0 ≡ (inbound noon false busy fin_hdr 5).0)
    × ((inbound noon true busy fin_hdr 5).1 ≡ false → (inbound noon false busy fin_hdr 5).0 ≡ busy)
inbound-enforces_example = inbound-enforces noon busy fin_hdr 5

lookup_row-eq-find_row_example : lookup_row tcp_conntrack_tbl 3 4 ≡ find_row tcp_conntrack_tbl 3 4
lookup_row-eq-find_row_example =
    lookup_row-eq-find_row tcp_conntrack_tbl 3 4 table_fits (omega arith) (omega arith)

seq_valid_iff_example :
    (seq_valid busy fin_hdr true ≡ true)
    ↔ ((false ≡ true) ⊎ (false ≡ true) ⊎ InWindow busy fin_hdr true)
seq_valid_iff_example = seq_valid_iff busy fin_hdr true busy-WindowFits fin_hdr-HdrFits

seq_update-Advanced_example :
    let w = seq_update busy fin_hdr 5 true in
    Advanced 900 916 (peer_seq_end w false)
    × Advanced 500 480 (peer_ack w false)
    × (w.max_win_wan ≡ 64)
    × (peer_seq_end w true ≡ 500)
    × (peer_ack w true ≡ 900)
seq_update-Advanced_example =
    seq_update-Advanced busy fin_hdr 5 true busy-WindowFits fin_hdr-HdrFits

fsm_view-Armed_example :
    let w = (fsm_view noon busy fin_flags true).0 in (w ≡ busy) ⊎ Armed noon busy w
fsm_view-Armed_example = fsm_view-Armed noon busy fin_flags true

fsm_view-Opens_example :
    let w = (fsm_view noon busy ack_flags true).0 in
    SameWindow busy w
    × (w.tcp_state ≡ established → Opens established (flags_to_event ack_flags true) true)
fsm_view-Opens_example = fsm_view-Opens noon busy ack_flags true
