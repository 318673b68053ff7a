-- ===== src/Nat/Examples.antt =====
-- Runs of the translation table at fixed inputs.
mod Theorems
use fastrg_node.Base.{
  ℕ, List, [], ◌∷◌, ◌≡◌, ◌≢◌, refl, Bool, true, false, Option, none, some, ◌+◌, ◌*◌, ◌/◌, ◌%◌,
  arith, length, ◌==◌, if◌then◌else◌, inl, inr, ◌⊎◌, subst, sym, ==_iff, Bool-cases,
}
use fastrg_node.Conntrack.{none_state, View, Clock, nat_expire_refresh, nat_expire_set}
use fastrg_node.PortFwd
use fastrg_node.Nat.{
  ReverseKey, ForwardKey, Entry, Site, Env, IsEnv, State, put, refresh, compute_initial_nat_port,
  next_nat_port, forward_key, reverse_key,
}
use fastrg_node.Nat.Assoc.{reverse_keys, forward_keys, assoc, assoc-IsHash, find, erase}
use fastrg_node.Nat.Slots.{
  enqueue, free_cb, free_all, call_back, reclaim_reverse, del_reverse, del_keys, gc_slot, gc_slots,
  reclaim_both, gc_scan, dequeue, slot_alloc_from, slot_alloc,
}
use fastrg_node.Nat.Learning.{
  Packet, flow_key, same_flow, fresh_entry, fill, give_back, publish, allocated, insert, try_port,
  walk, learning, reverse_lookup, udp_learning,
}
use fastrg_node.Nat.Init.{enqueue_all, init_entries, table_init, table_init-IsNat}
use fastrg_node.Nat.Invariant.{seen, known, published, IsNat, IsSettled}
use fastrg_node.Nat.Walk.{IsByteOrder, learning-Sound, reverse_lookup-learning}
use fastrg_node.Nat.Insert.{Sound}
use fastrg_node.Nat.Room.{HasRoom}
use fastrg_node.Nat.Progress.{learning-progress}
use fastrg_node.Nat.Live.{Stays, gc_scan-Stays}
use fastrg_node.Nat.History.{Moment, Call, learn, reply, scan, Fits, AllFit, run, run-IsNat}
use fastrg_node.Nat.Avoids.{Allowed, learning-Allowed}

abbrev pub swap : ℕ → ℕ
swap x = x % 256 * 256 + x / 256

abbrev pub swap_order : PortFwd.ByteOrder
swap_order = record { cpu_to_be_16 = swap; be_to_cpu_16 = swap }

pub swap_order-IsByteOrder : IsByteOrder swap_order
swap_order-IsByteOrder = record { round = λ x h. omega arith }

abbrev pub no_rule : PortFwd.Entry
no_rule = record { dip = 0; iport = 0; is_active = 0; hit_count = 0 }

abbrev pub a_rule : PortFwd.Entry
a_rule = record { dip = 0x0a000005; iport = swap 80; is_active = 1; hit_count = 0 }

-- Port 2001 is forwarded.
abbrev pub one_rule : PortFwd.Table
one_rule p = if p == 2001 then a_rule else no_rule

abbrev pub R : Type 0
R = List (ReverseKey × ℕ)

abbrev pub F : Type 0
F = List (ForwardKey × ℕ)

-- A table of four slots and hashes for eight keys. A counter of 1000 cycles a second at cycle `now`; nothing is quiescent before a reclaim is asked for.
abbrev pub quiescent : Site → List ℕ → ℕ
quiescent Site.at_reclaim queue = length queue
quiescent site queue = 0

abbrev pub env : ℕ → Env R F
env now = record {
  reverse_hash = assoc reverse_keys 8;
  forward_hash = assoc forward_keys 8;
  byte_order = swap_order;
  crc_4byte = λ word init. init + word % 1000;
  slots = 4;
  quiescent = quiescent;
  clock = record { cur_cycles = now; cycles_in_sec = 1000 };
  port_fwd_table = one_rule;
}

pub env-IsEnv : (now : ℕ) → IsEnv (env now)
env-IsEnv now = record {
  reverse_laws = assoc-IsHash reverse_keys 8;
  forward_laws = assoc-IsHash forward_keys 8;
}

abbrev pub no_view : View
no_view = record {
  tcp_state = none_state;
  fin_lan = false;
  fin_wan = false;
  expire = 0;
  max_seq_end_lan = 0;
  max_seq_end_wan = 0;
  max_ack_lan = 0;
  max_ack_wan = 0;
  max_win_lan = 0;
  max_win_wan = 0;
}

abbrev pub no_entry : Entry
no_entry = record {
  mac_addr = 0;
  src_ip = 0;
  dst_ip = 0;
  src_port = 0;
  dst_port = 0;
  nat_port = 0;
  proto = 0;
  is_ready = false;
  track = no_view;
}

abbrev pub blank : State R F
blank = record {
  addr_table = λ i. no_entry;
  reverse = [];
  forward = [];
  free_ring = [];
  deferred = [];
  gc_counter = 0;
  enospc = 0;
  gc_reclaimed = 0;
}

abbrev pub udp_packet : ℕ → ℕ → Packet
udp_packet host src_port = record {
  src_addr = host;
  proto = 17;
  flow = record { src_ip = host; dst_ip = 77; src_port = src_port; dst_port = swap 53 };
}

unfoldable pub fresh : State R F
unfolding table_init
fresh = table_init (env 50000) blank

fresh-ring : fresh.free_ring ≡ 0 ∷ 1 ∷ 2 ∷ 3 ∷ []
unfolding fresh reverse_keys forward_keys table_init init_entries enqueue_all enqueue
fresh-ring = refl

unfoldable pub one_flow : State R F
unfolding fresh reverse_keys forward_keys table_init init_entries enqueue_all enqueue assoc find
    erase learning walk try_port insert allocated slot_alloc slot_alloc_from dequeue fill
    fresh_entry publish call_back free_all free_cb compute_initial_nat_port next_nat_port
    nat_expire_set
one_flow = (learning (env 50000) (udp_packet 900 100) fresh).state

first_port : (learning (env 50000) (udp_packet 900 100) fresh).port ≡ swap 2000
unfolding fresh reverse_keys forward_keys table_init init_entries enqueue_all enqueue assoc find
    erase learning walk try_port insert allocated slot_alloc slot_alloc_from dequeue fill
    fresh_entry publish call_back free_all free_cb compute_initial_nat_port next_nat_port
    nat_expire_set
first_port = refl

-- Port 2001 is forwarded, so the next flow goes on to 2002; an established flow keeps its port.
second_port : (learning (env 50001) (udp_packet 901 100) one_flow).port ≡ swap 2002
unfolding fresh reverse_keys forward_keys table_init init_entries enqueue_all enqueue assoc find
    erase learning walk try_port insert allocated slot_alloc slot_alloc_from dequeue fill
    fresh_entry publish call_back free_all free_cb compute_initial_nat_port next_nat_port
    nat_expire_set one_flow same_flow del_keys del_reverse refresh nat_expire_refresh gc_scan
    gc_slots gc_slot reclaim_both reclaim_reverse reverse_lookup
second_port = refl

same_port : (learning (env 50001) (udp_packet 900 100) one_flow).out_entry ≡ some 0
unfolding fresh reverse_keys forward_keys table_init init_entries enqueue_all enqueue assoc find
    erase learning walk try_port insert allocated slot_alloc slot_alloc_from dequeue fill
    fresh_entry publish call_back free_all free_cb compute_initial_nat_port next_nat_port
    nat_expire_set one_flow same_flow del_keys del_reverse refresh nat_expire_refresh gc_scan
    gc_slots gc_slot reclaim_both reclaim_reverse reverse_lookup
same_port = refl

-- A reply in time, and one too late.
reply_found :
    (reverse_lookup (env 59000) one_flow (flow_key (udp_packet 900 100) (swap 2000))).1 ≡ some 0
unfolding fresh reverse_keys forward_keys table_init init_entries enqueue_all enqueue assoc find
    erase learning walk try_port insert allocated slot_alloc slot_alloc_from dequeue fill
    fresh_entry publish call_back free_all free_cb compute_initial_nat_port next_nat_port
    nat_expire_set one_flow same_flow del_keys del_reverse refresh nat_expire_refresh gc_scan
    gc_slots gc_slot reclaim_both reclaim_reverse reverse_lookup
reply_found = refl

reply_late :
    (reverse_lookup (env 60001) one_flow (flow_key (udp_packet 900 100) (swap 2000))).1 ≡ none
unfolding fresh reverse_keys forward_keys table_init init_entries enqueue_all enqueue assoc find
    erase learning walk try_port insert allocated slot_alloc slot_alloc_from dequeue fill
    fresh_entry publish call_back free_all free_cb compute_initial_nat_port next_nat_port
    nat_expire_set one_flow same_flow del_keys del_reverse refresh nat_expire_refresh gc_scan
    gc_slots gc_slot reclaim_both reclaim_reverse reverse_lookup
reply_late = refl

-- Another host takes the port of an expired mapping, and its slot waits in the defer queue.
evicted : State R F
unfolding fresh reverse_keys forward_keys table_init init_entries enqueue_all enqueue assoc find
    erase learning walk try_port insert allocated slot_alloc slot_alloc_from dequeue fill
    fresh_entry publish call_back free_all free_cb compute_initial_nat_port next_nat_port
    nat_expire_set one_flow same_flow del_keys del_reverse refresh nat_expire_refresh gc_scan
    gc_slots gc_slot reclaim_both reclaim_reverse reverse_lookup
evicted = (learning (env 70000) (udp_packet 800 200) one_flow).state

evicted-deferred : (evicted.deferred ≡ 0 ∷ []) × ((evicted.addr_table 0).is_ready ≡ true)
unfolding fresh reverse_keys forward_keys table_init init_entries enqueue_all enqueue assoc find
    erase learning walk try_port insert allocated slot_alloc slot_alloc_from dequeue fill
    fresh_entry publish call_back free_all free_cb compute_initial_nat_port next_nat_port
    nat_expire_set one_flow same_flow del_keys del_reverse refresh nat_expire_refresh gc_scan
    gc_slots gc_slot reclaim_both reclaim_reverse reverse_lookup evicted
evicted-deferred = (refl, refl)

-- A scan that comes before the reclaim takes the reverse key of the live mapping, by the key that the
-- deferred slot still holds; the flow then leads to a free slot.
scanned : State R F
unfolding fresh reverse_keys forward_keys table_init init_entries enqueue_all enqueue assoc find
    erase learning walk try_port insert allocated slot_alloc slot_alloc_from dequeue fill
    fresh_entry publish call_back free_all free_cb compute_initial_nat_port next_nat_port
    nat_expire_set one_flow same_flow del_keys del_reverse refresh nat_expire_refresh gc_scan
    gc_slots gc_slot reclaim_both reclaim_reverse reverse_lookup
scanned = (gc_scan (env 70001) evicted 4).0

live_mapping_lost :
    (seen (env 70001) scanned (flow_key (udp_packet 800 200) (swap 2000)) ≡ none)
    × (known (env 70001) scanned ((udp_packet 800 200).flow) ≡ some 1)
    × (scanned.free_ring ≡ 2 ∷ 3 ∷ 0 ∷ 1 ∷ [])
unfolding fresh reverse_keys forward_keys table_init init_entries enqueue_all enqueue assoc find
    erase learning walk try_port insert allocated slot_alloc slot_alloc_from dequeue fill
    fresh_entry publish call_back free_all free_cb compute_initial_nat_port next_nat_port
    nat_expire_set one_flow same_flow del_keys del_reverse refresh nat_expire_refresh gc_scan
    gc_slots gc_slot reclaim_both reclaim_reverse reverse_lookup evicted scanned
live_mapping_lost = (refl, refl, refl)

after_flows : State R F → List Packet → State R F
unfolding fresh reverse_keys forward_keys table_init init_entries enqueue_all enqueue assoc find
    erase learning walk try_port insert allocated slot_alloc slot_alloc_from dequeue fill
    fresh_entry publish call_back free_all free_cb compute_initial_nat_port next_nat_port
    nat_expire_set one_flow same_flow del_keys del_reverse refresh nat_expire_refresh gc_scan
    gc_slots gc_slot reclaim_both reclaim_reverse reverse_lookup
after_flows s [] = s
after_flows s (p ∷ ps) = after_flows ((learning (env 70002) p s).state) ps

abbrev other_hosts : List Packet
other_hosts = udp_packet 20 1 ∷ udp_packet 21 1 ∷ udp_packet 22 1 ∷ udp_packet 23 1 ∷ []

-- Once four more hosts have taken the free slots, the next packet of the flow goes out as that of the
-- last of them.
wrong_host :
    (learning (env 70003) (udp_packet 800 200) (after_flows scanned other_hosts)).port
    ≡ (learning (env 70003) (udp_packet 23 1) (after_flows scanned other_hosts)).port
unfolding fresh reverse_keys forward_keys table_init init_entries enqueue_all enqueue assoc find
    erase learning walk try_port insert allocated slot_alloc slot_alloc_from dequeue fill
    fresh_entry publish call_back free_all free_cb compute_initial_nat_port next_nat_port
    nat_expire_set one_flow same_flow del_keys del_reverse refresh nat_expire_refresh gc_scan
    gc_slots gc_slot reclaim_both reclaim_reverse reverse_lookup evicted scanned after_flows
wrong_host = refl
