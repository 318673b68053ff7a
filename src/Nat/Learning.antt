-- ===== src/Nat/Learning.antt =====
-- Learning and reverse lookup of src/pppd/nat.h: the walk over the candidate ports of
-- nat_learning_port_reuse, its callers, and nat_reverse_lookup.
use fastrg_node.Base.{
  ℕ, zero, suc, Bool, true, false, Option, none, some, ◌+◌, ◌%◌, ◌^◌, ◌==◌, ◌&&◌, not,
  if◌then◌else◌,
}
use fastrg_node.Conntrack.{none_state, View, nat_expire_set}
use fastrg_node.Conntrack.Window.{TcpHdr}
use fastrg_node.Conntrack.Path.{outbound}
use fastrg_node.Nat.{
  ReverseKey, ForwardKey, Entry, at_add, Env, State, put, is_expired, expiry_cycles, refresh,
  compute_initial_nat_port, next_nat_port,
}
use fastrg_node.Nat.Slots.{enqueue, call_back, del_reverse, del_keys, slot_alloc}

-- What the headers of the packet give.
pub record Packet : Type 0 where
  pub src_addr : ℕ
  pub proto : ℕ
  pub flow : ForwardKey

abbrev pub flow_key : Packet → ℕ → ReverseKey
flow_key p nat_port = record {
  dst_ip = p.flow.dst_ip;
  nat_port = nat_port;
  dst_port = p.flow.dst_port;
}

-- nat_entry_same_flow
unfoldable pub same_flow : Entry → ℕ → ForwardKey → Bool
same_flow e nat_port flow =
    (e.nat_port == nat_port)
    && ((e.src_ip == flow.src_ip)
        && ((e.src_port == flow.src_port)
            && ((e.dst_ip == flow.dst_ip) && (e.dst_port == flow.dst_port))))

-- The state after, the port returned and the entry stored through `out_entry`.
pub record Learned (R F : Type 0) : Type 0 where
  pub state : State R F
  pub port : ℕ
  pub out_entry : Option ℕ

-- How one turn of the loop ends: with a return or at the label next_nat_port.
pub data Turn (R F : Type 0) : Type 0 where
  returned : Learned R F → Turn R F
  next_port : State R F → Turn R F

module _ {R F : Type 0} where
  abbrev pub found : Env R F → State R F → ℕ → ℕ → Learned R F
  found c s i port = record { state = refresh c s i; port = port; out_entry = some i }

  abbrev pub failed : State R F → Learned R F
  failed s = record {
    state = record s { enospc = (s.enospc + 1) % 2 ^ 64 };
    port = 0;
    out_entry = none;
  }

  -- The entry of a flow that is learned, before it is published.
  unfoldable pub fresh_entry : Env R F → Packet → ℕ → View → Entry
  fresh_entry c p nat_port v = record {
    mac_addr = p.src_addr;
    src_ip = p.flow.src_ip;
    dst_ip = p.flow.dst_ip;
    src_port = p.flow.src_port;
    dst_port = p.flow.dst_port;
    nat_port = nat_port;
    proto = p.proto;
    is_ready = true;
    track = nat_expire_set (expiry_cycles c.clock) (record v {
      tcp_state = none_state;
      fin_lan = false;
      fin_wan = false;
      max_seq_end_lan = 0;
      max_seq_end_wan = 0;
      max_ack_lan = 0;
      max_ack_wan = 0;
      max_win_lan = 0;
      max_win_wan = 0;
    });
  }

  unfoldable pub fill : Env R F → Packet → ℕ → State R F → ℕ → State R F
  fill c p nat_port s i = record s {
    addr_table = put i (fresh_entry c p nat_port ((s.addr_table i).track)) s.addr_table;
  }

  -- The reverse hash has no room: the slot goes straight back.
  unfoldable pub give_back : Env R F → State R F → ℕ → State R F
  give_back c s i = record s {
    addr_table = put i (record (s.addr_table i) { is_ready = false }) s.addr_table;
    free_ring = enqueue c.slots s.free_ring i;
  }

  -- The two additions, reverse first; a failed forward addition takes the reverse key back.
  unfoldable pub publish : Env R F → Packet → ℕ → State R F → ℕ → Turn R F
  publish c p nat_port s i = elim (c.reverse_hash.add s.reverse (flow_key p nat_port) i) [
    | none ↦ next_port (give_back c s i)
    | some r ↦ elim (c.forward_hash.add s.forward p.flow i) [
      | none ↦
          returned (failed ((del_reverse c (record s { reverse = r }) (flow_key p nat_port)).0))
      | some f ↦ returned (record {
        state = record s { reverse = r; forward = f };
        port = nat_port;
        out_entry = some i;
      })
    ]
  ]

  -- A slot is taken, filled and published; adding may first hand deferred slots to the callback.
  unfoldable pub allocated : Env R F → Packet → ℕ → State R F × Option ℕ → Turn R F
  allocated c p nat_port (s, none) = returned (failed s)
  allocated c p nat_port (s, some i) =
      publish c p nat_port (call_back c at_add (fill c p nat_port s i)) i

  -- The part under nat_insert_lock, which looks both keys up again.
  unfoldable pub insert : Env R F → Packet → ℕ → State R F → Turn R F
  insert c p nat_port s = elim (c.forward_hash.lookup s.forward p.flow) [
    | some i ↦ returned (found c s i (s.addr_table i).nat_port)
    | none ↦ elim (c.reverse_hash.lookup s.reverse (flow_key p nat_port)) [
      | some i ↦
          if same_flow (s.addr_table i) nat_port p.flow
          then returned (found c s i nat_port)
          else next_port s
      | none ↦ allocated c p nat_port (slot_alloc c s)
    ]
  ]

  -- One turn of the loop.
  unfoldable pub try_port : Env R F → Packet → ℕ → State R F → Turn R F
  try_port c p nat_port s =
      if (c.port_fwd_table (c.byte_order.be_to_cpu_16 nat_port)).is_active == 1
      then next_port s
      else elim (c.reverse_hash.lookup s.reverse (flow_key p nat_port)) [
        | some i ↦
            if same_flow (s.addr_table i) nat_port p.flow
            then returned (found c s i nat_port)
            else if not (is_expired c.clock (s.addr_table i))
            then next_port s
            else insert c p nat_port ((del_keys c s (s.addr_table i)).0)
        | none ↦ insert c p nat_port s
      ]

  -- The loop, from `nat_port` until it is back at `start`; fuel that runs out ends it as well.
  unfoldable pub walk : Env R F → Packet → ℕ → ℕ → ℕ → State R F → Learned R F
  walk c p start zero nat_port s = failed s
  walk c p start (suc fuel) nat_port s = elim (try_port c p nat_port s) [
    | returned r ↦ r
    | next_port s' ↦ elim (next_nat_port c.byte_order nat_port == start) [
      | true ↦ failed s'
      | false ↦ walk c p start fuel (next_nat_port c.byte_order nat_port) s'
    ]
  ]

  -- nat_learning_port_reuse; the loop has 65536 - 1000 ports to try.
  unfoldable pub learning : Env R F → Packet → State R F → Learned R F
  learning c p s = elim (c.forward_hash.lookup s.forward p.flow) [
    | some i ↦ found c s i (s.addr_table i).nat_port
    | none ↦
        let start = compute_initial_nat_port c p.flow.src_ip p.flow.src_port in
        walk c p start 64536 start s
  ]

  -- nat_reverse_lookup, with the state after and the index of the entry returned.
  unfoldable pub reverse_lookup : Env R F → State R F → ReverseKey → State R F × Option ℕ
  reverse_lookup c s key = elim (c.reverse_hash.lookup s.reverse key) [
    | none ↦ (s, none)
    | some i ↦
        if is_expired c.clock (s.addr_table i)
        then ((del_keys c s (s.addr_table i)).0, none)
        else (refresh c s i, some i)
  ]

  -- nat_icmp_learning: the identifier and the type stand for the ports.
  unfoldable pub icmp_learning : Env R F → State R F → ℕ → ℕ → ℕ → ℕ → ℕ → Learned R F
  icmp_learning c s mac src_addr dst_addr icmp_ident icmp_type =
      learning c
        (record {
          src_addr = mac;
          proto = 1;
          flow = record {
            src_ip = src_addr;
            dst_ip = dst_addr;
            src_port = icmp_ident;
            dst_port = icmp_type;
          };
        })
        s

  -- nat_udp_learning
  unfoldable pub udp_learning : Env R F → State R F → ℕ → ForwardKey → Learned R F
  udp_learning c s mac flow = learning c (record { src_addr = mac; proto = 17; flow = flow }) s

  -- tcp_conntrack_fsm and tcp_conntrack_seq_update on the entry that learning gave.
  unfoldable pub tracked : Env R F → TcpHdr → ℕ → Learned R F → Option ℕ → State R F
  tracked c hdr payload_len r none = r.state
  tracked c hdr payload_len r (some i) = if r.port == 0 then r.state else record (r.state) {
    addr_table =
        put i
          (record (r.state.addr_table i) {
            track = outbound c.clock ((r.state.addr_table i).track) hdr payload_len;
          })
          r.state.addr_table;
  }

  -- nat_tcp_learning
  unfoldable pub tcp_learning : Env R F → State R F → ℕ → ForwardKey → TcpHdr → ℕ → Learned R F
  tcp_learning c s mac flow hdr payload_len =
      let r = learning c (record { src_addr = mac; proto = 6; flow = flow }) s in
      record r { state = tracked c hdr payload_len r r.out_entry }
