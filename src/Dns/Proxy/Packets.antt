-- ===== src/Dns/Proxy/Packets.antt =====
-- The packets from the LAN and the WAN in src/dnsd/dnsd.c. A packet is the fields of its headers that the
-- code reads or writes; checksums are those of DPDK and left out.
use Prim.Native.Nat.{bit_or}
use fastrg_node.Base.{
  ℕ, ◌+◌, ◌-◌, ◌/◌, ◌%◌, List, Bool, true, ◌&&◌, ◌||◌, not, ltb, ◌==◌, if◌then◌else◌, Option, none,
  some, length, set, take,
}
use fastrg_node.Dns.{Result, ok, rejected, fault, stuck, ◌>>=◌}
use fastrg_node.Dns.Message.{Message, read16, parse_query, parse_response, hdr_len}
use fastrg_node.Dns.Response.{build_response_a, build_response_servfail}
use fastrg_node.Dns.Static.{Record, find}
use fastrg_node.Dns.Cache.{Clock, Entry, Cache, lookup, insert, max_packet_len}
use fastrg_node.Dns.Proxy.{
  Pending, Proxy, type_a, check_failover, has_pending_query, find_free_pending, Match, unmatched,
  lapsed, matched, find_pending_by_upstream_id, clear_active,
}

-- A packet; `payload` is the bytes behind the UDP header, up to the packet's end.
pub record Frame : Type 0 where
  pub src_mac : ℕ
  pub dst_mac : ℕ
  pub vlan_tci : ℕ
  pub total_length : ℕ
  pub src_ip : ℕ
  pub dst_ip : ℕ
  pub src_port : ℕ
  pub dst_port : ℕ
  pub dgram_len : ℕ
  pub payload : List ℕ

-- What the code reads of the subscriber and of the node. `ip_bytes` is an address as memcpy copies it.
pub record Env : Type 0 where
  pub dhcp_server_ip : ℕ
  pub hsi_lan_mac : ℕ
  pub hsi_wan_src_mac : ℕ
  pub hsi_ipv4 : ℕ
  pub ppp_dst_mac : ℕ
  pub session_id : ℕ
  pub dp_started : Bool
  pub memory : Bool
  pub ip_bytes : ℕ → List ℕ

-- What is sent: lan_ctrl_tx, or wan_ctrl_tx behind a PPPoE header of the session.
pub data Sent : Type 0 where
  to_lan : Frame → Sent
  to_wan : ℕ → Frame → Sent

-- The return codes -1, 1 and 0 of a query, and 0 and 1 of a response.
pub data Verdict : Type 0 where
  dropped : Verdict
  answered : Sent → Verdict
  forwarded : Sent → Verdict

-- The bytes with the identifier of the message replaced.
abbrev pub set_id : ℕ → List ℕ → List ℕ
set_id id payload = set (set payload 0 (id / 256)) 1 (id % 256)

-- cp_send_dns_udp_response_to_lan
unfoldable pub send_response_to_lan : Env → Frame → List ℕ → Verdict
send_response_to_lan env frame dns_resp = answered (
    to_lan (record frame {
      dst_mac = frame.src_mac;
      src_mac = env.hsi_lan_mac;
      src_ip = env.dhcp_server_ip;
      dst_ip = frame.src_ip;
      src_port = frame.dst_port;
      dst_port = frame.src_port;
      payload = dns_resp;
      dgram_len = (8 + length dns_resp) % 65536;
      total_length = (28 + length dns_resp) % 65536;
    }))

-- cp_forward_dns_query_to_wan
unfoldable pub forward_query_to_wan : Env → Frame → Proxy → Pending → Verdict
forward_query_to_wan env frame state pending = forwarded (
    to_wan env.session_id (record frame {
      src_ip = env.hsi_ipv4;
      dst_ip = state.active_dns;
      src_port = bit_or pending.upstream_id 0x8000;
      dst_port = 53;
      payload = set_id pending.upstream_id frame.payload;
      src_mac = env.hsi_wan_src_mac;
      dst_mac = env.ppp_dst_mac;
    }))

-- A call that rejects goes on with what follows it.
abbrev pub otherwise {ℓ} : {A : Type ℓ} → Result A → Result A → Result A
otherwise (ok a) m = ok a
otherwise rejected m = m
otherwise fault m = fault
otherwise stuck m = stuck

abbrev pub map_ok {ℓ κ} : {A : Type ℓ} {B : Type κ} → (A → B) → Result A → Result B
map_ok f (ok a) = ok (f a)
map_ok f rejected = rejected
map_ok f fault = fault
map_ok f stuck = stuck

-- pending->upstream_id = state->next_upstream_id++; 0 is left out.
abbrev pub following_id : ℕ → ℕ
following_id id = if (id + 1) % 65536 == 0 then 1 else (id + 1) % 65536

abbrev pub new_pending : Clock → Frame → Message → ℕ → Pending
new_pending clock frame msg id = record {
  active = true;
  original_id = msg.header.id;
  upstream_id = id;
  client_ip = frame.src_ip;
  client_port = frame.src_port;
  client_mac = frame.src_mac;
  vlan_tci = frame.vlan_tci;
  qtype = msg.question.qtype;
  domain = msg.question.name;
  start_tsc = clock.now;
}

-- return SERVFAIL
unfoldable pub answer_servfail : Env → Clock → Frame → List ℕ → Proxy → Result (Verdict × Proxy)
answer_servfail env clock frame dns state =
    otherwise
      (map_ok (λ resp. (send_response_to_lan env frame resp, state))
        (build_response_servfail clock.tolower dns max_packet_len))
      (ok (dropped, state))

-- The slot that a query is forwarded in.
unfoldable pub take_slot :
    Env → Clock → Frame → List ℕ → Message → Proxy → Option ℕ → Result (Verdict × Proxy)
take_slot env clock frame dns msg state none = answer_servfail env clock frame dns state
take_slot env clock frame dns msg state (some i) =
    let p = new_pending clock frame msg state.next_upstream_id in
    ok (
      forward_query_to_wan env frame state p,
      record state {
        pending = set state.pending i p;
        next_upstream_id = following_id state.next_upstream_id;
      },
    )

-- Priority 3: the upstream server.
unfoldable pub ask_upstream :
    Env → Clock → Frame → List ℕ → Message → Proxy → Result (Verdict × Proxy)
ask_upstream env clock frame dns msg state =
    if env.dp_started && not (state.active_dns == 0)
    then (let state' =
          if has_pending_query clock state.pending then check_failover clock state else state in
        take_slot env clock frame dns msg state' (find_free_pending clock state'.pending))
    else answer_servfail env clock frame dns state

-- Priority 2: the cache.
unfoldable pub ask_cache :
    Env → Clock → Frame → List ℕ → Message → Proxy → Option Entry × Cache → Result (Verdict × Proxy)
ask_cache env clock frame dns msg state (none, cache) =
    ask_upstream env clock frame dns msg (record state { cache = cache })
ask_cache env clock frame dns msg state (some e, cache) = ok (
  send_response_to_lan env frame (set_id msg.header.id e.response),
  record state { cache = cache },
)

-- Priority 1: the static records.
unfoldable pub ask_static :
    Env → Clock → Frame → List ℕ → Message → Proxy → Option Record → Result (Verdict × Proxy)
ask_static env clock frame dns msg state found =
    let rest =
      ask_cache env clock frame dns msg state
        (lookup clock state.cache msg.question.name msg.question.qtype) in
    elim found [
      | none ↦ rest
      | some r ↦
          if msg.question.qtype == type_a
          then otherwise
              (map_ok (λ resp. (send_response_to_lan env frame resp, state))
                (build_response_a clock.tolower dns (env.ip_bytes r.ip_addr) r.ttl max_packet_len))
              rest
          else rest
    ]

-- dnsd_cp_process_lan_udp_query, for a packet that holds its headers; a shorter one is dropped.
unfoldable pub process_lan_udp_query : Env → Clock → Proxy → Frame → Result (Verdict × Proxy)
process_lan_udp_query env clock state frame =
    if not state.dns_proxy_enabled
      || ltb frame.dgram_len (8 + hdr_len)
      || ltb (8 + length frame.payload) frame.dgram_len
    then ok (dropped, state)
    else (let dns = take (frame.dgram_len - 8) frame.payload in
        otherwise
          (parse_query clock.tolower dns >>= λ msg.
            ask_static env clock frame dns msg state
              (find clock.tolower msg.question.name state.static_table.records))
          (ok (dropped, state)))

-- What of a parsed response goes into the cache. A response that does not parse goes nowhere.
unfoldable pub cache_response : Env → Clock → Pending → List ℕ → Message → Cache → Cache
cache_response env clock p dns msg cache =
    if (msg.header.flags % 16 == 0) && ltb 0 msg.answer_count
    then (insert env.memory clock cache p.domain p.qtype (set_id p.original_id dns)
        (if ltb 0 msg.min_ttl then msg.min_ttl else 60)).1
    else cache

-- What is done with the response to the query in slot `i`.
unfoldable pub deliver :
    Env → Clock → Proxy → Frame → List ℕ → ℕ → Pending → Result (Verdict × Proxy)
deliver env clock state frame dns i p =
    otherwise
      (map_ok (λ msg. cache_response env clock p dns msg state.cache)
        (parse_response clock.tolower dns))
      (ok state.cache)
    >>= λ cache. ok (
      answered (
          to_lan (record frame {
            src_mac = env.hsi_lan_mac;
            dst_mac = p.client_mac;
            vlan_tci = p.vlan_tci;
            src_ip = env.dhcp_server_ip;
            dst_ip = p.client_ip;
            src_port = 53;
            dst_port = p.client_port;
            payload = set_id p.original_id frame.payload;
          })),
      record state {
        cache = cache;
        last_response_time = clock.now;
        pending = clear_active i state.pending;
      },
    )

unfoldable pub dispatch : Env → Clock → Proxy → Frame → List ℕ → Match → Result (Verdict × Proxy)
dispatch env clock state frame dns unmatched = ok (dropped, state)
dispatch env clock state frame dns (lapsed i) =
    ok (dropped, record state { pending = clear_active i state.pending })
dispatch env clock state frame dns (matched i p) = deliver env clock state frame dns i p

-- dnsd_cp_process_wan_udp_response, for a packet that holds its headers; a shorter one is dropped.
unfoldable pub process_wan_udp_response : Env → Clock → Proxy → Frame → Result (Verdict × Proxy)
process_wan_udp_response env clock state frame =
    if ltb frame.dgram_len (8 + hdr_len) || ltb (8 + length frame.payload) frame.dgram_len
    then ok (dropped, state)
    else (let dns = take (frame.dgram_len - 8) frame.payload in
        read16 dns 0 >>= λ id.
        dispatch env clock state frame dns (find_pending_by_upstream_id clock id state.pending))
