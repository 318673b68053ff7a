-- ===== src/Dns/Proxy/Examples.antt =====
-- The properties of the cache and the proxy at concrete inputs.
use fastrg_node.Base.{
  ℕ, zero, suc, ◌+◌, ◌-◌, ◌≡◌, refl, List, [], ◌∷◌, true, some, length, take, arith, replicate,
}
use fastrg_node.Dns.{ok, read, read_bytes}
use fastrg_node.Dns.Examples.{
  to_lower, labels, a_query, address, name, zeros, one_record, to_lower-IsTolower, labels-AreLabels,
}
use fastrg_node.Dns.Name.{parse_name, domain_to_lower, name_loop, name_round, follow, append_label}
use fastrg_node.Dns.Name.Encode.{encode, spell}
use fastrg_node.Dns.Message.{
  Message, parse_query, parse_response, parse_header, parse_question, read16,
}
use fastrg_node.Dns.Response.{response_flags}
use fastrg_node.Dns.Response.Encode.{question, answer}
use fastrg_node.Dns.Response.RoundTrip.{query_bytes, question_bytes}
use fastrg_node.Dns.Domain.{domain_eq, store_domain}
use fastrg_node.Dns.Static.{Record, Status, find, add, update as update_record, fill, add_new}
use fastrg_node.Dns.Cache.{
  Clock, init, insert, lookup, searched, search, inserted, insert_new, update, make_room,
  cache_hash, hash_bytes,
}
use fastrg_node.Dns.Cache.Count.{IsCache}
use fastrg_node.Dns.Cache.Invariant.{init-IsCache, insert-IsCache}
use fastrg_node.Dns.Cache.Lookup.{response_of, insert-lookup}
use fastrg_node.Dns.Proxy.{Proxy, no_pending, has_pending_query, find_free_pending}
use fastrg_node.Dns.Proxy.Forwarding.{Fresh}
use fastrg_node.Dns.Proxy.Answer.{process_lan_udp_query-parse_response}
use fastrg_node.Dns.Proxy.Routing.{process_wan_udp_response-process_lan_udp_query, returned}
use fastrg_node.Dns.Proxy.Packets.{
  Env, Frame, answered, forwarded, to_wan, set_id, new_pending, ask_static, ask_cache, ask_upstream,
  take_slot, forward_query_to_wan, to_lan, send_response_to_lan, process_lan_udp_query,
  process_wan_udp_response,
}

-- A counter of 1000 cycles in a second.
abbrev clock : Clock
clock = record { now = 5000; cycles_in_sec = 1000; tolower = to_lower }

abbrev later_clock : Clock
later_clock = record { now = 8000; cycles_in_sec = 1000; tolower = to_lower }

insert-IsCache_example : IsCache ((insert true clock init name 1 (1 ∷ (2 ∷ [])) 9).1)
insert-IsCache_example = insert-IsCache true clock init name 1 (1 ∷ (2 ∷ [])) 9 init-IsCache

abbrev other_case : List ℕ
other_case = 97 ∷ (66 ∷ (46 ∷ (67 ∷ [])))

one_name : domain_eq to_lower name other_case ≡ true
unfolding domain_eq
one_name = refl

stored : (insert true clock init name 1 (1 ∷ (2 ∷ [])) 9).0 ≡ Status.success
unfolding insert inserted insert_new update make_room cache_hash hash_bytes
stored = refl

-- "aB.C" is found under "Ab.c", three seconds later.
insert-lookup_example :
    response_of
      ((lookup later_clock ((insert true clock init name 1 (1 ∷ (2 ∷ [])) 9).1) other_case 1).0)
    ≡ some (1 ∷ (2 ∷ []))
insert-lookup_example =
    insert-lookup true clock later_clock init name other_case 1 (1 ∷ (2 ∷ [])) 9 to_lower-IsTolower
      refl init-IsCache (omega arith) one_name (omega arith) (omega arith) (omega arith)
      (omega arith) stored

-- A subscriber's proxy with one static record, and a query for its name.
abbrev env : Env
env = record {
  dhcp_server_ip = 1;
  hsi_lan_mac = 2;
  hsi_wan_src_mac = 3;
  hsi_ipv4 = 4;
  ppp_dst_mac = 5;
  session_id = 6;
  dp_started = true;
  memory = true;
  ip_bytes = λ ip. address;
}

abbrev state : Proxy
state = record {
  cache = init;
  static_table = one_record;
  pending = replicate 32 no_pending;
  primary_dns = 8;
  secondary_dns = 9;
  active_dns = 8;
  last_response_time = 0;
  next_upstream_id = 1;
  dns_proxy_enabled = true;
}

abbrev frame : List ℕ → Frame
frame payload = record {
  src_mac = 20;
  dst_mac = 21;
  vlan_tci = 2;
  total_length = 28 + length payload;
  src_ip = 22;
  dst_ip = 1;
  src_port = 5353;
  dst_port = 53;
  dgram_len = 8 + length payload;
  payload = payload;
}

-- The record that a query for "Ab.c" is answered from.
abbrev static_record : Record
static_record = record {
  domain = store_domain to_lower name;
  ip_addr = 7;
  ttl = 3600;
  active = true;
}

static_found :
    find to_lower (domain_to_lower to_lower (spell [] labels)) state.static_table.records
    ≡ some static_record
unfolding find domain_to_lower spell domain_eq store_domain add update_record fill add_new
static_found = refl

whole_query :
    take (8 + length a_query - 8) a_query
    ≡ query_bytes 0x12 0x34 1 0 (zeros (question_bytes labels 0 1 0 1 []))
unfolding encode
whole_query = refl

process_lan_udp_query-parse_response_example :
    (resp : List ℕ) × (process_lan_udp_query env clock state (frame a_query)
      ≡ ok (send_response_to_lan env (frame a_query) resp, state))
    × (parse_response to_lower resp
        ≡ ok (record {
          header = record {
            id = 0x1234;
            flags = response_flags 0 256;
            qdcount = 1;
            ancount = 1;
            nscount = 0;
            arcount = 0;
          };
          question = question to_lower labels 0 1 0 1;
          answers = answer to_lower labels address 3600 ∷ [];
          answer_count = 1;
          min_ttl = 3600;
        }))
unfolding encode spell
process_lan_udp_query-parse_response_example =
    process_lan_udp_query-parse_response env clock state (frame a_query) static_record 0x12 0x34 1 0
      0 0 0 0 0 0 labels 0 1 [] refl (omega arith) whole_query (omega arith) (omega arith)
      labels-AreLabels (omega arith) (omega arith) static_found refl (omega arith)

-- A query for "x" is forwarded, and answered under the identifier 1.
abbrev x_query : List ℕ
x_query =
    0x12 ∷ (0x34 ∷ (1 ∷ (0 ∷ (0 ∷ (1 ∷ zeros (1 ∷ (120 ∷ (0 ∷ (0 ∷ (1 ∷ (0 ∷ (1 ∷ []))))))))))))

-- The reply behind its identifier.
abbrev x_rest : List ℕ
x_rest = 0x81 ∷ (0x80 ∷ (0 ∷ (1 ∷ zeros (1 ∷ (120 ∷ (0 ∷ (0 ∷ (1 ∷ (0 ∷ (1 ∷ []))))))))))

abbrev x_reply : List ℕ
x_reply = 0 ∷ (1 ∷ x_rest)

abbrev x_message : Message
x_message = record {
  header = record { id = 0x1234; flags = 256; qdcount = 1; ancount = 0; nscount = 0; arcount = 0 };
  question = record { name = 120 ∷ []; qtype = 1; qclass = 1; name_wire_len = 3 };
  answers = [];
  answer_count = 0;
  min_ttl = 0;
}

x_parsed : parse_query to_lower (take ((frame x_query).dgram_len - 8) x_query) ≡ ok x_message
unfolding parse_query parse_header parse_question parse_name name_loop name_round follow
    append_label read16 read read_bytes domain_to_lower
x_parsed = refl

all-Fresh : (n : ℕ) → Fresh 1 (replicate n no_pending)
all-Fresh zero = tt
all-Fresh (suc n) = (refl, all-Fresh n)

abbrev waiting : Proxy
waiting = record state {
  pending = new_pending clock (frame x_query) x_message 1 ∷ replicate 31 no_pending;
  next_upstream_id = 2;
}

x_forwarded :
    process_lan_udp_query env clock state (frame x_query)
    ≡ ok (
      forwarded (
          to_wan 6 (record (frame x_query) {
            src_mac = 3;
            dst_mac = 5;
            src_ip = 4;
            dst_ip = 8;
            src_port = 0x8001;
            payload = set_id 1 x_query;
          })),
      waiting,
    )
unfolding process_lan_udp_query parse_query parse_header parse_question parse_name name_loop
    name_round follow append_label read16 read read_bytes domain_to_lower ask_static ask_cache
    ask_upstream take_slot forward_query_to_wan has_pending_query find_free_pending find domain_eq
    store_domain add update_record fill add_new lookup searched search cache_hash hash_bytes
x_forwarded = refl

process_wan_udp_response-process_lan_udp_query_example :
    (msg : Message) × (state'' : Proxy) × (parse_query to_lower
        (take ((frame x_query).dgram_len - 8) x_query)
      ≡ ok msg)
    × (process_wan_udp_response env later_clock waiting (frame x_reply)
        ≡ ok (answered (to_lan (returned env (frame x_query) msg x_rest (frame x_reply))), state''))
process_wan_udp_response-process_lan_udp_query_example =
    process_wan_udp_response-process_lan_udp_query env env clock later_clock state waiting
      (frame x_query) (frame x_reply) _ x_rest x_forwarded (all-Fresh 32) (omega arith)
      (omega arith) (omega arith) (omega arith) (omega arith) refl (omega arith) (omega arith)
      (omega arith)
