-- ===== src/Dns/Proxy/Routing.antt =====
-- A response from the WAN goes to the client whose query was forwarded: src/dnsd/dnsd.c.
use fastrg_node.Base.{
  ℕ, suc, ◌+◌, ◌-◌, ◌*◌, ◌/◌, ◌%◌, ◌^◌, ◌≤◌, ◌<◌, ◌≡◌, refl, List, ◌∷◌, false, ◌||◌, ltb, length,
  take, arith, length-take, lt→leb_false, subst,
}
use fastrg_node.Dns.{Result, ok, rejected, fault, stuck, Safe, u16, read}
use fastrg_node.Dns.Message.{Message, parse_query, parse_response, read16}
use fastrg_node.Dns.Message.Safe.{MessageFits, parse_response-Safe}
use fastrg_node.Dns.Cache.{Clock, Cache}
use fastrg_node.Dns.Proxy.{Pending, Proxy, timed_out, seconds, elapsed, clear_active}
use fastrg_node.Dns.Proxy.Packets.{
  Env, Frame, answered, forwarded, Sent, to_lan, otherwise, map_ok, process_lan_udp_query,
  new_pending, cache_response, deliver, dispatch, process_wan_udp_response,
}
use fastrg_node.Dns.Proxy.Forwarding.{Fresh, Forwards, Asked, process-Forwards}

-- A response that returns leaves some cache.
otherwise_ok :
    (f : Message → Cache) (c : Cache) (r : Result Message)
    → Safe MessageFits r
    → (c' : Cache) × (otherwise (map_ok f r) (ok c) ≡ ok c')
otherwise_ok f c (ok msg) h = (f msg, refl)
otherwise_ok f c rejected h = (c, refl)
otherwise_ok f c fault h = absurd h
otherwise_ok f c stuck h = absurd h

in_time :
    (clock clock' : Clock)
    → clock.now ≤ clock'.now
    → clock'.now < 2 ^ 64
    → clock'.now - clock.now < 5 * clock'.cycles_in_sec
    → 5 * clock'.cycles_in_sec < 2 ^ 64
    → (p : Pending) → p.start_tsc ≡ clock.now
    → timed_out clock' p ≡ false
unfolding timed_out
in_time clock clock' order now within room p start =
    let e : seconds clock' 5 ≡ 5 * clock'.cycles_in_sec = omega arith in
    let e' : elapsed clock' clock.now ≡ clock'.now - clock.now = omega arith in
    rw (start, e, e') (lt→leb_false (clock'.now - clock.now) (5 * clock'.cycles_in_sec) within)

-- The identifier that a response begins with.
read16-id :
    (id n : ℕ) (payload rest : List ℕ)
    → id < 65536
    → 2 ≤ n
    → payload ≡ (id / 256) ∷ ((id % 256) ∷ rest)
    → read16 (take n payload) 0 ≡ ok id
unfolding read16 read
read16-id id n payload rest lt le h =
    let e : n ≡ suc (suc (n - 2)) = omega arith in
    let e' : u16 (id / 256 * 256 + id % 256) ≡ id = omega arith in rw (e, h, e') refl

pub is_framed : (n m : ℕ) → 20 ≤ n → n ≤ m → (ltb n 20 || ltb m n) ≡ false
is_framed n m h k = ground arith

-- The reply with the addresses of the client that asked, and the identifier of its query before the
-- `rest` of the message.
abbrev pub returned : Env → Frame → Message → List ℕ → Frame → Frame
returned env query msg rest reply = record reply {
  src_mac = env.hsi_lan_mac;
  dst_mac = query.src_mac;
  vlan_tci = query.vlan_tci;
  src_ip = env.dhcp_server_ip;
  dst_ip = query.src_ip;
  src_port = 53;
  dst_port = query.src_port;
  payload = (msg.header.id / 256) ∷ ((msg.header.id % 256) ∷ rest);
}

-- A query that dnsd_cp_process_lan_udp_query forwards under an identifier that no slot in use has, and a
-- well-framed packet that dnsd_cp_process_wan_udp_response gets with this identifier within five seconds, in
-- the state that the query left: the packet is sent to the client that asked, to its address, port and VLAN, with the
-- identifier of its query and the rest of the message as it came.
pub process_wan_udp_response-process_lan_udp_query :
    (env env' : Env) (clock clock' : Clock) (state state' : Proxy) (query reply : Frame) (s : Sent)
    (rest : List ℕ)
    → process_lan_udp_query env clock state query ≡ ok (forwarded s, state')
    → Fresh state.next_upstream_id state.pending
    → state.next_upstream_id < 65536
    → clock.now ≤ clock'.now
    → clock'.now < 2 ^ 64
    → clock'.now - clock.now < 5 * clock'.cycles_in_sec
    → 5 * clock'.cycles_in_sec < 2 ^ 64
    → reply.payload ≡ (state.next_upstream_id / 256) ∷ ((state.next_upstream_id % 256) ∷ rest)
    → 20 ≤ reply.dgram_len
    → reply.dgram_len ≤ 8 + length reply.payload
    → reply.dgram_len < 65536
    → (msg : Message) × (state'' : Proxy) × (parse_query clock.tolower
          (take (query.dgram_len - 8) query.payload)
        ≡ ok msg)
      × (process_wan_udp_response env' clock' state' reply
          ≡ ok (answered (to_lan (returned env' query msg rest reply)), state''))
unfolding process_wan_udp_response dispatch deliver
process_wan_udp_response-process_lan_udp_query env env' clock clock' state state' query reply s rest
      sent fresh id_fits order now within room payload low high small =
    let id = state.next_upstream_id in
    let (msg, parsed, (i, found)) : Asked env clock clock' query id state.pending fresh
        (in_time clock clock' order now within room) state' =
      subst
        (Forwards (
          Asked env clock clock' query id state.pending fresh
            (in_time clock clock' order now within room)))
        sent
        (process-Forwards env clock clock' query id state.pending fresh
          (in_time clock clock' order now within room) state (refl, refl)) in
    let dns = take (reply.dgram_len - 8) reply.payload in
    let accepted : (ltb reply.dgram_len 20 || ltb (8 + length reply.payload) reply.dgram_len)
        ≡ false =
      is_framed reply.dgram_len (8 + length reply.payload) low high in
    let short : length dns < 65536 =
      omega (arith, length-take {0} (reply.dgram_len - 8) reply.payload) in
    let (cache, kept) =
      otherwise_ok
        (λ m. cache_response env' clock' (new_pending clock query msg id) dns m state'.cache)
        state'.cache (parse_response clock'.tolower dns)
        (parse_response-Safe clock'.tolower dns short) in
    (
      msg,
      record state' {
        cache = cache;
        last_response_time = clock'.now;
        pending = clear_active i state'.pending;
      },
      parsed,
      rw
          (
            process_wan_udp_response,
            accepted,
            read16-id id (reply.dgram_len - 8) reply.payload rest id_fits (omega arith) payload,
            found,
            kept,
            payload,
          )
          refl,
    )
