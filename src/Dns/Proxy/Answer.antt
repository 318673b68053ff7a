-- ===== src/Dns/Proxy/Answer.antt =====
-- The answer of src/dnsd/dnsd.c to a query for a name with a static record.
use fastrg_node.Base.{
  ℕ, ◌+◌, ◌-◌, ◌*◌, ◌/◌, ◌%◌, ◌^◌, ◌≤◌, ◌<◌, ◌≡◌, refl, List, [], ◌∷◌, true, false, ◌||◌, not, leb,
  ltb, ◌==◌, some, length, take, arith, length-append, length-take, le→leb, ne→==, ◌∙◌, ap,
}
use fastrg_node.Dns.{ok, u16, read}
use fastrg_node.Dns.Name.{domain_to_lower}
use fastrg_node.Dns.Name.Encode.{encode, spell, AreLabels}
use fastrg_node.Dns.Message.{Message, parse_header, parse_query, parse_response, read16}
use fastrg_node.Dns.Response.{response_flags, answer_a, build_response_a}
use fastrg_node.Dns.Response.Encode.{question, answer, parse_question-encode, length-answer_a}
use fastrg_node.Dns.Response.RoundTrip.{
  query_bytes, response_bytes, question_bytes, build_response_a-bytes, parse_response-bytes,
  response_flags_fit,
}
use fastrg_node.Dns.Static.{Record, find}
use fastrg_node.Dns.Cache.{Clock}
use fastrg_node.Dns.Proxy.{Proxy}
use fastrg_node.Dns.Proxy.Routing.{is_framed}
use fastrg_node.Dns.Proxy.Packets.{
  Env, Frame, send_response_to_lan, ask_static, process_lan_udp_query,
}

no_response_flags :
    (f1 f2 : ℕ) → f1 < 128 → f2 < 256 → (u16 (f1 * 256 + f2) / 32768 % 2 == 1) ≡ false
no_response_flags f1 f2 h k = ne→== (u16 (f1 * 256 + f2) / 32768 % 2) 1 (λ e. omega arith)

-- What dns_parse_query reads of a query.
parse_query-bytes :
    (tolower : ℕ → ℕ) (i1 i2 f1 f2 a1 a2 n1 n2 r1 r2 : ℕ) (ls : List (List ℕ)) (t1 t2 c1 c2 : ℕ)
    (trail : List ℕ)
    → f1 < 128
    → f2 < 256
    → AreLabels ls
    → length (spell [] ls) ≤ 253
    → 12 + length (question_bytes ls t1 t2 c1 c2 trail) < 65536
    → (msg : Message) × (parse_query tolower (
          query_bytes i1 i2 f1 f2
            (a1 ∷ (a2 ∷ (n1 ∷ (n2 ∷ (r1 ∷ (r2 ∷ question_bytes ls t1 t2 c1 c2 trail)))))))
        ≡ ok msg)
      × (msg.question ≡ question tolower ls t1 t2 c1 c2)
      × (msg.header.id ≡ u16 (i1 * 256 + i2))
unfolding parse_query parse_header read16 read
parse_query-bytes tolower i1 i2 f1 f2 a1 a2 n1 n2 r1 r2 ls t1 t2 c1 c2 trail b1 b2 labels fits
      short =
    let query =
      query_bytes i1 i2 f1 f2
        (a1 ∷ (a2 ∷ (n1 ∷ (n2 ∷ (r1 ∷ (r2 ∷ question_bytes ls t1 t2 c1 c2 trail)))))) in
    let long : leb 12 (length query) ≡ true = le→leb 12 (length query) (omega arith) in
    let q =
      parse_question-encode tolower query 12 ls t1 t2 c1 c2 trail (omega arith) labels refl fits in
    let msg : Message = record {
      header = record {
        id = u16 (i1 * 256 + i2);
        flags = u16 (f1 * 256 + f2);
        qdcount = 1;
        ancount = u16 (a1 * 256 + a2);
        nscount = u16 (n1 * 256 + n2);
        arcount = u16 (r1 * 256 + r2);
      };
      question = question tolower ls t1 t2 c1 c2;
      answers = [];
      answer_count = 0;
      min_ttl = 0;
    } in
    (msg, rw (long, no_response_flags f1 f2 b1 b2, q) refl, refl, refl)

ask_static-found :
    (env : Env) (clock : Clock) (frame : Frame) (dns resp : List ℕ) (msg : Message) (state : Proxy)
    (r : Record)
    → msg.question.qtype ≡ 1
    → build_response_a clock.tolower dns (env.ip_bytes r.ip_addr) r.ttl 512 ≡ ok resp
    → ask_static env clock frame dns msg state (some r)
      ≡ ok (send_response_to_lan env frame resp, state)
unfolding ask_static
ask_static-found env clock frame dns resp msg state r e e' = rw (e, e') refl

-- The proxy answers a query of type A for a name that has a static record: dnsd_cp_process_lan_udp_query
-- sends to the client a response that dns_parse_response reads as the query's question with one answer,
-- the address and the TTL of the record, and the state stays as it is. The query has one question, a
-- name whose text has at most 253 bytes, and at most 496 bytes.
pub process_lan_udp_query-parse_response :
    (env : Env) (clock : Clock) (state : Proxy) (frame : Frame) (r : Record)
    (i1 i2 f1 f2 a1 a2 n1 n2 r1 r2 : ℕ) (ls : List (List ℕ)) (c1 c2 : ℕ) (trail : List ℕ)
    → state.dns_proxy_enabled ≡ true
    → frame.dgram_len ≤ 8 + length frame.payload
    → take (frame.dgram_len - 8) frame.payload
      ≡ query_bytes i1 i2 f1 f2
          (a1 ∷ (a2 ∷ (n1 ∷ (n2 ∷ (r1 ∷ (r2 ∷ question_bytes ls 0 1 c1 c2 trail))))))
    → f1 < 128
    → f2 < 256
    → AreLabels ls
    → length (spell [] ls) ≤ 253
    → 28 + length (question_bytes ls 0 1 c1 c2 trail) ≤ 512
    → find clock.tolower (domain_to_lower clock.tolower (spell [] ls)) state.static_table.records
      ≡ some r
    → length (env.ip_bytes r.ip_addr) ≡ 4
    → r.ttl < 2 ^ 32
    → (resp : List ℕ) × (process_lan_udp_query env clock state frame
        ≡ ok (send_response_to_lan env frame resp, state))
      × (parse_response clock.tolower resp
          ≡ ok (record {
            header = record {
              id = u16 (i1 * 256 + i2);
              flags = response_flags 0 (f1 * 256 + f2);
              qdcount = 1;
              ancount = 1;
              nscount = 0;
              arcount = 0;
            };
            question = question clock.tolower ls 0 1 c1 c2;
            answers = answer clock.tolower ls (env.ip_bytes r.ip_addr) r.ttl ∷ [];
            answer_count = 1;
            min_ttl = r.ttl;
          }))
unfolding process_lan_udp_query
process_lan_udp_query-parse_response env clock state frame r i1 i2 f1 f2 a1 a2 n1 n2 r1 r2 ls c1 c2
      trail enabled framed bytes b1 b2 labels fits room static four ttl_fits =
    let query =
      query_bytes i1 i2 f1 f2
        (a1 ∷ (a2 ∷ (n1 ∷ (n2 ∷ (r1 ∷ (r2 ∷ question_bytes ls 0 1 c1 c2 trail)))))) in
    let ip = env.ip_bytes r.ip_addr in
    let flags = response_flags 0 (f1 * 256 + f2) in
    let resp = response_bytes i1 i2 flags 1 (question_bytes ls 0 1 c1 c2 (answer_a ip r.ttl)) in
    let e : u16 (f1 * 256 + f2) ≡ f1 * 256 + f2 = omega arith in
    let low : 20 ≤ frame.dgram_len =
      omega (arith, ap length bytes, length-take {0} (frame.dgram_len - 8) frame.payload) in
    let accepted : (not state.dns_proxy_enabled
          || ltb frame.dgram_len 20
          || ltb (8 + length frame.payload) frame.dgram_len)
        ≡ false =
      rw enabled (is_framed frame.dgram_len (8 + length frame.payload) low framed) in
    let (msg, parsed, asked, id) =
      parse_query-bytes clock.tolower i1 i2 f1 f2 a1 a2 n1 n2 r1 r2 ls 0 1 c1 c2 trail b1 b2 labels
        fits (omega arith) in
    let built =
      build_response_a-bytes clock.tolower i1 i2 f1 f2 a1 a2 n1 n2 r1 r2 ls 0 1 c1 c2 trail ip r.ttl
        512 labels fits room (omega arith) in
    let (f, f') = response_flags_fit f1 f2 (omega arith) b2 in
    let n : length (question_bytes ls 0 1 c1 c2 (answer_a ip r.ttl)) < 65524 = omega (
      arith,
      length-append {0} (encode ls) (0 ∷ (1 ∷ (c1 ∷ (c2 ∷ trail)))),
      length-append {0} (encode ls) (0 ∷ (1 ∷ (c1 ∷ (c2 ∷ answer_a ip r.ttl)))),
      length-answer_a ip r.ttl four,
    ) in
    let static' : find clock.tolower msg.question.name state.static_table.records ≡ some r =
      ap (λ q. find clock.tolower q.name state.static_table.records) asked ∙ static in
    let answered' =
      ask_static-found env clock frame query resp msg state r (ap (λ q. q.qtype) asked) (
        built
        ∙ ap
            (λ v. ok (
              response_bytes i1 i2 (response_flags 0 v) 1
                (question_bytes ls 0 1 c1 c2 (answer_a ip r.ttl))))
            e) in
    (
      resp,
      rw (process_lan_udp_query, accepted, bytes, parsed, static', answered') refl,
      parse_response-bytes clock.tolower i1 i2 flags ls 0 1 c1 c2 ip r.ttl f f' labels fits n four
          ttl_fits,
    )
