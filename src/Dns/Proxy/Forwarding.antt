-- ===== src/Dns/Proxy/Forwarding.antt =====
-- The queries that src/dnsd/dnsd.c forwards, and the slots that they wait in.
use fastrg_node.Base.{
  ℕ, suc, ◌+◌, ◌-◌, ◌≡◌, refl, List, [], ◌∷◌, true, false, ◌&&◌, ◌||◌, not, ltb, ◌==◌, Option, none,
  some, length, set, take, arith, Bool-cases, Option-cases, inl, inr, ==_iff, sym, ◌∙◌,
}
use fastrg_node.Dns.{Result, ok, rejected, fault, stuck, ◌>>=◌}
use fastrg_node.Dns.Message.{Message, parse_query}
use fastrg_node.Dns.Response.{build_response_a, build_response_servfail}
use fastrg_node.Dns.Static.{Record, find}
use fastrg_node.Dns.Cache.{lookup, max_packet_len, Clock, Cache, Entry}
use fastrg_node.Dns.Proxy.Packets.{
  Env, Frame, Verdict, dropped, answered, forwarded, send_response_to_lan, forward_query_to_wan,
  otherwise, map_ok, new_pending, answer_servfail, take_slot, ask_upstream, ask_cache, ask_static,
  process_lan_udp_query,
}
use fastrg_node.Dns.Proxy.{
  Pending, Proxy, find_free_pending, matched, find_pending_by_upstream_id, timed_out,
  check_failover, has_pending_query, type_a,
}

-- No slot that is in use has the identifier.
abbrev pub Fresh : ℕ → List Pending → Type 0
Fresh id [] = Unit {0}
Fresh id (p ∷ ps) = ((p.active && (p.upstream_id == id)) ≡ false) × Fresh id ps

find_pending-set :
    (clock clock' : Clock) (ps : List Pending) (i : ℕ) (p : Pending)
    → find_free_pending clock ps ≡ some i
    → Fresh p.upstream_id ps
    → p.active ≡ true
    → timed_out clock' p ≡ false
    → find_pending_by_upstream_id clock' p.upstream_id (set ps i p) ≡ matched i p
unfolding find_free_pending find_pending_by_upstream_id timed_out
find_pending-set clock clock' [] i p h fresh on live = ground (arith, h)
find_pending-set clock clock' (q ∷ ps) i p h fresh on live =
    elim (Bool-cases (not q.active || timed_out clock q)) [
      | inl e ↦
          let z : i ≡ 0 = ground (arith, h, e) in
          rw (z, on, (==_iff p.upstream_id p.upstream_id).1 refl, live) refl
      | inr e ↦ elim (Option-cases (find_free_pending clock ps)) [
        | inl k ↦ ground (arith, h, e, k)
        | inr (j, k) ↦
            let z : i ≡ suc j = ground (arith, h, e, k) in
            let other : (not q.active || not (q.upstream_id == p.upstream_id)) ≡ true =
              ground (arith, fresh.0) in
            rw (z, other, find_pending-set clock clock' ps j p k fresh.1 on live) refl
      ]
    ]

-- What is left to show of a query's outcome where the query was forwarded.
abbrev pub Forwards : (Proxy → Type 0) → Result (Verdict × Proxy) → Type 0
Forwards Q (ok (dropped, state)) = Unit {0}
Forwards Q (ok (answered s, state)) = Unit {0}
Forwards Q (ok (forwarded s, state)) = Q state
Forwards Q rejected = Unit {0}
Forwards Q fault = Unit {0}
Forwards Q stuck = Unit {0}

Forwards-otherwise :
    (Q : Proxy → Type 0) (env : Env) (frame : Frame) (state : Proxy) (r : Result (List ℕ))
    (m : Result (Verdict × Proxy))
    → Forwards Q m
    → Forwards Q (otherwise (map_ok (λ resp. (send_response_to_lan env frame resp, state)) r) m)
unfolding send_response_to_lan
Forwards-otherwise Q env frame state (ok resp) m h = tt
Forwards-otherwise Q env frame state rejected m h = h
Forwards-otherwise Q env frame state fault m h = tt
Forwards-otherwise Q env frame state stuck m h = tt

Forwards-imp :
    (P Q : Proxy → Type 0)
    → ((state : Proxy) → P state → Q state)
    → (r : Result (Verdict × Proxy)) → Forwards P r
    → Forwards Q r
Forwards-imp P Q f (ok (dropped, state)) h = tt
Forwards-imp P Q f (ok (answered s, state)) h = tt
Forwards-imp P Q f (ok (forwarded s, state)) h = f state h
Forwards-imp P Q f rejected h = tt
Forwards-imp P Q f fault h = tt
Forwards-imp P Q f stuck h = tt

Forwards-dropped :
    (Q : Proxy → Type 0) (state : Proxy) (r : Result (Verdict × Proxy))
    → Forwards Q r
    → Forwards Q (otherwise r (ok (dropped, state)))
Forwards-dropped Q state (ok r) h = h
Forwards-dropped Q state rejected h = tt
Forwards-dropped Q state fault h = tt
Forwards-dropped Q state stuck h = tt

Forwards-parse :
    (Q : Proxy → Type 0) (f : Message → Result (Verdict × Proxy)) (state : Proxy)
    (m : Result Message)
    → ((msg : Message) → m ≡ ok msg → Forwards Q (f msg))
    → Forwards Q (otherwise (m >>= f) (ok (dropped, state)))
Forwards-parse Q f state (ok msg) h = Forwards-dropped Q state (f msg) (h msg refl)
Forwards-parse Q f state rejected h = tt
Forwards-parse Q f state fault h = tt
Forwards-parse Q f state stuck h = tt

check_failover_keeps :
    (clock : Clock) (state : Proxy)
    → ((check_failover clock state).pending ≡ state.pending)
      × ((check_failover clock state).next_upstream_id ≡ state.next_upstream_id)
unfolding check_failover
check_failover_keeps clock state = ground arith

-- A query at `clock`, and a later time within the timeout.
module _ (env : Env) (clock clock' : Clock) (frame : Frame) (id : ℕ) (pending : List Pending)
    (fresh : Fresh id pending)
    (soon : (p : Pending) → p.start_tsc ≡ clock.now → timed_out clock' p ≡ false) where
  -- The query waits in a slot that its identifier finds.
  abbrev pub Waits : Message → Proxy → Type 0
  Waits msg state =
      (i : ℕ) × (find_pending_by_upstream_id clock' id state.pending
        ≡ matched i (new_pending clock frame msg id))

  -- The slots and the next identifier are as they were.
  abbrev pub Untouched : Proxy → Type 0
  Untouched state = (state.pending ≡ pending) × (state.next_upstream_id ≡ id)

  answer_servfail-Forwards :
      (Q : Proxy → Type 0) (dns : List ℕ) (state : Proxy)
      → Forwards Q (answer_servfail env clock frame dns state)
  unfolding answer_servfail
  answer_servfail-Forwards Q dns state =
      Forwards-otherwise Q env frame state
        (build_response_servfail clock.tolower dns max_packet_len) (ok (dropped, state)) (tt {0})

  take_slot-Forwards :
      (dns : List ℕ) (msg : Message) (state : Proxy) (o : Option ℕ)
      → Untouched state
      → find_free_pending clock state.pending ≡ o
      → Forwards (Waits msg) (take_slot env clock frame dns msg state o)
  unfolding take_slot forward_query_to_wan
  take_slot-Forwards dns msg state none u h = answer_servfail-Forwards (Waits msg) dns state
  take_slot-Forwards dns msg state (some i) u h = (
    i,
    rw (u.0, u.1)
        (find_pending-set clock clock' pending i (new_pending clock frame msg id) (rw (sym (u.0)) h)
          fresh refl (soon (new_pending clock frame msg id) refl)),
  )

  ask_upstream-Forwards :
      (dns : List ℕ) (msg : Message) (state : Proxy)
      → Untouched state
      → Forwards (Waits msg) (ask_upstream env clock frame dns msg state)
  unfolding ask_upstream
  ask_upstream-Forwards dns msg state u =
      elim (Bool-cases (env.dp_started && not (state.active_dns == 0))) [
        | inr e ↦ rw (ask_upstream, e) (answer_servfail-Forwards (Waits msg) dns state)
        | inl e ↦ elim (Bool-cases (has_pending_query clock state.pending)) [
          | inr e' ↦ rw (ask_upstream, e, e') (take_slot-Forwards dns msg state _ u refl)
          | inl e' ↦
              let k = check_failover_keeps clock state in
              rw (ask_upstream, e, e')
                (take_slot-Forwards dns msg (check_failover clock state) _ (k.0 ∙ u.0, k.1 ∙ u.1)
                  refl)
        ]
      ]

  ask_cache-Forwards :
      (dns : List ℕ) (msg : Message) (state : Proxy) (found : Option Entry × Cache)
      → Untouched state
      → Forwards (Waits msg) (ask_cache env clock frame dns msg state found)
  unfolding ask_cache send_response_to_lan
  ask_cache-Forwards dns msg state (none, cache) u =
      ask_upstream-Forwards dns msg (record state { cache = cache }) u
  ask_cache-Forwards dns msg state (some e, cache) u = tt

  ask_static-Forwards :
      (dns : List ℕ) (msg : Message) (state : Proxy) (found : Option Record)
      → Untouched state
      → Forwards (Waits msg) (ask_static env clock frame dns msg state found)
  unfolding ask_static
  ask_static-Forwards dns msg state none u =
      ask_cache-Forwards dns msg state
        (lookup clock state.cache msg.question.name msg.question.qtype) u
  ask_static-Forwards dns msg state (some r) u =
      let rest =
        ask_cache-Forwards dns msg state
          (lookup clock state.cache msg.question.name msg.question.qtype) u in
      elim (Bool-cases (msg.question.qtype == type_a)) [
        | inr e ↦ rw (ask_static, e) rest
        | inl e ↦
            rw (ask_static, e)
              (Forwards-otherwise (Waits msg) env frame state
                (build_response_a clock.tolower dns (env.ip_bytes r.ip_addr) r.ttl max_packet_len) _
                rest)
      ]

  -- The query parses, and waits.
  abbrev pub Asked : Proxy → Type 0
  Asked state =
      (msg : Message) × (parse_query clock.tolower (take (frame.dgram_len - 8) frame.payload)
        ≡ ok msg)
      × Waits msg state

  pub process-Forwards :
      (state : Proxy)
      → Untouched state
      → Forwards Asked (process_lan_udp_query env clock state frame)
  unfolding process_lan_udp_query
  process-Forwards state u =
      elim (Bool-cases (
        not state.dns_proxy_enabled
        || ltb frame.dgram_len 20
        || ltb (8 + length frame.payload) frame.dgram_len)) [
          | inl e ↦ rw (process_lan_udp_query, e) (tt {0})
          | inr e ↦
              let dns = take (frame.dgram_len - 8) frame.payload in
              let ask : Message → Result (Verdict × Proxy) = λ msg.
                ask_static env clock frame dns msg state
                  (find clock.tolower msg.question.name state.static_table.records) in
              rw (process_lan_udp_query, e)
                (Forwards-parse Asked ask state (parse_query clock.tolower dns) (λ msg q.
                  Forwards-imp (Waits msg) Asked (λ state' w. (msg, q, w)) (ask msg)
                    (ask_static-Forwards dns msg state
                      (find clock.tolower msg.question.name state.static_table.records) u)))
        ]
