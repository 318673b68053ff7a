-- ===== src/Dns/Response/RoundTrip.antt =====
-- What dns_parse_response of src/dnsd/dns_codec.c reads of the responses that the same file builds.
use fastrg_node.Base.{
  ℕ, zero, suc, ◌+◌, ◌*◌, ◌/◌, ◌%◌, ◌^◌, ◌≤◌, ◌<◌, ◌≡◌, refl, List, [], ◌∷◌, ◌++◌, true, false, leb,
  ltb, ◌==◌, length, arith, lt→ltb, le→leb, ne→==, length-append, take, ap,
}
use mathlib.Core.List.{append_assoc}
use fastrg_node.Dns.{ok, ◌>>=◌, u16, read}
use fastrg_node.Dns.Name.Encode.{encode, spell, AreLabels}
use fastrg_node.Dns.Message.{
  read16, parse_header, lower_ttl, parse_rr_section, parse_questions, parse_answers, parse_response,
}
use fastrg_node.Dns.Response.{
  response_flags, build_response_base, set_counts, answer_a, build_response_a,
}
use fastrg_node.Dns.Response.Flags.{is_response_flags, response_flags_lem}
use fastrg_node.Dns.Response.Encode.{
  question, answer, drop-past, parse_question-encode, parse_rr-answer, length-answer_a,
}

-- A query with one question, `trail` behind it, and a response's first bytes.
abbrev pub query_bytes : ℕ → ℕ → ℕ → ℕ → List ℕ → List ℕ
query_bytes i1 i2 f1 f2 rest = i1 ∷ (i2 ∷ (f1 ∷ (f2 ∷ (0 ∷ (1 ∷ rest)))))

abbrev pub response_bytes : ℕ → ℕ → ℕ → ℕ → List ℕ → List ℕ
response_bytes i1 i2 flags ancount rest =
    i1
    ∷ (i2
        ∷ ((flags / 256)
            ∷ ((flags % 256) ∷ (0 ∷ (1 ∷ (0 ∷ (ancount ∷ (0 ∷ (0 ∷ (0 ∷ (0 ∷ rest)))))))))))

abbrev pub question_bytes : List (List ℕ) → ℕ → ℕ → ℕ → ℕ → List ℕ → List ℕ
question_bytes ls t1 t2 c1 c2 rest = encode ls ++ (t1 ∷ (t2 ∷ (c1 ∷ (c2 ∷ rest))))

take-append_add : (xs ys : List ℕ) (k : ℕ) → take (length xs + k) (xs ++ ys) ≡ xs ++ take k ys
take-append_add [] ys k = let e : 0 + k ≡ k = omega arith in ap (λ n. take n ys) e
take-append_add (x ∷ xs) ys k =
    let e : suc (length xs) + k ≡ suc (length xs + k) = omega arith in
    rw e (ap (λ t. x ∷ t) (take-append_add xs ys k))

-- The header and the question of a message, and what is put behind them.
take-question_bytes :
    (h : List ℕ) (ls : List (List ℕ)) (t1 t2 c1 c2 : ℕ) (rest more : List ℕ) (n : ℕ)
    → n ≡ length h + length (encode ls) + 4
    → take n (h ++ question_bytes ls t1 t2 c1 c2 rest) ++ more
      ≡ h ++ question_bytes ls t1 t2 c1 c2 more
take-question_bytes h ls t1 t2 c1 c2 rest more n e =
    let e' : n ≡ length h + (length (encode ls) + 4) = omega arith in
    let q = take-append_add h (question_bytes ls t1 t2 c1 c2 rest) (length (encode ls) + 4) in
    rw
      (
        e',
        q,
        take-append_add (encode ls) (t1 ∷ (t2 ∷ (c1 ∷ (c2 ∷ rest)))) 4,
        append_assoc h (encode ls ++ (t1 ∷ (t2 ∷ (c1 ∷ (c2 ∷ []))))) more,
        append_assoc (encode ls) (t1 ∷ (t2 ∷ (c1 ∷ (c2 ∷ [])))) more,
      )
      refl

-- What the builders write.
pub build_response_a-bytes :
    (tolower : ℕ → ℕ) (i1 i2 f1 f2 a1 a2 n1 n2 r1 r2 : ℕ) (ls : List (List ℕ)) (t1 t2 c1 c2 : ℕ)
    (trail ip_addr : List ℕ) (ttl resp_buf_len : ℕ)
    → AreLabels ls
    → length (spell [] ls) ≤ 253
    → 28 + length (question_bytes ls t1 t2 c1 c2 trail) ≤ resp_buf_len
    → resp_buf_len < 65536
    → build_response_a tolower
        (query_bytes i1 i2 f1 f2
          (a1 ∷ (a2 ∷ (n1 ∷ (n2 ∷ (r1 ∷ (r2 ∷ question_bytes ls t1 t2 c1 c2 trail)))))))
        ip_addr
        ttl
        resp_buf_len
      ≡ ok (
          response_bytes i1 i2
            (response_flags 0 (u16 (f1 * 256 + f2)))
            1
            (question_bytes ls t1 t2 c1 c2 (answer_a ip_addr ttl)))
unfolding build_response_a build_response_base set_counts read16 read
build_response_a-bytes tolower i1 i2 f1 f2 a1 a2 n1 n2 r1 r2 ls t1 t2 c1 c2 trail ip_addr ttl
      resp_buf_len labels fits room small =
    let query =
      query_bytes i1 i2 f1 f2
        (a1 ∷ (a2 ∷ (n1 ∷ (n2 ∷ (r1 ∷ (r2 ∷ question_bytes ls t1 t2 c1 c2 trail)))))) in
    let n = length-append (encode ls) (t1 ∷ (t2 ∷ (c1 ∷ (c2 ∷ trail)))) in
    let q =
      parse_question-encode tolower query 12 ls t1 t2 c1 c2 trail (omega arith) labels refl fits in
    let room' : leb (length query + 16) resp_buf_len ≡ true =
      le→leb (length query + 16) resp_buf_len (omega arith) in
    let long : leb 12 (length query) ≡ true = le→leb 12 (length query) (omega arith) in
    let room'' : leb (length query) resp_buf_len ≡ true =
      le→leb (length query) resp_buf_len (omega arith) in
    let room3 : leb (12 + length (encode ls) + 4 + 16) resp_buf_len ≡ true =
      le→leb (12 + length (encode ls) + 4 + 16) resp_buf_len (omega arith) in
    rw (room', long, room'', q, room3)
      (ap ok (
        take-question_bytes (response_bytes i1 i2 (response_flags 0 (u16 (f1 * 256 + f2))) 1 []) ls
          t1 t2 c1 c2 trail _ _ refl))

pub response_flags_fit :
    (hi lo : ℕ)
    → hi < 256
    → lo < 256
    → (response_flags 0 (hi * 256 + lo) < 65536)
      × ((response_flags 0 (hi * 256 + lo) / 32768 % 2 == 1) ≡ true)
unfolding is_response_flags
response_flags_fit hi lo h l = ground (arith, response_flags_lem 0 hi lo (omega arith) h l)

lower_ttl_zero : (ttl : ℕ) → lower_ttl ttl 0 ≡ ttl
unfolding lower_ttl
lower_ttl_zero zero = refl
lower_ttl_zero (suc ttl) = ground arith

-- What the parser reads of those bytes.
pub parse_response-bytes :
    (tolower : ℕ → ℕ) (i1 i2 flags : ℕ) (ls : List (List ℕ)) (t1 t2 c1 c2 : ℕ) (ip_addr : List ℕ)
    (ttl : ℕ)
    → flags < 65536
    → (flags / 32768 % 2 == 1) ≡ true
    → AreLabels ls
    → length (spell [] ls) ≤ 253
    → length (question_bytes ls t1 t2 c1 c2 (answer_a ip_addr ttl)) < 65524
    → length ip_addr ≡ 4
    → ttl < 2 ^ 32
    → parse_response tolower
        (response_bytes i1 i2 flags 1 (question_bytes ls t1 t2 c1 c2 (answer_a ip_addr ttl)))
      ≡ ok (record {
        header = record {
          id = u16 (i1 * 256 + i2);
          flags = flags;
          qdcount = 1;
          ancount = 1;
          nscount = 0;
          arcount = 0;
        };
        question = question tolower ls t1 t2 c1 c2;
        answers = answer tolower ls ip_addr ttl ∷ [];
        answer_count = 1;
        min_ttl = ttl;
      })
unfolding parse_response parse_header read16 read parse_questions parse_answers parse_rr_section
parse_response-bytes tolower i1 i2 flags ls t1 t2 c1 c2 ip_addr ttl f f' labels fits short four
      ttl_fits =
    let tail = t1 ∷ (t2 ∷ (c1 ∷ (c2 ∷ answer_a ip_addr ttl))) in
    let resp = response_bytes i1 i2 flags 1 (encode ls ++ tail) in
    let n = length-append (encode ls) tail in
    let n' : length (answer_a ip_addr ttl) ≡ 16 = length-answer_a ip_addr ttl four in
    let end = 12 + length (encode ls) + 4 in
    let long : leb 12 (length resp) ≡ true = le→leb 12 (length resp) (omega arith) in
    let fl : u16 (flags / 256 * 256 + flags % 256) ≡ flags = omega arith in
    let q =
      parse_question-encode tolower resp 12 ls t1 t2 c1 c2 (answer_a ip_addr ttl) (omega arith)
        labels refl fits in
    let more : ltb end (length resp) ≡ true = lt→ltb end (length resp) (omega arith) in
    let past = drop-past resp (encode ls) tail 12 (12 + length (encode ls)) refl refl in
    let rr =
      parse_rr-answer tolower resp end ls tail ip_addr ttl (omega arith) labels refl fits
        (drop-past resp (t1 ∷ (t2 ∷ (c1 ∷ (c2 ∷ [])))) (answer_a ip_addr ttl)
          (12 + length (encode ls)) end past refl)
        four ttl_fits in
    let some_end : (length resp == 0) ≡ false = ne→== (length resp) 0 (omega arith) in
    rw (long, fl, f', q, more, rr, some_end, lower_ttl_zero ttl) refl

-- The response to a query for an address, parsed: the identifier and the question are those of the
-- query, the flags are those of a response without an error, and the one answer holds the name of the
-- question, the address and the TTL.
pub parse_response-build_response_a :
    (tolower : ℕ → ℕ) (i1 i2 f1 f2 a1 a2 n1 n2 r1 r2 : ℕ) (ls : List (List ℕ)) (t1 t2 c1 c2 : ℕ)
    (trail ip_addr : List ℕ) (ttl resp_buf_len : ℕ)
    → f1 < 256
    → f2 < 256
    → AreLabels ls
    → length (spell [] ls) ≤ 253
    → 28 + length (question_bytes ls t1 t2 c1 c2 trail) ≤ resp_buf_len
    → resp_buf_len < 65536
    → length ip_addr ≡ 4
    → ttl < 2 ^ 32
    → build_response_a tolower
          (query_bytes i1 i2 f1 f2
            (a1 ∷ (a2 ∷ (n1 ∷ (n2 ∷ (r1 ∷ (r2 ∷ question_bytes ls t1 t2 c1 c2 trail)))))))
          ip_addr
          ttl
          resp_buf_len
        >>= parse_response tolower
      ≡ ok (record {
        header = record {
          id = u16 (i1 * 256 + i2);
          flags = response_flags 0 (f1 * 256 + f2);
          qdcount = 1;
          ancount = 1;
          nscount = 0;
          arcount = 0;
        };
        question = question tolower ls t1 t2 c1 c2;
        answers = answer tolower ls ip_addr ttl ∷ [];
        answer_count = 1;
        min_ttl = ttl;
      })
parse_response-build_response_a tolower i1 i2 f1 f2 a1 a2 n1 n2 r1 r2 ls t1 t2 c1 c2 trail ip_addr
      ttl resp_buf_len b1 b2 labels fits room small four ttl_fits =
    let flags = response_flags 0 (f1 * 256 + f2) in
    let built =
      build_response_a-bytes tolower i1 i2 f1 f2 a1 a2 n1 n2 r1 r2 ls t1 t2 c1 c2 trail ip_addr ttl
        resp_buf_len labels fits room small in
    let e : u16 (f1 * 256 + f2) ≡ f1 * 256 + f2 = omega arith in
    let (f, f') = response_flags_fit f1 f2 b1 b2 in
    let n : length (question_bytes ls t1 t2 c1 c2 (answer_a ip_addr ttl)) < 65524 = omega (
      arith,
      length-append {0} (encode ls) (t1 ∷ (t2 ∷ (c1 ∷ (c2 ∷ trail)))),
      length-append {0} (encode ls) (t1 ∷ (t2 ∷ (c1 ∷ (c2 ∷ answer_a ip_addr ttl)))),
      length-answer_a ip_addr ttl four,
    ) in
    rw (built, e)
      (parse_response-bytes tolower i1 i2 flags ls t1 t2 c1 c2 ip_addr ttl f f' labels fits n four
        ttl_fits)
