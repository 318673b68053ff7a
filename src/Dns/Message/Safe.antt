-- ===== src/Dns/Message/Safe.antt =====
-- Bounds of the message parsers of src/dnsd/dns_codec.c.
use fastrg_node.Base.{
  ℕ, zero, suc, ◌+◌, ◌-◌, ◌*◌, ◌≤◌, ◌<◌, ◌≡◌, refl, List, [], ◌∷◌, ◌++◌, ◌&&◌, not, leb, ltb, ◌==◌,
  if◌then◌else◌, length, arith, length-append, Bool-cases, inl, inr, ◌⊎◌,
}
use fastrg_node.Dns.{ok, u16, Safe, Safe-bind}
use fastrg_node.Dns.Name.{parse_name, domain_to_lower}
use fastrg_node.Dns.Name.Safe.{read_safe, read_bytes_safe, parse_name-Safe}
use fastrg_node.Dns.Message.{
  Header, Rr, Message, hdr_len, max_answers, read16, read32, parse_header, is_response,
  parse_question, parse_rr, lower_ttl, parse_rr_section, parse_query, parse_questions,
  parse_answers, parse_response,
}

length-domain_to_lower :
    (tolower : ℕ → ℕ) (s : List ℕ) → length (domain_to_lower tolower s) ≡ length s
unfolding domain_to_lower
length-domain_to_lower tolower [] = refl
length-domain_to_lower tolower (c ∷ cs) = ground (arith, length-domain_to_lower tolower cs)

pub read16_safe : (pkt : List ℕ) (i : ℕ) → i + 2 ≤ length pkt → (v : ℕ) × (read16 pkt i ≡ ok v)
unfolding read16
read16_safe pkt i h =
    let (hi, e) = read_safe pkt i (omega arith) in
    let (lo, e') = read_safe pkt (i + 1) (omega arith) in (u16 (hi * 256 + lo), rw (e, e') refl)

read32_safe : (pkt : List ℕ) (i : ℕ) → i + 4 ≤ length pkt → (v : ℕ) × (read32 pkt i ≡ ok v)
unfolding read32
read32_safe pkt i h =
    let (hi, e) = read16_safe pkt i (omega arith) in
    let (lo, e') = read16_safe pkt (i + 2) (omega arith) in (hi * 65536 + lo, rw (e, e') refl)

parse_header_safe : (pkt : List ℕ) → 12 ≤ length pkt → (h : Header) × (parse_header pkt ≡ ok h)
unfolding parse_header
parse_header_safe pkt h =
    let (a, ea) = read16_safe pkt 0 (omega arith) in
    let (b, eb) = read16_safe pkt 2 (omega arith) in
    let (c, ec) = read16_safe pkt 4 (omega arith) in
    let (d, ed) = read16_safe pkt 6 (omega arith) in
    let (e, ee) = read16_safe pkt 8 (omega arith) in
    let (f, ef) = read16_safe pkt 10 (omega arith) in
    (
      record { id = a; flags = b; qdcount = c; ancount = d; nscount = e; arcount = f },
      rw (ea, eb, ec, ed, ee, ef) refl,
    )

-- A parser's end lies in the packet, past where it began.
abbrev pub Ends : List ℕ → ℕ → ℕ → Type 0
Ends pkt offset end = (offset < end) × (end ≤ length pkt)

parse_question-Safe :
    (tolower : ℕ → ℕ) (pkt : List ℕ) (offset : ℕ)
    → length pkt < 65536
    → Safe
        (λ (end, q). Ends pkt offset end × (length q.name ≤ 253))
        (parse_question tolower pkt offset)
unfolding parse_question
parse_question-Safe tolower pkt offset short =
    Safe-bind (λ (consumed, name). (consumed ≤ length pkt - offset) × (length name < 254))
      (λ (end, q). Ends pkt offset end × (length q.name ≤ 253)) (parse_name pkt offset 254) _
      (parse_name-Safe pkt offset 254 short)
      (λ (consumed, name) h.
        elim (Bool-cases (not (consumed == 0) && leb (u16 (offset + consumed) + 4) (length pkt))) [
          | inr e ↦ ground arith
          | inl e ↦
              let (a, ea) = read16_safe pkt (u16 (offset + consumed)) (ground arith) in
              let (b, eb) = read16_safe pkt (u16 (offset + consumed) + 2) (ground arith) in
              ground (arith, ea, eb, length-domain_to_lower tolower name)
        ])

-- What a stored record satisfies.
abbrev pub RrFits : Rr → Type 0
RrFits rr = (length rr.name ≤ 253) × (length rr.rdata ≤ 256)

parse_rr-Safe :
    (tolower : ℕ → ℕ) (pkt : List ℕ) (offset : ℕ)
    → length pkt < 65536
    → Safe (λ (end, rr). Ends pkt offset end × RrFits rr) (parse_rr tolower pkt offset)
unfolding parse_rr
parse_rr-Safe tolower pkt offset short =
    Safe-bind (λ (consumed, name). (consumed ≤ length pkt - offset) × (length name < 254))
      (λ (end, rr). Ends pkt offset end × RrFits rr) (parse_name pkt offset 254) _
      (parse_name-Safe pkt offset 254 short)
      (λ (consumed, name) h.
        elim (Bool-cases (not (consumed == 0) && leb (u16 (offset + consumed) + 10) (length pkt))) [
          | inr e ↦ ground arith
          | inl e ↦
              let pos = u16 (offset + consumed) in
              let (a, ea) = read16_safe pkt pos (ground arith) in
              let (b, eb) = read16_safe pkt (pos + 2) (ground arith) in
              let (c, ec) = read32_safe pkt (pos + 4) (ground arith) in
              let (d, ed) = read16_safe pkt (pos + 8) (ground arith) in
              elim (Bool-cases (leb (u16 (pos + 10) + d) (length pkt))) [
                | inr e' ↦ ground (arith, ea, eb, ec, ed)
                | inl e' ↦
                    let (bs, es, n) = read_bytes_safe pkt (u16 (pos + 10)) d (ground arith) in
                    ground (arith, ea, eb, ec, ed, es, n, length-domain_to_lower tolower name)
              ]
        ])

abbrev pub AllRrFits : List Rr → Type 0
AllRrFits [] = Unit {0}
AllRrFits (rr ∷ rrs) = RrFits rr × AllRrFits rrs

AllRrFits-append :
    (rrs : List Rr) (rr : Rr) → AllRrFits rrs → RrFits rr → AllRrFits (rrs ++ (rr ∷ []))
AllRrFits-append [] rr h k = (k, tt)
AllRrFits-append (r ∷ rrs) rr h k = (h.0, AllRrFits-append rrs rr h.1 k)

-- What a section of records ends in.
abbrev SectionFits : List ℕ → ℕ → ℕ × List Rr × ℕ → Type 0
SectionFits pkt bound (end, rrs, min_ttl) =
    (end ≤ length pkt) × (length rrs ≤ bound) × AllRrFits rrs

parse_rr_section-Safe :
    (tolower : ℕ → ℕ) (count : ℕ) (pkt : List ℕ) (max_rrs bound pos : ℕ) (rrs : List Rr)
    (min_ttl : ℕ)
    → length pkt < 65536
    → pos ≤ length pkt
    → length rrs + count ≤ bound ⊎ max_rrs ≤ bound
    → length rrs ≤ bound
    → AllRrFits rrs
    → Safe (SectionFits pkt bound) (parse_rr_section tolower count pkt max_rrs pos rrs min_ttl)
unfolding parse_rr_section
parse_rr_section-Safe tolower zero pkt max_rrs bound pos rrs min_ttl short inside room small h =
    (inside, small, h)
parse_rr_section-Safe tolower (suc count) pkt max_rrs bound pos rrs min_ttl short inside room small
      h =
    elim (Bool-cases (ltb pos (length pkt))) [
      | inr e ↦ rw e (inside, small, h)
      | inl e ↦ rw e (
          Safe-bind (λ (end, rr). Ends pkt pos end × RrFits rr) (SectionFits pkt bound)
            (parse_rr tolower pkt pos) _ (parse_rr-Safe tolower pkt pos short)
            (λ (end, rr) k. elim (Bool-cases (ltb (length rrs) max_rrs)) [
              | inr e' ↦ rw e' (
                  parse_rr_section-Safe tolower count pkt max_rrs bound end rrs
                    (lower_ttl rr.ttl min_ttl) short (omega arith) (ground arith) small h)
              | inl e' ↦ rw e' (
                  parse_rr_section-Safe tolower count pkt max_rrs bound end (rrs ++ (rr ∷ []))
                    (lower_ttl rr.ttl min_ttl) short (omega arith)
                    (ground (arith, length-append {0} rrs (rr ∷ [])))
                    (ground (arith, length-append {0} rrs (rr ∷ [])))
                    (AllRrFits-append rrs rr h k.1))
            ]))
    ]

parse_questions-Safe :
    (tolower : ℕ → ℕ) (n : ℕ) (pkt : List ℕ) (pos : ℕ)
    → length pkt < 65536
    → pos ≤ length pkt
    → Safe
        (λ (end, q). (end ≤ length pkt) × (length q.name ≤ 253))
        (parse_questions tolower n pkt pos)
unfolding parse_questions
parse_questions-Safe tolower zero pkt pos short inside = (inside, omega arith)
parse_questions-Safe tolower (suc n) pkt pos short inside =
    Safe-bind (λ (end, q). Ends pkt pos end × (length q.name ≤ 253))
      (λ (end, q). (end ≤ length pkt) × (length q.name ≤ 253)) (parse_question tolower pkt pos) _
      (parse_question-Safe tolower pkt pos short)
      (λ (pos', q) h.
        Safe-bind (λ (end, r). (end ≤ length pkt) × (length r.name ≤ 253))
          (λ (end, r). (end ≤ length pkt) × (length r.name ≤ 253))
          (parse_questions tolower n pkt pos') _
          (parse_questions-Safe tolower n pkt pos' short (h.0.1)) (λ (end, r) k. (k.0, h.1)))

parse_answers-Safe :
    (tolower : ℕ → ℕ) (ancount : ℕ) (pkt : List ℕ) (pos : ℕ)
    → length pkt < 65536
    → pos ≤ length pkt
    → Safe
        (λ (rrs, min_ttl).
          (length rrs ≤ (if ltb max_answers ancount then max_answers else ancount)) × AllRrFits rrs)
        (parse_answers tolower ancount pkt pos)
unfolding parse_answers
parse_answers-Safe tolower ancount pkt pos short inside = elim (Bool-cases (ltb 0 ancount)) [
  | inr e ↦ rw e (ground arith, tt)
  | inl e ↦ rw e (
      Safe-bind (SectionFits pkt (if ltb max_answers ancount then max_answers else ancount)) _
        (parse_rr_section tolower ancount pkt max_answers pos [] 0) _
        (parse_rr_section-Safe tolower ancount pkt max_answers _ pos [] 0 short inside
          (ground arith) (omega arith) tt)
        (λ (end, rrs, min_ttl) k. ground arith))
]

-- What holds of a parsed message: its texts fit their buffers, and no more records are stored than it
-- counts, which are at most as many as there is room for.
pub record MessageFits (m : Message) : Type 0 where
  pub question_fits : length m.question.name ≤ 253
  pub stored : length m.answers ≤ m.answer_count
  pub counted : m.answer_count ≤ 16
  pub records_fit : AllRrFits m.answers

-- On a message of at most 65,535 bytes dns_parse_query returns, and reads nothing outside it; what it
-- reports fits its buffers.
pub parse_query-Safe :
    (tolower : ℕ → ℕ) (pkt : List ℕ)
    → length pkt < 65536
    → Safe MessageFits (parse_query tolower pkt)
unfolding parse_query
parse_query-Safe tolower pkt short = elim (Bool-cases (leb hdr_len (length pkt))) [
  | inr e ↦ rw e tt
  | inl e ↦
      let (h, eh) = parse_header_safe pkt (ground arith) in
      elim (Bool-cases (not (is_response h) && h.qdcount == 1)) [
        | inr e' ↦ ground (arith, eh)
        | inl e' ↦
            let q = parse_question-Safe tolower pkt hdr_len short in
            ground (
              arith,
              eh,
              Safe-bind (λ (end, q). Ends pkt hdr_len end × (length q.name ≤ 253)) MessageFits
                  (parse_question tolower pkt hdr_len)
                  (λ (end, question). ok (record {
                    header = h;
                    question = question;
                    answers = [];
                    answer_count = 0;
                    min_ttl = 0;
                  }))
                  q
                  (λ (end, question) k. record {
                    question_fits = k.1;
                    stored = omega arith;
                    counted = omega arith;
                    records_fit = tt;
                  }),
            )
      ]
]

-- On a message of at most 65,535 bytes dns_parse_response returns, and reads nothing outside it; what
-- it reports fits its buffers, and it stores no more records than it counts, which are at most 16.
pub parse_response-Safe :
    (tolower : ℕ → ℕ) (pkt : List ℕ)
    → length pkt < 65536
    → Safe MessageFits (parse_response tolower pkt)
unfolding parse_response
parse_response-Safe tolower pkt short = elim (Bool-cases (leb hdr_len (length pkt))) [
  | inr e ↦ rw e tt
  | inl e ↦
      let (h, eh) = parse_header_safe pkt (ground arith) in
      elim (Bool-cases (is_response h)) [
        | inr e' ↦ rw (e, eh, e') tt
        | inl e' ↦
            rw (e, eh, e')
              (Safe-bind (λ (end, q). (end ≤ length pkt) × (length q.name ≤ 253)) MessageFits
                (parse_questions tolower h.qdcount pkt hdr_len) _
                (parse_questions-Safe tolower h.qdcount pkt hdr_len short (ground arith))
                (λ (pos, question) k.
                  Safe-bind _ MessageFits (parse_answers tolower h.ancount pkt pos) _
                    (parse_answers-Safe tolower h.ancount pkt pos short k.0)
                    (λ (answers, min_ttl) l. record {
                      question_fits = k.1;
                      stored = l.0;
                      counted = ground arith;
                      records_fit = l.1;
                    })))
      ]
]
