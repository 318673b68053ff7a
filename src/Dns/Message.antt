-- ===== src/Dns/Message.antt =====
-- The parsers of src/dnsd/dns_codec.c for the question, the answers and the whole message.
pub mod Safe
use fastrg_node.Base.{
  ℕ, zero, suc, ◌+◌, ◌*◌, ◌/◌, ◌%◌, List, [], ◌∷◌, ◌++◌, Bool, true, false, ◌&&◌, ◌||◌, not, leb,
  ltb, ◌==◌, if◌then◌else◌, length,
}
use fastrg_node.Dns.{Result, ok, rejected, fault, stuck, ◌>>=◌, ◌>>◌, guard, u16, read, read_bytes}
use fastrg_node.Dns.Name.{parse_name, domain_to_lower, max_domain_len}

-- DNS_HDR_LEN and DNS_MAX_ANSWERS.
abbrev pub hdr_len : ℕ
hdr_len = 12

abbrev pub max_answers : ℕ
max_answers = 16

-- (U16)((pkt[pos] << 8) | pkt[pos + 1])
unfoldable pub read16 : List ℕ → ℕ → Result ℕ
unfolding read
read16 pkt pos = do hi ← read pkt pos; lo ← read pkt (pos + 1); ok (u16 (hi * 256 + lo))

unfoldable pub read32 : List ℕ → ℕ → Result ℕ
read32 pkt pos = do hi ← read16 pkt pos; lo ← read16 pkt (pos + 2); ok (hi * 65536 + lo)

-- dns_header_t
pub record Header : Type 0 where
  pub id : ℕ
  pub flags : ℕ
  pub qdcount : ℕ
  pub ancount : ℕ
  pub nscount : ℕ
  pub arcount : ℕ

-- dns_question_t
pub record Question : Type 0 where
  pub name : List ℕ
  pub qtype : ℕ
  pub qclass : ℕ
  pub name_wire_len : ℕ

-- dns_rr_t. `rdata` holds the bytes that were copied; a record longer than the array has none.
pub record Rr : Type 0 where
  pub name : List ℕ
  pub type : ℕ
  pub rr_class : ℕ
  pub ttl : ℕ
  pub rdlength : ℕ
  pub rdata : List ℕ

-- dns_message_t. `answers` holds the records that were stored.
pub record Message : Type 0 where
  pub header : Header
  pub question : Question
  pub answers : List Rr
  pub answer_count : ℕ
  pub min_ttl : ℕ

abbrev pub no_question : Question
no_question = record { name = []; qtype = 0; qclass = 0; name_wire_len = 0 }

unfoldable pub parse_header : List ℕ → Result Header
unfolding read16
parse_header pkt = do
  id ← read16 pkt 0
  flags ← read16 pkt 2
  qdcount ← read16 pkt 4
  ancount ← read16 pkt 6
  nscount ← read16 pkt 8
  arcount ← read16 pkt 10
  ok (record {
    id = id;
    flags = flags;
    qdcount = qdcount;
    ancount = ancount;
    nscount = nscount;
    arcount = arcount;
  })

-- flags & DNS_FLAG_QR
abbrev pub is_response : Header → Bool
is_response h = h.flags / 32768 % 2 == 1

-- parse_question: the offset past the section, and the question.
unfoldable pub parse_question : (ℕ → ℕ) → List ℕ → ℕ → Result (ℕ × Question)
parse_question tolower pkt offset = do
  (consumed, name) ← parse_name pkt offset (max_domain_len + 1)
  guard (not (consumed == 0))
  let pos = u16 (offset + consumed)
  guard (leb (pos + 4) (length pkt))
  qtype ← read16 pkt pos
  qclass ← read16 pkt (pos + 2)
  ok (
    u16 (pos + 4),
    record {
      name = domain_to_lower tolower name;
      qtype = qtype;
      qclass = qclass;
      name_wire_len = consumed;
    },
  )

-- One resource record from `pos` on, and the offset past it.
unfoldable pub parse_rr : (ℕ → ℕ) → List ℕ → ℕ → Result (ℕ × Rr)
parse_rr tolower pkt offset = do
  (consumed, name) ← parse_name pkt offset (max_domain_len + 1)
  guard (not (consumed == 0))
  let pos = u16 (offset + consumed)
  guard (leb (pos + 10) (length pkt))
  type ← read16 pkt pos
  rr_class ← read16 pkt (pos + 2)
  ttl ← read32 pkt (pos + 4)
  rdlength ← read16 pkt (pos + 8)
  let pos' = u16 (pos + 10)
  guard (leb (pos' + rdlength) (length pkt))
  rdata ← (if leb rdlength 256 then read_bytes pkt pos' rdlength else ok [])
  ok (
    u16 (pos' + rdlength),
    record {
      name = domain_to_lower tolower name;
      type = type;
      rr_class = rr_class;
      ttl = ttl;
      rdlength = rdlength;
      rdata = rdata;
    },
  )

-- if (rr.ttl > 0 && (rr.ttl < *min_ttl || *min_ttl == 0)) *min_ttl = rr.ttl;
unfoldable pub lower_ttl : ℕ → ℕ → ℕ
lower_ttl ttl min_ttl = if ltb 0 ttl && (ltb ttl min_ttl || min_ttl == 0) then ttl else min_ttl

-- The loop of parse_rr_section, `count` rounds from its end; `rrs` are the records stored so far.
unfoldable pub parse_rr_section :
    (ℕ → ℕ) → ℕ → List ℕ → ℕ → ℕ → List Rr → ℕ → Result (ℕ × List Rr × ℕ)
parse_rr_section tolower zero pkt max_rrs pos rrs min_ttl = ok (pos, rrs, min_ttl)
parse_rr_section tolower (suc count) pkt max_rrs pos rrs min_ttl =
    if ltb pos (length pkt)
    then (parse_rr tolower pkt pos >>= λ (pos', rr).
        parse_rr_section tolower count pkt max_rrs pos'
          (if ltb (length rrs) max_rrs then rrs ++ (rr ∷ []) else rrs) (lower_ttl rr.ttl min_ttl))
    else ok (pos, rrs, min_ttl)

-- dns_parse_query
unfoldable pub parse_query : (ℕ → ℕ) → List ℕ → Result Message
parse_query tolower pkt = do
  guard (leb hdr_len (length pkt))
  header ← parse_header pkt
  guard (not (is_response header))
  guard (header.qdcount == 1)
  (end, question) ← parse_question tolower pkt hdr_len
  ok (record { header = header; question = question; answers = []; answer_count = 0; min_ttl = 0 })

-- The questions of a response: the first one is kept.
unfoldable pub parse_questions : (ℕ → ℕ) → ℕ → List ℕ → ℕ → Result (ℕ × Question)
parse_questions tolower zero pkt pos = ok (pos, no_question)
parse_questions tolower (suc n) pkt pos = do
  (pos', question) ← parse_question tolower pkt pos
  (end, _) ← parse_questions tolower n pkt pos'
  ok (end, question)

-- The answers of a response.
unfoldable pub parse_answers : (ℕ → ℕ) → ℕ → List ℕ → ℕ → Result (List Rr × ℕ)
parse_answers tolower ancount pkt pos =
    if ltb 0 ancount
    then (do
      (end, rrs, min_ttl) ← parse_rr_section tolower ancount pkt max_answers pos [] 0
      guard (not (end == 0))
      ok (rrs, min_ttl))
    else ok ([], 0)

-- dns_parse_response
unfoldable pub parse_response : (ℕ → ℕ) → List ℕ → Result Message
parse_response tolower pkt = do
  guard (leb hdr_len (length pkt))
  header ← parse_header pkt
  guard (is_response header)
  (pos, question) ← parse_questions tolower header.qdcount pkt hdr_len
  (answers, min_ttl) ← parse_answers tolower header.ancount pkt pos
  ok (record {
    header = header;
    question = question;
    answers = answers;
    answer_count = if ltb max_answers header.ancount then max_answers else header.ancount;
    min_ttl = min_ttl;
  })
