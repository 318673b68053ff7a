-- ===== src/Dns/Response.antt =====
-- The builders of responses of src/dnsd/dns_codec.c.
pub mod Flags
pub mod Encode
pub mod RoundTrip
use Prim.Native.Nat.{bit_and, bit_or}
use fastrg_node.Base.{
  ℕ, ◌+◌, ◌*◌, ◌/◌, ◌%◌, ◌^◌, List, [], ◌∷◌, ◌++◌, Bool, true, false, leb, ltb, not, if◌then◌else◌,
  length, set, take,
}
use fastrg_node.Dns.{Result, ok, rejected, fault, stuck, ◌>>=◌, ◌>>◌, guard, within, read}
use fastrg_node.Dns.Message.{hdr_len, read16, parse_question}

-- DNS_RCODE_OK, DNS_RCODE_SERVFAIL and DNS_RCODE_NXDOMAIN.
abbrev pub rcode_ok : ℕ
rcode_ok = 0

abbrev pub rcode_servfail : ℕ
rcode_servfail = 2

abbrev pub rcode_nxdomain : ℕ
rcode_nxdomain = 3

-- flags |= DNS_FLAG_QR | DNS_FLAG_RA; flags = (flags & 0xFFF0) | (rcode & 0x0F);
unfoldable pub response_flags : ℕ → ℕ → ℕ
response_flags rcode flags = bit_or (bit_and (bit_or flags 0x8080) 0xFFF0) (bit_and rcode 0x0F)

-- build_response_base: the bytes of the query in the buffer, with the flags of the response.
unfoldable pub build_response_base : List ℕ → ℕ → ℕ → Result (List ℕ)
unfolding read16 response_flags
build_response_base query rcode resp_buf_len = do
  guard (leb hdr_len (length query))
  guard (leb (length query) resp_buf_len)
  flags ← read16 query 2
  let flags' = response_flags rcode flags
  ok (set (set query 2 (flags' / 256)) 3 (flags' % 256))

-- resp_buf[6] to resp_buf[11]: the counts of the three sections.
unfoldable pub set_counts : ℕ → List ℕ → List ℕ
set_counts ancount resp = set (set (set (set (set (set resp 6 0) 7 ancount) 8 0) 9 0) 10 0) 11 0

-- The sixteen bytes of the answer: a pointer to the name of the question, type A, class IN, the TTL, and
-- the four bytes of the address.
unfoldable pub answer_a : List ℕ → ℕ → List ℕ
answer_a ip_addr ttl =
    0xC0
    ∷ 0x0C
    ∷ 0
    ∷ 1
    ∷ 0
    ∷ 1
    ∷ (ttl / 2 ^ 24 % 256)
    ∷ (ttl / 2 ^ 16 % 256)
    ∷ (ttl / 2 ^ 8 % 256)
    ∷ (ttl % 256)
    ∷ 0
    ∷ 4
    ∷ ip_addr

-- dns_build_response_a: the bytes of the response. `ip_addr` is the four bytes of the address in memory.
unfoldable pub build_response_a : (ℕ → ℕ) → List ℕ → List ℕ → ℕ → ℕ → Result (List ℕ)
build_response_a tolower query ip_addr ttl resp_buf_len = do
  guard (leb (length query + 16) resp_buf_len)
  base ← build_response_base query rcode_ok resp_buf_len
  let resp = set_counts 1 base
  (qend, q) ← parse_question tolower query hdr_len
  guard (leb (qend + 16) resp_buf_len)
  ok (take qend resp ++ answer_a ip_addr ttl)

-- dns_build_response_nxdomain and dns_build_response_servfail, which differ in the code.
unfoldable pub build_response_error : ℕ → (ℕ → ℕ) → List ℕ → ℕ → Result (List ℕ)
build_response_error rcode tolower query resp_buf_len = do
  base ← build_response_base query rcode resp_buf_len
  let resp = set_counts 0 base
  (qend, q) ← parse_question tolower query hdr_len
  ok (take qend resp)

unfoldable pub build_response_nxdomain : (ℕ → ℕ) → List ℕ → ℕ → Result (List ℕ)
unfolding build_response_error
build_response_nxdomain = build_response_error rcode_nxdomain

unfoldable pub build_response_servfail : (ℕ → ℕ) → List ℕ → ℕ → Result (List ℕ)
unfolding build_response_error
build_response_servfail = build_response_error rcode_servfail
