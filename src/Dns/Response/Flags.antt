-- ===== src/Dns/Response/Flags.antt =====
-- The flags of the responses of src/dnsd/dns_codec.c.
use fastrg_node.Base.{
  ℕ, zero, suc, ◌+◌, ◌*◌, ◌/◌, ◌%◌, ◌<◌, ◌≤◌, ==_iff, Bool-cases, inl, inr, ◌≡◌, refl, Bool, true,
  ◌&&◌, ◌==◌, ltb, arith,
}
use fastrg_node.Dns.Response.{response_flags}

-- The test passes on the number and on each one under it.
passes_upto : (ℕ → Bool) → ℕ → Bool
passes_upto test zero = test 0
passes_upto test (suc top) = passes_upto test top && test (suc top)

passes_upto-le :
    (test : ℕ → Bool) (top : ℕ) {k : ℕ} → passes_upto test top ≡ true → k ≤ top → test k ≡ true
unfolding passes_upto
passes_upto-le test zero {k = zero} all le = all
passes_upto-le test zero {k = suc k} all le = absurd (omega arith)
passes_upto-le test (suc top) {k = k} all le = elim (Bool-cases (k == suc top)) [
  | inl here ↦ let e : k ≡ suc top = (==_iff k (suc top)).0 here in rw e (ground (arith, all))
  | inr below ↦ passes_upto-le test top {k = k} (ground (arith, all)) (ground (arith, below))
]

-- DNS_FLAG_QR and DNS_FLAG_RA are set, and the code stands in the low bits.
unfoldable pub is_response_flags : ℕ → ℕ → Bool
is_response_flags rcode flags =
    ltb flags 65536 && (flags / 32768 % 2 == 1) && (flags / 128 % 2 == 1) && (flags % 16 == rcode)

all_flags :
    passes_upto
      (λ rcode.
        passes_upto
          (λ hi.
            passes_upto (λ lo. is_response_flags rcode (response_flags rcode (hi * 256 + lo))) 255)
          255)
      3
    ≡ true
unfolding passes_upto response_flags is_response_flags
all_flags = refl

pub response_flags_lem :
    (rcode hi lo : ℕ)
    → rcode < 4
    → hi < 256
    → lo < 256
    → is_response_flags rcode (response_flags rcode (hi * 256 + lo)) ≡ true
response_flags_lem rcode hi lo h k l =
    passes_upto-le _ 255 {k = lo}
      (passes_upto-le _ 255 {k = hi} (passes_upto-le _ 3 {k = rcode} all_flags (omega arith))
        (omega arith))
      (omega arith)
