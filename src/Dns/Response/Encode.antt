-- ===== src/Dns/Response/Encode.antt =====
-- What the parsers of src/dnsd/dns_codec.c read of a question and of the answer that the same file writes.
use fastrg_node.Base.{
  ℕ, ◌+◌, ◌-◌, ◌*◌, ◌/◌, ◌%◌, ◌^◌, ◌≤◌, ◌<◌, ◌≡◌, refl, List, [], ◌∷◌, ◌++◌, true, false, leb, ◌==◌,
  length, arith, le→leb, ne→==, length-append, length-drop, take, drop, sym, ap, ◌∙◌,
}
use fastrg_node.Dns.{ok, u16, read_bytes}
use fastrg_node.Dns.Name.{domain_to_lower}
use fastrg_node.Dns.Name.Encode.{
  encode, spell, AreLabels, read-drop, drop-add, drop-append, length-encode, parse_name-encode,
  parse_name-pointer,
}
use fastrg_node.Dns.Message.{Question, Rr, read16, read32, parse_question, parse_rr}
use fastrg_node.Dns.Response.{answer_a}

read16-drop :
    (pkt : List ℕ) (i hi lo : ℕ) (xs : List ℕ)
    → drop i pkt ≡ hi ∷ (lo ∷ xs)
    → read16 pkt i ≡ ok (u16 (hi * 256 + lo))
unfolding read16
read16-drop pkt i hi lo xs h =
    let first = read-drop pkt i hi (lo ∷ xs) h in
    let second = read-drop pkt (i + 1) lo xs (drop-add pkt i 1 ∙ ap (drop 1) h) in
    rw (first, second) refl

read32-drop :
    (pkt : List ℕ) (i a b c d : ℕ) (xs : List ℕ)
    → drop i pkt ≡ a ∷ (b ∷ (c ∷ (d ∷ xs)))
    → read32 pkt i ≡ ok (u16 (a * 256 + b) * 65536 + u16 (c * 256 + d))
unfolding read32
read32-drop pkt i a b c d xs h =
    let first = read16-drop pkt i a b _ h in
    let second = read16-drop pkt (i + 2) c d xs (drop-add pkt i 2 ∙ ap (drop 2) h) in
    rw (first, second) refl

-- What follows the `xs` that stand at `i`.
pub drop-past :
    (pkt xs ys : List ℕ) (i j : ℕ) → drop i pkt ≡ xs ++ ys → j ≡ i + length xs → drop j pkt ≡ ys
drop-past pkt xs ys i j h e =
    ap (λ k. drop k pkt) e
    ∙ (drop-add pkt i (length xs) ∙ (ap (drop (length xs)) h ∙ drop-append xs ys))

abbrev pub question : (ℕ → ℕ) → List (List ℕ) → ℕ → ℕ → ℕ → ℕ → Question
question tolower ls t1 t2 c1 c2 = record {
  name = domain_to_lower tolower (spell [] ls);
  qtype = u16 (t1 * 256 + t2);
  qclass = u16 (c1 * 256 + c2);
  name_wire_len = length (encode ls);
}

pub parse_question-encode :
    (tolower : ℕ → ℕ) (pkt : List ℕ) (offset : ℕ) (ls : List (List ℕ)) (t1 t2 c1 c2 : ℕ)
    (rest : List ℕ)
    → length pkt < 65536
    → AreLabels ls
    → drop offset pkt ≡ encode ls ++ (t1 ∷ (t2 ∷ (c1 ∷ (c2 ∷ rest))))
    → length (spell [] ls) ≤ 253
    → parse_question tolower pkt offset
      ≡ ok (offset + length (encode ls) + 4, question tolower ls t1 t2 c1 c2)
unfolding parse_question
parse_question-encode tolower pkt offset ls t1 t2 c1 c2 rest short labels at fits =
    let pos = offset + length (encode ls) in
    let n : length pkt - offset ≡ length (encode ls) + (4 + length rest) = omega (
      arith,
      length-drop {0} offset pkt,
      ap length at,
      length-append {0} (encode ls) (t1 ∷ (t2 ∷ (c1 ∷ (c2 ∷ rest)))),
    ) in
    let name = parse_name-encode pkt offset 254 ls _ short labels at (omega arith) in
    let e : u16 pos ≡ pos = omega arith in
    let e' : u16 (pos + 4) ≡ pos + 4 = omega arith in
    let full : (length (encode ls) == 0) ≡ false =
      ne→== (length (encode ls)) 0 (omega (arith, length-encode ls)) in
    let inside : leb (pos + 4) (length pkt) ≡ true =
      le→leb (pos + 4) (length pkt) (omega (arith, length-encode ls)) in
    let there = drop-past pkt (encode ls) _ offset pos at refl in
    let type = read16-drop pkt pos t1 t2 _ there in
    let class =
      read16-drop pkt (pos + 2) c1 c2 rest
        (drop-past pkt (t1 ∷ (t2 ∷ [])) _ pos (pos + 2) there refl) in
    rw (name, full, e, inside, type, class, e') refl

take-length : (xs : List ℕ) → take (length xs) xs ≡ xs
take-length [] = refl
take-length (x ∷ xs) = ap (λ t. x ∷ t) (take-length xs)

pub length-answer_a :
    (ip_addr : List ℕ) (ttl : ℕ) → length ip_addr ≡ 4 → length (answer_a ip_addr ttl) ≡ 16
unfolding answer_a
length-answer_a ip_addr ttl four = omega arith

-- The answer's bytes as a record.
abbrev pub answer : (ℕ → ℕ) → List (List ℕ) → List ℕ → ℕ → Rr
answer tolower ls ip_addr ttl = record {
  name = domain_to_lower tolower (spell [] ls);
  type = 1;
  rr_class = 1;
  ttl = ttl;
  rdlength = 4;
  rdata = ip_addr;
}

read32-bytes :
    (ttl : ℕ)
    → ttl < 2 ^ 32
    → u16 (ttl / 2 ^ 24 % 256 * 256 + ttl / 2 ^ 16 % 256) * 65536
        + u16 (ttl / 2 ^ 8 % 256 * 256 + ttl % 256)
      ≡ ttl
read32-bytes ttl h = omega arith

pub parse_rr-answer :
    (tolower : ℕ → ℕ) (pkt : List ℕ) (offset : ℕ) (ls : List (List ℕ)) (rest ip_addr : List ℕ)
    (ttl : ℕ)
    → length pkt < 65536
    → AreLabels ls
    → drop 12 pkt ≡ encode ls ++ rest
    → length (spell [] ls) ≤ 253
    → drop offset pkt ≡ answer_a ip_addr ttl
    → length ip_addr ≡ 4
    → ttl < 2 ^ 32
    → parse_rr tolower pkt offset ≡ ok (length pkt, answer tolower ls ip_addr ttl)
unfolding parse_rr read_bytes answer_a
parse_rr-answer tolower pkt offset ls rest ip_addr ttl short labels name_at fits at four ttl_fits =
    let n : length pkt - offset ≡ 16 = omega (arith, length-drop {0} offset pkt, ap length at) in
    let name =
      parse_name-pointer pkt offset 254 12 ls rest _ short labels at (omega arith) name_at
        (omega arith) in
    let pos = offset + 2 in
    let there = drop-past pkt (0xC0 ∷ (0x0C ∷ [])) _ offset pos at refl in
    let e : u16 (offset + 2) ≡ pos = omega arith in
    let e' : u16 (pos + 10) ≡ offset + 12 = omega arith in
    let e'' : u16 (offset + 12 + 4) ≡ length pkt = omega arith in
    let inside : leb (pos + 10) (length pkt) ≡ true =
      le→leb (pos + 10) (length pkt) (omega arith) in
    let inside' : leb (offset + 12 + 4) (length pkt) ≡ true =
      le→leb (offset + 12 + 4) (length pkt) (omega arith) in
    let type = read16-drop pkt pos 0 1 _ there in
    let class =
      read16-drop pkt (pos + 2) 0 1 _ (drop-past pkt (0 ∷ (1 ∷ [])) _ pos (pos + 2) there refl) in
    let time =
      read32-drop pkt (pos + 4) _ _ _ _ _
        (drop-past pkt (0 ∷ (1 ∷ (0 ∷ (1 ∷ [])))) _ pos (pos + 4) there refl) in
    let n' = read16-drop pkt (pos + 8) 0 4 ip_addr (
      drop-past pkt
        (0
          ∷ (1
              ∷ (0
                  ∷ (1
                      ∷ (ttl / 2 ^ 24 % 256
                          ∷ (ttl / 2 ^ 16 % 256 ∷ (ttl / 2 ^ 8 % 256 ∷ (ttl % 256 ∷ []))))))))
        _ pos (pos + 8) there refl) in
    let bytes : take 4 (drop (offset + 12) pkt) ≡ ip_addr =
      ap (take 4)
        (drop-past pkt (take 12 (answer_a ip_addr ttl)) ip_addr offset (offset + 12) at refl)
      ∙ (ap (λ k. take k ip_addr) (sym four) ∙ take-length ip_addr) in
    rw (name, e, inside, type, class, time, n', read32-bytes ttl ttl_fits, e', inside', bytes, e'')
      refl
