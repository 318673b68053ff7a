-- ===== src/Dns/Examples.antt =====
-- The properties of the DNS proxy at concrete inputs.
use fastrg_node.Base.{
  ℕ, ◌+◌, ◌-◌, ◌≤◌, ◌<◌, ◌≡◌, refl, List, [], ◌∷◌, ◌++◌, ◌&&◌, leb, if◌then◌else◌, none, some,
  length, arith, ◌⊎◌,
}
use fastrg_node.Dns.{ok, ◌>>=◌, Safe}
use fastrg_node.Dns.Name.{parse_name}
use fastrg_node.Dns.Name.Safe.{parse_name-Safe}
use fastrg_node.Dns.Name.Encode.{AreLabels, parse_name-encode, encode, spell}
use fastrg_node.Dns.Message.{parse_response}
use fastrg_node.Dns.Message.Safe.{parse_response-Safe, MessageFits}
use fastrg_node.Dns.Response.{build_response_a, response_flags}
use fastrg_node.Dns.Response.Encode.{question, answer}
use fastrg_node.Dns.Response.RoundTrip.{
  parse_response-build_response_a, query_bytes, question_bytes,
}
use fastrg_node.Dns.Static.{Table, Status, init as no_records, add, lookup, get_count}
use fastrg_node.Dns.Static.Invariant.{IsTable, init-IsTable, add-IsTable}
use fastrg_node.Dns.Static.Lookup.{answer_of, add-lookup}
use fastrg_node.Dns.Domain.{IsTolower, domain_eq}

-- tolower of the "C" locale.
abbrev pub to_lower : ℕ → ℕ
to_lower c = if leb 65 c && leb c 90 then c + 32 else c

pub to_lower-IsTolower : IsTolower to_lower
to_lower-IsTolower = record { again = λ c. ground arith; no_end = λ c h e. ground (arith, h, e) }

-- The name "Ab.c" in wire form.
abbrev pub labels : List (List ℕ)
labels = (65 ∷ (98 ∷ [])) ∷ ((99 ∷ []) ∷ [])

pub labels-AreLabels : AreLabels labels
labels-AreLabels = (omega arith, omega arith, (omega arith, omega arith, tt))

abbrev pub wire : List ℕ
wire = 2 ∷ (65 ∷ (98 ∷ (1 ∷ (99 ∷ (0 ∷ [])))))

parse_name-Safe_example :
    Safe (λ (consumed, name). (consumed ≤ 6 - 0) × (length name < 254)) (parse_name wire 0 254)
parse_name-Safe_example = parse_name-Safe wire 0 254 (omega arith)

parse_name-encode_example : parse_name (7 ∷ wire) 1 254 ≡ ok (6, 65 ∷ (98 ∷ (46 ∷ (99 ∷ []))))
unfolding encode spell
parse_name-encode_example =
    parse_name-encode (7 ∷ wire) 1 254 labels [] (omega arith) labels-AreLabels refl (omega arith)

-- A response with one address, and the bytes of the query that it answers.
abbrev a_response : List ℕ
a_response =
    0x12
    ∷ (0x34
        ∷ (0x81
            ∷ (0x80
                ∷ (0
                    ∷ (1
                        ∷ (0
                            ∷ (1
                                ∷ (0
                                    ∷ (0
                                        ∷ (0
                                            ∷ (0
                                                ∷ (wire
                                                    ++ (0
                                                        ∷ (1
                                                            ∷ (0
                                                            ∷ (1
                                                            ∷ (0xC0
                                                            ∷ (0x0C
                                                            ∷ (0
                                                            ∷ (1
                                                            ∷ (0
                                                            ∷ (1
                                                            ∷ (0
                                                            ∷ (0
                                                            ∷ (0
                                                            ∷ (9
                                                            ∷ (0
                                                            ∷ (4
                                                            ∷ (10
                                                            ∷ (0
                                                            ∷ (0
                                                            ∷ (7
                                                            ∷ []))))))))))))))))))))))))))))))))

parse_response-Safe_example : Safe MessageFits (parse_response to_lower a_response)
parse_response-Safe_example = parse_response-Safe to_lower a_response (omega arith)

abbrev pub zeros : List ℕ → List ℕ
zeros rest = 0 ∷ (0 ∷ (0 ∷ (0 ∷ (0 ∷ (0 ∷ rest)))))

abbrev pub a_query : List ℕ
a_query = query_bytes 0x12 0x34 1 0 (zeros (question_bytes labels 0 1 0 1 []))

abbrev pub address : List ℕ
address = 10 ∷ (0 ∷ (0 ∷ (7 ∷ [])))

parse_response-build_response_a_example :
    build_response_a to_lower a_query address 9 512 >>= parse_response to_lower
    ≡ ok (record {
      header = record {
        id = 0x1234;
        flags = response_flags 0 256;
        qdcount = 1;
        ancount = 1;
        nscount = 0;
        arcount = 0;
      };
      question = question to_lower labels 0 1 0 1;
      answers = answer to_lower labels address 9 ∷ [];
      answer_count = 1;
      min_ttl = 9;
    })
unfolding encode spell
parse_response-build_response_a_example =
    parse_response-build_response_a to_lower 0x12 0x34 1 0 0 0 0 0 0 0 labels 0 1 0 1 [] address 9
      512 (omega arith) (omega arith) labels-AreLabels (omega arith) (omega arith) (omega arith)
      refl (omega arith)

-- The table with the record of one name.
abbrev pub name : List ℕ
name = 65 ∷ (98 ∷ (46 ∷ (99 ∷ [])))

abbrev pub one_record : Table
one_record = (add to_lower no_records name 7 0).1

one_record-IsTable : IsTable to_lower one_record
one_record-IsTable =
    add-IsTable to_lower no_records name 7 0 to_lower-IsTolower (omega arith)
      (init-IsTable to_lower)

add-IsTable_example : IsTable to_lower ((add to_lower one_record (99 ∷ []) 8 60).1)
add-IsTable_example =
    add-IsTable to_lower one_record (99 ∷ []) 8 60 to_lower-IsTolower (omega arith)
      one_record-IsTable

add-lookup_example :
    (((add to_lower one_record name 8 0).0 ≡ Status.success)
      × ((d' : List ℕ)
          → answer_of (lookup to_lower ((add to_lower one_record name 8 0).1) d') ≡ (
              if domain_eq to_lower name d'
              then some (8, 3600)
              else answer_of (lookup to_lower one_record d'))))
    ⊎ ((add to_lower one_record name 8 0 ≡ (Status.error, one_record))
        × (get_count one_record ≡ 64)
        × (lookup to_lower one_record name ≡ none))
add-lookup_example =
    add-lookup to_lower one_record name 8 0 to_lower-IsTolower (omega arith) one_record-IsTable
