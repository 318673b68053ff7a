-- ===== src/Dns/Cache/Lookup.antt =====
-- What a lookup in the cache of src/dnsd/dns_cache.c finds after an insertion.
use fastrg_node.Base.{
  ℕ, zero, suc, ◌+◌, ◌-◌, ◌*◌, ◌%◌, ◌^◌, ◌≤◌, ◌<◌, ◌≡◌, refl, List, [], ◌∷◌, Bool, true, false,
  ◌||◌, leb, ltb, ◌==◌, ==_iff, lt→leb_false, if◌then◌else◌, Option, none, some, length, get_or,
  set, arith, Bool-cases, inl, inr, sym, ap, ◌∙◌,
}
use fastrg_node.Dns.Domain.{
  domain_eq, store_domain, IsTolower, key, key-domain_eq, domain_eq_right, domain_eq-store_domain,
}
use fastrg_node.Dns.Static.{Status}
use fastrg_node.Dns.Cache.{
  Entry, Cache, Clock, fnv, hash_bytes, cache_hash, Search, absent, expired, hit, push, search,
  chain, searched, lookup, prepend, update, make_room, insert_new, inserted, insert, is_entry,
  is_expired, bucket_count, max_packet_len,
}
use fastrg_node.Dns.Cache.Count.{IsCache}
use fastrg_node.Dns.Cache.Invariant.{cache_hash_lt}

-- The hash goes by the bytes that a comparison goes by.
hash_key : ℕ → List ℕ → ℕ
hash_key hash [] = hash
hash_key hash (c ∷ cs) = hash_key (fnv hash c) cs

hash_bytes-key :
    (tolower : ℕ → ℕ) (hash : ℕ) (d : List ℕ)
    → hash_bytes tolower hash d ≡ hash_key hash (key tolower d)
unfolding hash_bytes key hash_key
hash_bytes-key tolower hash [] = refl
hash_bytes-key tolower hash (c ∷ cs) = elim (Bool-cases (c == 0)) [
  | inl e ↦ rw e refl
  | inr e ↦ rw e (hash_bytes-key tolower (fnv hash (tolower c)) cs)
]

-- Names that compare equal have one bucket.
pub cache_hash_eq :
    (tolower : ℕ → ℕ) (a b : List ℕ) (t : ℕ)
    → domain_eq tolower a b ≡ true
    → cache_hash tolower a t ≡ cache_hash tolower b t
unfolding cache_hash
cache_hash_eq tolower a b t h =
    ap (λ hash. fnv hash t % bucket_count)
      (hash_bytes-key tolower 2166136261 a
        ∙ (ap (hash_key 2166136261) (key-domain_eq tolower a b h)
            ∙ sym (hash_bytes-key tolower 2166136261 b)))

get_or-set :
    (buckets : List (List Entry)) (i : ℕ) (es : List Entry)
    → i < length buckets
    → get_or (set buckets i es) i [] ≡ es
get_or-set [] i es h = absurd (omega arith)
get_or-set (b ∷ buckets) zero es h = refl
get_or-set (b ∷ buckets) (suc i) es h = get_or-set buckets i es (omega arith)

abbrev pub response_of : Option Entry → Option (List ℕ)
response_of none = none
response_of (some e) = some e.response

abbrev found : Search → Option (List ℕ)
found absent = none
found (expired es) = none
found (hit e es) = some e.response

found-push : (e : Entry) (r : Search) → found (push e r) ≡ found r
found-push e absent = refl
found-push e (expired es) = refl
found-push e (hit x es) = refl

response_of-searched :
    (cache : Cache) (i : ℕ) (r : Search) → response_of ((searched cache i r).0) ≡ found r
unfolding searched
response_of-searched cache i absent = refl
response_of-searched cache i (expired es) = refl
response_of-searched cache i (hit e es) = refl

response_of-lookup :
    (clock : Clock) (cache : Cache) (d : List ℕ) (t : ℕ)
    → response_of ((lookup clock cache d t).0)
      ≡ found (search clock d t (chain cache (cache_hash clock.tolower d t)))
unfolding lookup
response_of-lookup clock cache d t = response_of-searched cache (cache_hash clock.tolower d t) _

-- A lookup at `clock'` of a name that compares equal to the one inserted at `clock`, within the TTL.
module _ (clock clock' : Clock) (d d' : List ℕ) (t : ℕ) (response : List ℕ) (ttl : ℕ)
    (one_tolower : clock'.tolower ≡ clock.tolower) (same : domain_eq clock.tolower d d' ≡ true)
    (fresh : leb (ttl * clock'.cycles_in_sec % 2 ^ 64) ((clock'.now + 2 ^ 64 - clock.now) % 2 ^ 64)
      ≡ false) where
  abbrev After : Option (List Entry) → Type 0
  After none = Unit {0}
  After (some es) = found (search clock' d' t es) ≡ some response

  is_entry_eq : (e : Entry) → is_entry clock'.tolower d' t e ≡ is_entry clock.tolower d t e
  is_entry_eq e = rw (one_tolower, domain_eq_right clock.tolower d d' e.domain same) refl

  prepend-After :
      (e : Entry) (o : Option (List Entry))
      → is_entry clock.tolower d t e ≡ false
      → After o
      → After (prepend e o)
  unfolding search
  prepend-After e none k h = tt
  prepend-After e (some es) k h = rw (is_entry_eq e, k) (found-push e (search clock' d' t es) ∙ h)

  search-update : (es : List Entry) → After (update clock d t response ttl es)
  unfolding update search is_expired
  search-update [] = tt
  search-update (e ∷ es) = elim (Bool-cases (is_entry clock.tolower d t e)) [
    | inl k ↦ rw (update, k, is_entry_eq e, k, fresh) refl
    | inr k ↦
        rw (update, k) (prepend-After e (update clock d t response ttl es) k (search-update es))
  ]

  -- The new entry stands at the head of its chain.
  search_new :
      (es : List Entry)
      → IsTolower clock.tolower
      → length d ≤ 253
      → found (
          search clock' d' t (
            record {
              domain = store_domain clock.tolower d;
              qtype = t;
              response = response;
              ttl = ttl;
              insert_time = clock.now;
              hit_count = 0;
            }
            ∷ es))
        ≡ some response
  unfolding search is_expired
  search_new es tl fits =
      let k : domain_eq clock.tolower (store_domain clock.tolower d) d' ≡ true =
        domain_eq-store_domain {tolower = clock.tolower} d tl fits d' ∙ same in
      rw (one_tolower, k, (==_iff t t).1 refl, fresh) refl

  -- An insertion that succeeds.
  inserted-lookup :
      (mem : Bool) (cache : Cache) (i : ℕ) (o : Option (List Entry))
      → IsTolower clock.tolower
      → length d ≤ 253
      → i < length cache.buckets
      → After o
      → (inserted mem clock cache i
          (record {
            domain = store_domain clock.tolower d;
            qtype = t;
            response = response;
            ttl = ttl;
            insert_time = clock.now;
            hit_count = 0;
          })
          o).0
        ≡ Status.success
      → found (
          search clock' d' t (
            chain
              ((inserted mem clock cache i
                (record {
                  domain = store_domain clock.tolower d;
                  qtype = t;
                  response = response;
                  ttl = ttl;
                  insert_time = clock.now;
                  hit_count = 0;
                })
                o).1)
              i))
        ≡ some response
  unfolding inserted insert_new
  inserted-lookup mem cache i (some es) tl fits lt h done = rw (get_or-set cache.buckets i es lt) h
  inserted-lookup true cache i none tl fits lt h done =
      rw (get_or-set cache.buckets i _ lt)
        (search_new ((make_room clock (chain cache i) cache.entry_count).0) tl fits)
  inserted-lookup false cache i none tl fits lt h done = ground (arith, done)

-- After an insertion that succeeds, a lookup of a name that compares equal, with the same type, in less than
-- the TTL (60 seconds in place of 0) finds the response. The name has at most 253 bytes.
pub insert-lookup :
    (mem : Bool) (clock clock' : Clock) (cache : Cache) (d d' : List ℕ) (t : ℕ) (response : List ℕ)
    (ttl : ℕ)
    → IsTolower clock.tolower
    → clock'.tolower ≡ clock.tolower
    → IsCache cache
    → length d ≤ 253
    → domain_eq clock.tolower d d' ≡ true
    → clock.now ≤ clock'.now
    → clock'.now < 2 ^ 64
    → clock'.now - clock.now < (if ttl == 0 then 60 else ttl) * clock'.cycles_in_sec
    → (if ttl == 0 then 60 else ttl) * clock'.cycles_in_sec < 2 ^ 64
    → (insert mem clock cache d t response ttl).0 ≡ Status.success
    → response_of ((lookup clock' ((insert mem clock cache d t response ttl).1) d' t).0)
      ≡ some response
unfolding insert lookup
insert-lookup mem clock clock' cache d d' t response ttl tl one h fits same order now within room
      done =
    let ttl' = if ttl == 0 then 60 else ttl in
    let i = cache_hash clock.tolower d t in
    let lt : i < length cache.buckets =
      omega (arith, cache_hash_lt clock.tolower d t, h.all_buckets) in
    let bucket : cache_hash clock'.tolower d' t ≡ i =
      rw one (sym (cache_hash_eq clock.tolower d d' t same)) in
    let e : ttl' * clock'.cycles_in_sec % 2 ^ 64 ≡ ttl' * clock'.cycles_in_sec = omega arith in
    let e' : (clock'.now + 2 ^ 64 - clock.now) % 2 ^ 64 ≡ clock'.now - clock.now = omega arith in
    let fresh : leb (ttl' * clock'.cycles_in_sec % 2 ^ 64)
          ((clock'.now + 2 ^ 64 - clock.now) % 2 ^ 64)
        ≡ false =
      rw (e, e') (lt→leb_false (clock'.now - clock.now) (ttl' * clock'.cycles_in_sec) within) in
    elim (Bool-cases (length response == 0 || ltb max_packet_len (length response))) [
      | inl k ↦
          let refused : insert mem clock cache d t response ttl ≡ (Status.error, cache) =
            rw (insert, k) refl in
          ground (arith, ap (λ r. r.0) refused, done)
      | inr k ↦
          let entry : Entry = record {
            domain = store_domain clock.tolower d;
            qtype = t;
            response = response;
            ttl = ttl';
            insert_time = clock.now;
            hit_count = 0;
          } in
          let o = update clock d t response ttl' (chain cache i) in
          let e'' : insert mem clock cache d t response ttl ≡ inserted mem clock cache i entry o =
            rw (insert, k) refl in
          response_of-lookup clock' ((insert mem clock cache d t response ttl).1) d' t
          ∙ (ap
                (λ j.
                  found
                    (search clock' d' t (chain ((insert mem clock cache d t response ttl).1) j)))
                bucket
              ∙ (ap (λ r. found (search clock' d' t (chain (r.1) i))) e''
                  ∙ inserted-lookup clock clock' d d' t response ttl' one same fresh mem cache i o
                      tl fits lt
                      (search-update clock clock' d d' t response ttl' one same fresh
                        (chain cache i))
                      (ap (λ r. r.0) (sym e'') ∙ done)))
    ]
