-- ===== src/Dns/Cache.antt =====
-- The cache of src/dnsd/dns_cache.c.
pub mod Count
pub mod Room
pub mod Invariant
pub mod Lookup
use Prim.Native.Nat.{bit_xor}
use fastrg_node.Base.{
  ℕ, zero, suc, ◌+◌, ◌-◌, ◌*◌, ◌%◌, ◌^◌, List, [], ◌∷◌, ◌++◌, Bool, true, false, ◌&&◌, ◌||◌, leb,
  ltb, ◌==◌, if◌then◌else◌, Option, none, some, replicate, length, get_or, set,
}
use fastrg_node.Dns.Domain.{domain_eq, store_domain}
use fastrg_node.Dns.Static.{Status, success, error}

-- DNS_CACHE_BUCKET_COUNT, DNS_CACHE_MAX_ENTRIES and DNS_MAX_PACKET_LEN.
abbrev pub bucket_count : ℕ
bucket_count = 256

abbrev pub max_entries : ℕ
max_entries = 512

abbrev pub max_packet_len : ℕ
max_packet_len = 512

-- dns_cache_entry_t. `response` holds the first response_len bytes of the array.
pub record Entry : Type 0 where
  pub domain : List ℕ
  pub qtype : ℕ
  pub response : List ℕ
  pub ttl : ℕ
  pub insert_time : ℕ
  pub hit_count : ℕ

-- dns_cache_t, a bucket as the list of its chain.
pub record Cache : Type 0 where
  pub buckets : List (List Entry)
  pub entry_count : ℕ

-- The time-stamp counter, its frequency, and the C library's tolower.
pub record Clock : Type 0 where
  pub now : ℕ
  pub cycles_in_sec : ℕ
  pub tolower : ℕ → ℕ

-- A step of FNV-1a on a U32.
abbrev pub fnv : ℕ → ℕ → ℕ
fnv hash v = bit_xor hash v * 16777619 % 2 ^ 32

unfoldable pub hash_bytes : (ℕ → ℕ) → ℕ → List ℕ → ℕ
hash_bytes tolower hash [] = hash
hash_bytes tolower hash (c ∷ cs) =
    let rest = hash_bytes tolower (fnv hash (tolower c)) cs in if c == 0 then hash else rest

-- dns_cache_hash
unfoldable pub cache_hash : (ℕ → ℕ) → List ℕ → ℕ → ℕ
cache_hash tolower domain qtype = fnv (hash_bytes tolower 2166136261 domain) qtype % bucket_count

-- dns_cache_init
abbrev pub init : Cache
init = record { buckets = replicate bucket_count []; entry_count = 0 }

-- cache->entry_count--
abbrev pub decrement : ℕ → ℕ
decrement n = (n + 2 ^ 32 - 1) % 2 ^ 32

abbrev pub increment : ℕ → ℕ
increment n = (n + 1) % 2 ^ 32

-- domain_eq(entry->domain, domain) && entry->qtype == qtype
abbrev pub is_entry : (ℕ → ℕ) → List ℕ → ℕ → Entry → Bool
is_entry tolower domain qtype e = domain_eq tolower e.domain domain && (e.qtype == qtype)

-- now - entry->insert_time >= (U64)entry->ttl * fastrg_get_cycles_in_sec()
unfoldable pub is_expired : Clock → Entry → Bool
is_expired clock e =
    leb (e.ttl * clock.cycles_in_sec % 2 ^ 64) ((clock.now + 2 ^ 64 - e.insert_time) % 2 ^ 64)

-- What the loop of a lookup ends in, with the chain it leaves.
pub data Search : Type 0 where
  absent : Search
  expired : List Entry → Search
  hit : Entry → List Entry → Search

abbrev pub push : Entry → Search → Search
push e absent = absent
push e (expired es) = expired (e ∷ es)
push e (hit x es) = hit x (e ∷ es)

abbrev pub count_hit : Entry → Entry
count_hit e = record e { hit_count = (e.hit_count + 1) % 2 ^ 32 }

unfoldable pub search : Clock → List ℕ → ℕ → List Entry → Search
search clock domain qtype [] = absent
search clock domain qtype (e ∷ es) =
    let rest = search clock domain qtype es in
    if is_entry clock.tolower domain qtype e
    then if is_expired clock e then expired es else hit (count_hit e) (count_hit e ∷ es)
    else push e rest

abbrev pub chain : Cache → ℕ → List Entry
chain cache i = get_or cache.buckets i []

-- The result of a search put into the cache.
unfoldable pub searched : Cache → ℕ → Search → Option Entry × Cache
searched cache i absent = (none, cache)
searched cache i (expired es) =
    (none, record { buckets = set cache.buckets i es; entry_count = decrement cache.entry_count })
searched cache i (hit e es) = (some e, record cache { buckets = set cache.buckets i es })

-- dns_cache_lookup
unfoldable pub lookup : Clock → Cache → List ℕ → ℕ → Option Entry × Cache
lookup clock cache domain qtype =
    let i = cache_hash clock.tolower domain qtype in
    searched cache i (search clock domain qtype (chain cache i))

-- The chain with an entry changed, from the loop's entry on.
abbrev pub prepend : Entry → Option (List Entry) → Option (List Entry)
prepend e none = none
prepend e (some es) = some (e ∷ es)

-- The loop of dns_cache_insert that updates an entry of the name.
unfoldable pub update : Clock → List ℕ → ℕ → List ℕ → ℕ → List Entry → Option (List Entry)
update clock domain qtype response ttl [] = none
update clock domain qtype response ttl (e ∷ es) =
    let rest = update clock domain qtype response ttl es in
    if is_entry clock.tolower domain qtype e
    then some (record e { response = response; ttl = ttl; insert_time = clock.now } ∷ es)
    else prepend e rest

-- oldest == NULL || cur->insert_time < oldest->insert_time
abbrev pub older : ℕ → ℕ → Option (ℕ × ℕ) → Option (ℕ × ℕ)
older place time none = some (place, time)
older place time (some (i, t)) = if ltb time t then some (place, time) else some (i, t)

-- The loop that drops the expired entries: those kept, the count, and the place and time of the oldest one
-- kept, which is never an entry that is dropped.
unfoldable pub sweep :
    Clock → List Entry → List Entry → ℕ → Option (ℕ × ℕ) → List Entry × ℕ × Option (ℕ × ℕ)
sweep clock [] kept count oldest = (kept, count, oldest)
sweep clock (e ∷ es) kept count oldest =
    let gone = is_expired clock e in
    sweep clock es (if gone then kept else kept ++ (e ∷ []))
      (if gone then decrement count else count)
      (if gone then oldest else older (length kept) e.insert_time oldest)

-- The chain without the entry at a place.
abbrev pub remove_at : ℕ → List Entry → List Entry
remove_at i [] = []
remove_at zero (e ∷ es) = es
remove_at (suc i) (e ∷ es) = e ∷ remove_at i es

-- if (cache->entry_count >= DNS_CACHE_MAX_ENTRIES && oldest != NULL)
unfoldable pub evict_oldest : List Entry × ℕ × Option (ℕ × ℕ) → List Entry × ℕ
evict_oldest (kept, count, none) = (kept, count)
evict_oldest (kept, count, some (i, t)) =
    if leb max_entries count then (remove_at i kept, decrement count) else (kept, count)

-- if (cache->entry_count >= DNS_CACHE_MAX_ENTRIES): the chain and the count.
unfoldable pub make_room : Clock → List Entry → ℕ → List Entry × ℕ
make_room clock es count =
    if leb max_entries count then evict_oldest (sweep clock es [] count none) else (es, count)

-- The rest of dns_cache_insert, where no entry has the name. `mem`: fastrg_malloc returns an entry.
unfoldable pub insert_new : Bool → Clock → Cache → ℕ → Entry → List Entry × ℕ → Status × Cache
insert_new mem clock cache i e (es, count) =
    if mem
    then (
      Status.success,
      record { buckets = set cache.buckets i (e ∷ es); entry_count = increment count },
    )
    else (Status.error, record { buckets = set cache.buckets i es; entry_count = count })

unfoldable pub inserted : Bool → Clock → Cache → ℕ → Entry → Option (List Entry) → Status × Cache
inserted mem clock cache i e (some es) =
    (Status.success, record cache { buckets = set cache.buckets i es })
inserted mem clock cache i e none =
    insert_new mem clock cache i e (make_room clock (chain cache i) cache.entry_count)

-- dns_cache_insert
unfoldable pub insert : Bool → Clock → Cache → List ℕ → ℕ → List ℕ → ℕ → Status × Cache
insert mem clock cache domain qtype response ttl =
    let i = cache_hash clock.tolower domain qtype in
    let ttl' = if ttl == 0 then 60 else ttl in
    if length response == 0 || ltb max_packet_len (length response)
    then (Status.error, cache)
    else inserted mem clock cache i
        (record {
          domain = store_domain clock.tolower domain;
          qtype = qtype;
          response = response;
          ttl = ttl';
          insert_time = clock.now;
          hit_count = 0;
        })
        (update clock domain qtype response ttl' (chain cache i))

-- The loop of dns_cache_remove.
unfoldable pub unlink : (ℕ → ℕ) → List ℕ → ℕ → List Entry → Option (List Entry)
unlink tolower domain qtype [] = none
unlink tolower domain qtype (e ∷ es) =
    let rest = unlink tolower domain qtype es in
    if is_entry tolower domain qtype e then some es else prepend e rest

unfoldable pub removed : Cache → ℕ → Option (List Entry) → Status × Cache
removed cache i none = (Status.error, cache)
removed cache i (some es) = (
  Status.success,
  record { buckets = set cache.buckets i es; entry_count = decrement cache.entry_count },
)

-- dns_cache_remove
unfoldable pub remove : (ℕ → ℕ) → Cache → List ℕ → ℕ → Status × Cache
remove tolower cache domain qtype =
    let i = cache_hash tolower domain qtype in
    removed cache i (unlink tolower domain qtype (chain cache i))

-- The loops of dns_cache_flush count the entries that they free.
unfoldable pub flushed : List (List Entry) → ℕ
flushed [] = 0
flushed (es ∷ buckets) = (length es + flushed buckets) % 2 ^ 32

-- dns_cache_flush and dns_cache_cleanup, which flushes.
abbrev pub flush : Cache → ℕ × Cache
flush cache = (flushed cache.buckets, init)
