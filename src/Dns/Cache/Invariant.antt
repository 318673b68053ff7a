-- ===== src/Dns/Cache/Invariant.antt =====
-- The number of entries of the cache of src/dnsd/dns_cache.c.
use fastrg_node.Base.{
  ℕ, zero, suc, ◌%◌, ◌^◌, ◌≤◌, ◌<◌, ◌≡◌, refl, List, [], ◌∷◌, Bool, true, false, ◌||◌, ltb, ◌==◌,
  if◌then◌else◌, some, replicate, length, arith, length-replicate, Bool-cases, Option-cases, inl,
  inr,
}
use fastrg_node.Dns.Domain.{store_domain}
use fastrg_node.Dns.Cache.{
  Entry, Cache, Clock, cache_hash, init, decrement, increment, Search, absent, expired, hit, push,
  search, chain, searched, lookup, update, make_room, insert_new, inserted, insert, flushed, unlink,
  removed, remove, is_entry, is_expired, max_packet_len,
}
use fastrg_node.Dns.Cache.Count.{
  total, nonempty, IsCache, set-IsCache, small, occupied-length, length_le,
}
use fastrg_node.Dns.Cache.Room.{Room, make_room-Room}

-- The chain that a search leaves.
abbrev Leaves : List Entry → Search → Type 0
Leaves es absent = Unit {0}
Leaves es (expired es') = length es ≡ suc (length es')
Leaves es (hit x es') = (length es ≡ length es') × (1 ≤ length es)

push-Leaves : (e : Entry) (es : List Entry) (r : Search) → Leaves es r → Leaves (e ∷ es) (push e r)
push-Leaves e es absent h = tt
push-Leaves e es (expired es') h = omega arith
push-Leaves e es (hit x es') h = omega arith

search-Leaves :
    (clock : Clock) (d : List ℕ) (t : ℕ) (es : List Entry) → Leaves es (search clock d t es)
unfolding search
search-Leaves clock d t [] = tt
search-Leaves clock d t (e ∷ es) = elim (Bool-cases (is_entry clock.tolower d t e)) [
  | inr k ↦ rw k (push-Leaves e es (search clock d t es) (search-Leaves clock d t es))
  | inl k ↦ elim (Bool-cases (is_expired clock e)) [
    | inl k' ↦ rw (k, k') refl
    | inr k' ↦ rw (k, k') (omega arith)
  ]
]

searched-IsCache :
    (cache : Cache) (i : ℕ) (r : Search)
    → IsCache cache
    → i < 256
    → Leaves (chain cache i) r
    → IsCache ((searched cache i r).1)
unfolding searched
searched-IsCache cache i absent h lt k = h
searched-IsCache cache i (expired es) h lt k =
    let b = occupied-length (chain cache i) in
    set-IsCache cache i es (decrement cache.entry_count) h lt
      (omega (arith, h.counted, length_le cache.buckets i, small cache h))
      (inl (omega (arith, h.counted, length_le cache.buckets i, small cache h, b)))
searched-IsCache cache i (hit x es) h lt k =
    let b = occupied-length (chain cache i) in
    set-IsCache cache i es cache.entry_count h lt (omega arith)
      (inl (omega (arith, b, occupied-length es)))

pub cache_hash_lt : (tolower : ℕ → ℕ) (d : List ℕ) (t : ℕ) → cache_hash tolower d t < 256
unfolding cache_hash
cache_hash_lt tolower d t = omega arith

-- dns_cache_lookup keeps the cache well formed.
pub lookup-IsCache :
    (clock : Clock) (cache : Cache) (d : List ℕ) (t : ℕ)
    → IsCache cache
    → IsCache ((lookup clock cache d t).1)
unfolding lookup
lookup-IsCache clock cache d t h =
    searched-IsCache cache (cache_hash clock.tolower d t) _ h (cache_hash_lt clock.tolower d t)
      (search-Leaves clock d t _)

update-length :
    (clock : Clock) (d : List ℕ) (t : ℕ) (response : List ℕ) (ttl : ℕ) (es es' : List Entry)
    → update clock d t response ttl es ≡ some es'
    → length es' ≡ length es
unfolding update
update-length clock d t response ttl [] es' h = ground (arith, h)
update-length clock d t response ttl (e ∷ es) es' h =
    elim (Option-cases (update clock d t response ttl es)) [
      | inl k ↦ ground (arith, h, k)
      | inr (es'', k) ↦ ground (arith, h, k, update-length clock d t response ttl es es'' k)
    ]

unlink-length :
    (tolower : ℕ → ℕ) (d : List ℕ) (t : ℕ) (es es' : List Entry)
    → unlink tolower d t es ≡ some es'
    → length es ≡ suc (length es')
unfolding unlink
unlink-length tolower d t [] es' h = ground (arith, h)
unlink-length tolower d t (e ∷ es) es' h = elim (Option-cases (unlink tolower d t es)) [
  | inl k ↦ ground (arith, h, k)
  | inr (es'', k) ↦ ground (arith, h, k, unlink-length tolower d t es es'' k)
]

insert_new-IsCache :
    (mem : Bool) (clock : Clock) (cache : Cache) (i : ℕ) (e : Entry) (r : List Entry × ℕ)
    → IsCache cache
    → i < 256
    → Room (chain cache i) cache.entry_count r
    → IsCache ((insert_new mem clock cache i e r).1)
unfolding insert_new
insert_new-IsCache true clock cache i e (es, count) h lt (n, inl k) =
    set-IsCache cache i (e ∷ es) (increment count) h lt (omega arith) (inr (omega arith))
insert_new-IsCache true clock cache i e (es, count) h lt (n, inr k) =
    set-IsCache cache i (e ∷ es) (increment count) h lt (omega (arith, small cache h))
      (inl (omega (arith, small cache h)))
insert_new-IsCache false clock cache i e (es, count) h lt (n, inl k) =
    set-IsCache cache i es count h lt n (inr (omega arith))
insert_new-IsCache false clock cache i e (es, count) h lt (n, inr k) =
    set-IsCache cache i es count h lt n (inl (omega arith))

-- dns_cache_insert keeps the cache well formed: entry_count is the number of the entries, and at most
-- 511 more than the number of the buckets that hold any.
pub insert-IsCache :
    (mem : Bool) (clock : Clock) (cache : Cache) (d : List ℕ) (t : ℕ) (response : List ℕ) (ttl : ℕ)
    → IsCache cache
    → IsCache ((insert mem clock cache d t response ttl).1)
unfolding insert inserted
insert-IsCache mem clock cache d t response ttl h =
    let i = cache_hash clock.tolower d t in
    let ttl' = if ttl == 0 then 60 else ttl in
    let e : Entry = record {
      domain = store_domain clock.tolower d;
      qtype = t;
      response = response;
      ttl = ttl';
      insert_time = clock.now;
      hit_count = 0;
    } in
    let lt = cache_hash_lt clock.tolower d t in
    elim (Bool-cases (length response == 0 || ltb max_packet_len (length response))) [
      | inl k ↦ rw (insert, k) h
      | inr k ↦ elim (Option-cases (update clock d t response ttl' (chain cache i))) [
        | inr (es, k') ↦
            rw (insert, k, k')
              (set-IsCache cache i es cache.entry_count h lt
                (omega (arith, update-length clock d t response ttl' (chain cache i) es k'))
                (inl (
                  omega (
                    arith,
                    update-length clock d t response ttl' (chain cache i) es k',
                    occupied-length es,
                    occupied-length (chain cache i),
                  ))))
        | inl k' ↦
            rw (insert, k, k')
              (insert_new-IsCache mem clock cache i e
                (make_room clock (chain cache i) cache.entry_count) h lt
                (make_room-Room clock (chain cache i) cache.entry_count
                  (omega (arith, h.counted, length_le cache.buckets i))
                  (omega (arith, small cache h))))
      ]
    ]

-- dns_cache_remove keeps the cache well formed.
pub remove-IsCache :
    (tolower : ℕ → ℕ) (cache : Cache) (d : List ℕ) (t : ℕ)
    → IsCache cache
    → IsCache ((remove tolower cache d t).1)
unfolding remove removed
remove-IsCache tolower cache d t h =
    let i = cache_hash tolower d t in
    elim (Option-cases (unlink tolower d t (chain cache i))) [
      | inl k ↦ rw (remove, k) h
      | inr (es, k) ↦
          let n = unlink-length tolower d t (chain cache i) es k in
          rw (remove, k)
            (set-IsCache cache i es (decrement cache.entry_count) h (cache_hash_lt tolower d t)
              (omega (arith, h.counted, length_le cache.buckets i, small cache h))
              (inl (
                omega (
                  arith,
                  h.counted,
                  length_le cache.buckets i,
                  small cache h,
                  occupied-length (chain cache i),
                ))))
    ]

empty_buckets : (n : ℕ) → (total (replicate n []) ≡ 0) × (nonempty (replicate n []) ≡ 0)
unfolding total nonempty
empty_buckets zero = (refl, refl)
empty_buckets (suc n) = omega (arith, empty_buckets n)

pub init-IsCache : IsCache init
init-IsCache = record {
  all_buckets = length-replicate {A = List Entry} 256 [];
  counted = omega (arith, (empty_buckets 256).0);
  bounded = omega (arith, (empty_buckets 256).1);
}

-- dns_cache_flush returns the number of entries that there were, and leaves none.
pub flushed-total : (buckets : List (List Entry)) → flushed buckets ≡ total buckets % 2 ^ 32
unfolding flushed total
flushed-total [] = refl
flushed-total (es ∷ buckets) = omega (arith, flushed-total buckets)
