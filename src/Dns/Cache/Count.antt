-- ===== src/Dns/Cache/Count.antt =====
-- The number of entries of the cache of src/dnsd/dns_cache.c, and a change of one chain.
use fastrg_node.Base.{
  ℕ, zero, suc, ◌+◌, ◌-◌, ◌≤◌, ◌<◌, ◌≡◌, refl, List, [], ◌∷◌, length, get_or, set, arith,
  length-set, inl, inr, ◌⊎◌,
}
use fastrg_node.Dns.Cache.{Entry, Cache, chain}

-- The entries in the buckets, and the buckets that hold any.
unfoldable pub total : List (List Entry) → ℕ
total [] = 0
total (es ∷ buckets) = length es + total buckets

abbrev pub occupied : List Entry → ℕ
occupied [] = 0
occupied (e ∷ es) = 1

unfoldable pub nonempty : List (List Entry) → ℕ
nonempty [] = 0
nonempty (es ∷ buckets) = occupied es + nonempty buckets

total-set :
    (buckets : List (List Entry)) (i : ℕ) (es : List Entry)
    → i < length buckets
    → (total (set buckets i es) + length (get_or buckets i []) ≡ total buckets + length es)
      × (nonempty (set buckets i es) + occupied (get_or buckets i [])
          ≡ nonempty buckets + occupied es)
unfolding total nonempty
total-set [] i es h = absurd (omega arith)
total-set (b ∷ buckets) zero es h = (omega arith, omega arith)
total-set (b ∷ buckets) (suc i) es h = omega (arith, total-set buckets i es)

nonempty_le : (buckets : List (List Entry)) → nonempty buckets ≤ length buckets
unfolding nonempty
nonempty_le [] = omega arith
nonempty_le ([] ∷ buckets) = omega (arith, nonempty_le buckets)
nonempty_le ((e ∷ es) ∷ buckets) = omega (arith, nonempty_le buckets)

occupied_le :
    (buckets : List (List Entry)) (i : ℕ) → occupied (get_or buckets i []) ≤ nonempty buckets
unfolding nonempty
occupied_le [] i = omega arith
occupied_le (b ∷ buckets) zero = omega arith
occupied_le (b ∷ buckets) (suc i) = omega (arith, occupied_le buckets i)

pub length_le : (buckets : List (List Entry)) (i : ℕ) → length (get_or buckets i []) ≤ total buckets
unfolding total
length_le [] i = omega arith
length_le (b ∷ buckets) zero = omega arith
length_le (b ∷ buckets) (suc i) = omega (arith, length_le buckets i)

-- What holds of the cache between calls.
pub record IsCache (cache : Cache) : Type 0 where
  pub all_buckets : length cache.buckets ≡ 256
  pub counted : cache.entry_count ≡ total cache.buckets
  pub bounded : cache.entry_count ≤ 511 + nonempty cache.buckets

-- A call changes one chain and the count.
pub set-IsCache :
    (cache : Cache) (i : ℕ) (es : List Entry) (count : ℕ)
    → IsCache cache
    → i < 256
    → count + length (chain cache i) ≡ cache.entry_count + length es
    → (count + occupied (chain cache i) ≤ cache.entry_count + occupied es)
      ⊎ (count ≤ 511 + occupied es)
    → IsCache (record { buckets = set cache.buckets i es; entry_count = count })
set-IsCache cache i es count h lt n bound = record {
  all_buckets = omega (arith, length-set cache.buckets i es, h.all_buckets);
  counted = omega (arith, total-set cache.buckets i es, h.counted, h.all_buckets);
  bounded = elim bound [
    | inl k ↦ omega (arith, k, total-set cache.buckets i es, h.bounded, h.all_buckets)
    | inr k ↦
        omega (arith, k, total-set cache.buckets i es, h.all_buckets, occupied_le cache.buckets i)
  ];
}

pub small : (cache : Cache) → IsCache cache → cache.entry_count ≤ 767
small cache h = omega (arith, h.bounded, h.all_buckets, nonempty_le cache.buckets)

pub occupied-length : (es : List Entry) → occupied es ≡ 1 - (1 - length es)
occupied-length [] = refl
occupied-length (e ∷ es) = omega arith
