-- ===== src/Dns/Cache/Room.antt =====
-- The room that dns_cache_insert of src/dnsd/dns_cache.c makes in a chain.
use fastrg_node.Base.{
  ℕ, zero, suc, ◌+◌, ◌^◌, ◌≤◌, ◌<◌, ◌≡◌, refl, List, [], ◌∷◌, ◌++◌, true, false, leb, if◌then◌else◌,
  Option, none, some, length, arith, length-append, Bool-cases, inl, inr, ◌⊎◌, ap,
}
use fastrg_node.Dns.Cache.{
  Entry, Clock, decrement, older, sweep, remove_at, evict_oldest, make_room, is_expired,
  max_entries,
}
use fastrg_node.Dns.Cache.Count.{occupied, occupied-length}

-- The oldest entry stands among those kept.
abbrev Oldest : List Entry → Option (ℕ × ℕ) → Type 0
Oldest kept none = length kept ≡ 0
Oldest kept (some (i, t)) = i < length kept

older-Oldest :
    (kept : List Entry) (e : Entry) (o : Option (ℕ × ℕ))
    → Oldest kept o
    → Oldest (kept ++ (e ∷ [])) (older (length kept) e.insert_time o)
older-Oldest kept e none h = omega (arith, length-append {0} kept (e ∷ []))
older-Oldest kept e (some (i, t)) h = ground (arith, h, length-append {0} kept (e ∷ []))

-- What a sweep keeps, and its count.
abbrev Swept : ℕ → ℕ → List Entry × ℕ × Option (ℕ × ℕ) → Type 0
Swept n count (kept, count', oldest) =
    (count' + n ≡ count + length kept) × (length kept ≤ n) × Oldest kept oldest

Swept-more :
    (n n' count count' : ℕ) (s : List Entry × ℕ × Option (ℕ × ℕ))
    → Swept n count s
    → n + count' ≡ n' + count
    → n ≤ n'
    → Swept n' count' s
Swept-more n n' count count' (kept, c, oldest) h e le = (omega arith, omega arith, h.2)

sweep-Swept :
    (clock : Clock) (es kept : List Entry) (count : ℕ) (oldest : Option (ℕ × ℕ))
    → length es ≤ count
    → count < 2 ^ 32
    → Oldest kept oldest
    → Swept (length kept + length es) count (sweep clock es kept count oldest)
unfolding sweep
sweep-Swept clock [] kept count oldest n lt h = (omega arith, omega arith, h)
sweep-Swept clock (e ∷ es) kept count oldest n lt h =
    elim (is_expired clock e)
      as (λ gone. Swept (length kept + suc (length es)) count (
        sweep clock es (if gone then kept else kept ++ (e ∷ []))
          (if gone then decrement count else count)
          (if gone then oldest else older (length kept) e.insert_time oldest))) [
            | true ↦
                Swept-more (length kept + length es) _ (decrement count) count
                  (sweep clock es kept (decrement count) oldest)
                  (sweep-Swept clock es kept (decrement count) oldest (omega arith) (omega arith) h)
                  (omega arith) (omega arith)
            | false ↦
                let o = older (length kept) e.insert_time oldest in
                let grown = length-append kept (e ∷ []) in
                Swept-more (length (kept ++ (e ∷ [])) + length es) _ count count
                  (sweep clock es (kept ++ (e ∷ [])) count o)
                  (sweep-Swept clock es (kept ++ (e ∷ [])) count o (omega arith) lt
                    (older-Oldest kept e oldest h))
                  (omega arith) (omega arith)
          ]

length-remove_at :
    (i : ℕ) (es : List Entry) → i < length es → length es ≡ suc (length (remove_at i es))
length-remove_at i [] h = absurd (omega arith)
length-remove_at zero (e ∷ es) h = refl
length-remove_at (suc i) (e ∷ es) h = ap suc (length-remove_at i es (omega arith))

-- The chain and the count with which an entry may be put before it.
abbrev pub Room : List Entry → ℕ → List Entry × ℕ → Type 0
Room es count (es', count') =
    (count' + length es ≡ count + length es') × ((count' ≤ 511) ⊎ (count' + occupied es ≤ count))

evict_oldest-Room :
    (es : List Entry) (count : ℕ) (s : List Entry × ℕ × Option (ℕ × ℕ))
    → length es ≤ count
    → count < 2 ^ 32
    → Swept (length es) count s
    → Room es count (evict_oldest s)
unfolding evict_oldest
evict_oldest-Room es count (kept, count', none) n lt h =
    (omega arith, inr (omega (arith, occupied-length es)))
evict_oldest-Room es count (kept, count', some (i, t)) n lt h =
    elim (Bool-cases (leb max_entries count')) [
      | inl k ↦ rw k (
        omega (arith, length-remove_at i kept h.2),
        inr (omega (arith, length-remove_at i kept h.2, occupied-length es)),
      )
      | inr k ↦ rw k (omega arith, inl (ground (arith, k)))
    ]

pub make_room-Room :
    (clock : Clock) (es : List Entry) (count : ℕ)
    → length es ≤ count
    → count < 2 ^ 32
    → Room es count (make_room clock es count)
unfolding make_room
make_room-Room clock es count n lt = elim (Bool-cases (leb max_entries count)) [
  | inl k ↦
      rw (make_room, k)
        (evict_oldest-Room es count (sweep clock es [] count none) n lt (
          Swept-more (0 + length es) (length es) count count (sweep clock es [] count none)
            (sweep-Swept clock es [] count none n lt refl) (omega arith) (omega arith)))
  | inr k ↦ rw (make_room, k) (omega arith, inl (ground (arith, k)))
]
