-- ===== src/Nat/Init.antt =====
-- The initial table: the last part of nat_table_init, once DPDK has made the hashes and the ring.
use fastrg_node.Base.{
  ℕ, zero, suc, ◌≡◌, refl, ap, ◌∙◌, inl, List, [], ◌∷◌, ◌++◌, none, ◌+◌, ◌==◌, ltb, lt→ltb, arith,
  length, length-append,
}
use fastrg_node.Nat.{ReverseKey, ForwardKey, Env, State, put}
use fastrg_node.Nat.Count.{one, count, count-append, count_single, count_nil}
use fastrg_node.Nat.Slots.{enqueue, freed}
use fastrg_node.Nat.Invariant.{seen, known, IsNat, IsSettled, published-none}

-- nat_table_enqueue_all_entries_to_ring, from `i` with `n` indices left.
unfoldable pub enqueue_all : ℕ → List ℕ → ℕ → ℕ → List ℕ
enqueue_all slots ring i zero = ring
enqueue_all slots ring i (suc n) = enqueue_all slots (enqueue slots ring i) (i + 1) n

module _ {R F : Type 0} where
  -- nat_table_init_entries, from `i` with `n` slots left.
  unfoldable pub init_entries : State R F → ℕ → ℕ → State R F
  init_entries s i zero = s
  init_entries s i (suc n) =
      init_entries (record s { addr_table = put i (freed (s.addr_table i)) s.addr_table }) (i + 1) n

  -- The end of nat_table_init: the entries, the ring and the counters.
  unfoldable pub table_init : Env R F → State R F → State R F
  table_init c s = record (init_entries s 0 c.slots) {
    free_ring = enqueue_all c.slots s.free_ring 0 c.slots;
    gc_counter = 0;
    enospc = 0;
    gc_reclaimed = 0;
  }

count_split : (j i : ℕ) → one (ltb j (i + 1)) ≡ one (ltb j i) + one (i == j)
count_split j i = ground arith

nothing : (j : ℕ) → count j [] ≡ one (ltb j 0)
unfolding count
nothing j = ground arith

-- The indices from 0 up to the number of slots come into the ring one by one.
enqueue_all-count :
    (slots : ℕ) (ring : List ℕ) (i n : ℕ)
    → length ring ≡ i
    → i + n ≡ slots
    → ((j : ℕ) → count j ring ≡ one (ltb j i))
    → (j : ℕ) → count j (enqueue_all slots ring i n) ≡ one (ltb j slots)
unfolding enqueue_all enqueue
enqueue_all-count slots ring i zero len sum h j = h j ∙ ap (λ n. one (ltb j n)) (omega arith)
enqueue_all-count slots ring i (suc n) len sum h j' =
    rw (lt→ltb (length ring) slots (omega arith)) (
      enqueue_all-count slots (ring ++ i ∷ []) (i + 1) n
        (omega (arith, length-append {0} ring (i ∷ []))) (omega arith)
        (λ j. omega (arith, h j, count-append j ring (i ∷ []), count_single i j, count_split j i))
        j')

module _ {R F : Type 0} where
  init_entries-lists :
      (s : State R F) (i n : ℕ)
      → ((init_entries s i n).reverse ≡ s.reverse)
        × ((init_entries s i n).forward ≡ s.forward)
        × ((init_entries s i n).deferred ≡ s.deferred)
  unfolding init_entries
  init_entries-lists s i zero = (refl, refl, refl)
  init_entries-lists s i (suc n) =
      init_entries-lists (record s { addr_table = put i (freed (s.addr_table i)) s.addr_table })
        (i + 1) n

  -- With empty hashes, an empty ring and nothing deferred, the table is well formed and settled.
  pub table_init-IsNat :
      (c : Env R F) (s : State R F)
      → ((k : ReverseKey) → seen c s k ≡ none)
      → ((k : ForwardKey) → known c s k ≡ none)
      → s.free_ring ≡ []
      → s.deferred ≡ []
      → IsNat c (table_init c s) [] × IsSettled c (table_init c s)
  unfolding table_init
  table_init-IsNat c s rev fwd ring queue =
      let kept = init_entries-lists s 0 c.slots in
      let rev' : (k : ReverseKey) → seen c (table_init c s) k ≡ none =
        λ k. ap (λ r. c.reverse_hash.lookup r k) kept.0 ∙ rev k in
      let fwd' : (k : ForwardKey) → known c (table_init c s) k ≡ none =
        λ k. ap (λ r. c.forward_hash.lookup r k) kept.1 ∙ fwd k in
      (
        record {
          owned = λ j.
              let full =
                enqueue_all-count c.slots s.free_ring 0 c.slots (ap length ring) (omega arith)
                  (λ j. ap (count j) ring ∙ nothing j) j in
              omega (
                arith,
                full,
                published-none c (table_init c s) j (rev' _),
                ap (count j) (kept.2 ∙ queue),
                count_nil j,
              );
          reverse_ok = λ k i e. absurd (ground (arith, rev' k, e));
          forward_ok = λ k i e. absurd (ground (arith, fwd' k, e));
        },
        record { settled = λ i live. inl (rev' _) },
      )
