-- ===== src/Nat/Slots.antt =====
-- Reclaim and garbage collection of src/pppd/nat.h: the callback of the defer queue, the deletion of
-- the two keys of an entry, the scan and the allocation of a slot.
use fastrg_node.Base.{
  ℕ, zero, suc, List, [], ◌∷◌, ◌++◌, Bool, true, false, Option, none, some, ◌+◌, ◌%◌, ◌^◌, ◌==◌,
  ltb, ◌||◌, not, if◌then◌else◌, length, take, drop,
}
use fastrg_node.Nat.{
  ReverseKey, Entry, Site, at_delete, at_reclaim, Env, State, put, expire, reverse_key, forward_key,
}

-- A ring holds as many indices as there are slots; nobody looks at a failed rte_ring_enqueue.
unfoldable pub enqueue : ℕ → List ℕ → ℕ → List ℕ
enqueue slots ring i = if ltb (length ring) slots then ring ++ i ∷ [] else ring

abbrev pub freed : Entry → Entry
freed e = record e { is_ready = false; track = record (e.track) { expire = 0 } }

abbrev pub count_won : ℕ → Bool → ℕ
count_won n won = if won then (n + 1) % 2 ^ 32 else n

module _ {R F : Type 0} where
  -- nat_reverse_hash_free_cb
  unfoldable pub free_cb : Env R F → State R F → ℕ → State R F
  free_cb c s i = record s {
    addr_table = put i (freed (s.addr_table i)) s.addr_table;
    free_ring = enqueue c.slots s.free_ring i;
  }

  unfoldable pub free_all : Env R F → State R F → List ℕ → State R F
  free_all c s [] = s
  free_all c s (i ∷ is) = free_all c (free_cb c s i) is

  -- The first indices of the defer queue go to the callback.
  unfoldable pub call_back : Env R F → Site → State R F → State R F
  call_back c site s =
      let n = c.quiescent site s.deferred in
      free_all c (record s { deferred = drop n s.deferred }) (take n s.deferred)

  -- rte_hash_rcu_qsbr_dq_reclaim on the reverse hash.
  unfoldable pub reclaim_reverse : Env R F → State R F → State R F
  reclaim_reverse c s =
      call_back c at_reclaim (record s { reverse = c.reverse_hash.reclaim s.reverse })

  -- rte_hash_del_key on the reverse hash: the index goes to the defer queue.
  unfoldable pub del_reverse : Env R F → State R F → ReverseKey → State R F × Bool
  del_reverse c s key = elim (c.reverse_hash.lookup s.reverse key) [
    | none ↦ (s, false)
    | some i ↦ (
      call_back c at_delete (record s {
        reverse = c.reverse_hash.del s.reverse key;
        deferred = s.deferred ++ i ∷ [];
      }),
      true,
    )
  ]

  -- nat_entry_del_keys
  unfoldable pub del_keys : Env R F → State R F → Entry → State R F × Bool
  del_keys c s e =
      del_reverse c (record s { forward = c.forward_hash.del s.forward (forward_key e) })
        (reverse_key e)

  -- One slot of nat_table_del_all_entries_from_hash.
  unfoldable pub del_slot : Env R F → State R F → ℕ → State R F
  del_slot c s i =
      if expire (s.addr_table i) == 0
      then s
      else if (s.addr_table i).is_ready
      then (del_keys c s (s.addr_table i)).0
      else s

  unfoldable pub del_slots : Env R F → State R F → ℕ → ℕ → State R F
  del_slots c s i zero = s
  del_slots c s i (suc n) = del_slots c (del_slot c s i) (i + 1) n

  -- nat_table_del_all_entries_from_hash
  unfoldable pub del_all_entries : Env R F → State R F → State R F
  del_all_entries c s = record (del_slots c s 0 c.slots) {
    gc_counter = 0;
    enospc = 0;
    gc_reclaimed = 0;
  }

  -- One slot of the scan.
  unfoldable pub gc_slot : Env R F → State R F → ℕ → State R F × Bool
  gc_slot c s i =
      if (expire (s.addr_table i) == 0) || ltb c.clock.cur_cycles (expire (s.addr_table i))
      then (s, false)
      else if not (s.addr_table i).is_ready
      then (s, false)
      else del_keys c s (s.addr_table i)

  -- The loop from position `start + n`, with the slots that are left and the entries reclaimed.
  unfoldable pub gc_slots : Env R F → ℕ → ℕ → ℕ → State R F × ℕ → State R F × ℕ
  gc_slots c start n zero r = r
  gc_slots c start n (suc left) (s, reclaimed) =
      let (s', won) = gc_slot c s ((start + n) % 2 ^ 32 % c.slots) in
      gc_slots c start (n + 1) left (s', count_won reclaimed won)

  abbrev pub account : State R F → ℕ → State R F
  account s reclaimed =
      if ltb 0 reclaimed
      then record s { gc_reclaimed = (s.gc_reclaimed + reclaimed) % 2 ^ 64 }
      else s

  -- Both calls of rte_hash_rcu_qsbr_dq_reclaim; the forward hash has no callback.
  unfoldable pub reclaim_both : Env R F → State R F → State R F
  reclaim_both c s =
      let s' = reclaim_reverse c s in record s' { forward = c.forward_hash.reclaim s'.forward }

  -- nat_gc_scan_by_ccb
  unfoldable pub gc_scan : Env R F → State R F → ℕ → State R F × ℕ
  gc_scan c s max_slots =
      let (s', reclaimed) =
        gc_slots c s.gc_counter 0 max_slots
          (record s { gc_counter = (s.gc_counter + max_slots) % 2 ^ 32 }, 0) in
      (reclaim_both c (account s' reclaimed), reclaimed)

  -- rte_ring_dequeue
  unfoldable pub dequeue : State R F → List ℕ → State R F × Option ℕ
  dequeue s [] = (s, none)
  dequeue s (i ∷ ring) = (record s { free_ring = ring }, some i)

  -- nat_slot_alloc with what the ring holds; NAT_GC_SCAN_CHUNK is 512.
  unfoldable pub slot_alloc_from : Env R F → State R F → List ℕ → State R F × Option ℕ
  slot_alloc_from c s (i ∷ ring) = dequeue s (i ∷ ring)
  slot_alloc_from c s [] =
      let s' = reclaim_reverse c ((gc_scan c s 512).0) in dequeue s' s'.free_ring

  -- nat_slot_alloc
  unfoldable pub slot_alloc : Env R F → State R F → State R F × Option ℕ
  slot_alloc c s = slot_alloc_from c s s.free_ring
