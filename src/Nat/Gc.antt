-- ===== src/Nat/Gc.antt =====
-- The scan, the allocation of a slot and the reverse lookup keep the table well formed.
use fastrg_node.Base.{
  ℕ, zero, suc, ◌≡◌, refl, sym, subst, ◌⊎◌, inl, inr, List, true, none, some, ◌+◌, ◌%◌, ◌^◌, ◌==◌,
  ◌||◌, ltb, Bool-cases,
}
use fastrg_node.Nat.{ReverseKey, ForwardKey, Env, IsEnv, State, reverse_key, expire}
use fastrg_node.Nat.Count.{count}
use fastrg_node.Nat.Slots.{
  del_keys, gc_slot, gc_slots, gc_scan, account, reclaim_reverse, reclaim_both, count_won,
}
use fastrg_node.Nat.Invariant.{seen, known, IsNat, IsSettled}
use fastrg_node.Nat.Reclaim.{keep-IsNat, reclaim_reverse-IsNat}
use fastrg_node.Nat.Keys.{del_keys-IsNat}
use fastrg_node.Nat.Trim.{
  IsTrim, IsTrim-refl, IsTrim-trans, trim-IsSettled, lists-IsTrim, reclaim_reverse-IsTrim,
  del_keys-IsTrim,
}

module _ {R F : Type 0} where
  -- What a step leaves: a well-formed table that has gained nothing.
  pub record Kept (c : Env R F) (s s' : State R F) (held : List ℕ) : Type 0 where
    pub table : IsNat c s' held
    pub trim : IsTrim c s s'

  pub Kept-refl : (c : Env R F) (s : State R F) (held : List ℕ) → IsNat c s held → Kept c s s held
  Kept-refl c s held h = record { table = h; trim = IsTrim-refl c s }

  pub Kept-trans :
      (c : Env R F) (s t u : State R F) (held held' : List ℕ)
      → Kept c s t held
      → Kept c t u held'
      → Kept c s u held'
  Kept-trans c s t u held held' p q = record {
    table = q.table;
    trim = IsTrim-trans c s t u p.trim q.trim;
  }

  -- Only the hashes' own key slots, the ring and the counters change.
  pub lists-Kept :
      (c : Env R F) (s s' : State R F) (held held' : List ℕ)
      → IsNat c s held
      → ((k : ReverseKey) → seen c s' k ≡ seen c s k)
      → ((k : ForwardKey) → known c s' k ≡ known c s k)
      → s'.addr_table ≡ s.addr_table
      → ((i : ℕ)
          → count i held' + (count i s'.free_ring + count i s'.deferred)
            ≡ count i held + (count i s.free_ring + count i s.deferred))
      → Kept c s s' held'
  lists-Kept c s s' held held' h rev fwd entries counts = record {
    table =
        keep-IsNat c s s' held held' h rev fwd ((lists-IsTrim c s s' rev fwd entries).same_keys)
          (λ i p live. subst (λ t. (t i).is_ready ≡ true) (sym entries) live) counts;
    trim = lists-IsTrim c s s' rev fwd entries;
  }

module _ {R F : Type 0} (c : Env R F) (laws : IsEnv c) (held : List ℕ) where
  pub del_keys-Kept :
      (s : State R F) (i : ℕ)
      → IsNat c s held
      → (seen c s (reverse_key (s.addr_table i)) ≡ none)
        ⊎ (seen c s (reverse_key (s.addr_table i)) ≡ some i)
      → Kept c s ((del_keys c s (s.addr_table i)).0) held
  del_keys-Kept s i h own = record {
    table = del_keys-IsNat c laws s held i h own;
    trim = del_keys-IsTrim c laws s (s.addr_table i);
  }

  pub gc_slot-Kept :
      (s : State R F) (i : ℕ) → IsNat c s held → IsSettled c s → Kept c s ((gc_slot c s i).0) held
  unfolding gc_slot del_keys
  gc_slot-Kept s i h calm =
      elim (Bool-cases
        ((expire (s.addr_table i) == 0) || ltb c.clock.cur_cycles (expire (s.addr_table i)))) [
          | inl skip ↦ rw (gc_slot, skip) (Kept-refl c s held h)
          | inr k ↦ elim (Bool-cases ((s.addr_table i).is_ready)) [
            | inr free ↦ rw (gc_slot, k, free) (Kept-refl c s held h)
            | inl live ↦ rw (gc_slot, k, live) (del_keys-Kept s i h (calm.settled i live))
          ]
        ]

  pub gc_slots-Kept :
      (start n left : ℕ) (s : State R F) (reclaimed : ℕ)
      → IsNat c s held
      → IsSettled c s
      → Kept c s ((gc_slots c start n left (s, reclaimed)).0) held
  unfolding gc_slots
  gc_slots-Kept start n zero s reclaimed h calm = Kept-refl c s held h
  gc_slots-Kept start n (suc left) s reclaimed h calm =
      let i = (start + n) % 2 ^ 32 % c.slots in
      let step = gc_slot-Kept s i h calm in
      Kept-trans c s _ _ held held step (
        gc_slots-Kept start (n + 1) left ((gc_slot c s i).0)
          (count_won reclaimed ((gc_slot c s i).1)) step.table
          (trim-IsSettled c s _ step.trim calm))

  pub account-Kept : (s : State R F) (n : ℕ) → IsNat c s held → Kept c s (account s n) held
  account-Kept s n h = elim (Bool-cases (ltb 0 n)) [
    | inr none_won ↦ rw none_won (Kept-refl c s held h)
    | inl some_won ↦
        rw some_won (lists-Kept c s _ held held h (λ k. refl) (λ k. refl) refl (λ i. refl))
  ]

  pub reclaim_both-Kept : (s : State R F) → IsNat c s held → Kept c s (reclaim_both c s) held
  unfolding reclaim_both
  reclaim_both-Kept s h =
      let first : Kept c s (reclaim_reverse c s) held = record {
        table = reclaim_reverse-IsNat c s held laws h;
        trim = reclaim_reverse-IsTrim c s laws;
      } in
      Kept-trans c s (reclaim_reverse c s) _ held held first (
        lists-Kept c (reclaim_reverse c s) _ held held first.table (λ k. refl)
          (laws.forward_laws.lookup-reclaim ((reclaim_reverse c s).forward)) refl (λ i. refl))

  pub gc_scan-Kept :
      (s : State R F) (max_slots : ℕ)
      → IsNat c s held
      → IsSettled c s
      → Kept c s ((gc_scan c s max_slots).0) held
  unfolding gc_scan
  gc_scan-Kept s max_slots h calm =
      let t = record s { gc_counter = (s.gc_counter + max_slots) % 2 ^ 32 } in
      let p = lists-Kept c s t held held h (λ k. refl) (λ k. refl) refl (λ i. refl) in
      let q =
        gc_slots-Kept s.gc_counter 0 max_slots t 0 p.table (trim-IsSettled c s t p.trim calm) in
      let r = account-Kept _ ((gc_slots c s.gc_counter 0 max_slots (t, 0)).1) q.table in
      Kept-trans c s t _ held held p (
        Kept-trans c t _ _ held held q
          (Kept-trans c _ _ _ held held r (reclaim_both-Kept _ r.table)))
