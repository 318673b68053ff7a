-- ===== src/Nat/Live.antt =====
-- The scan takes no live mapping, and the deletion of all entries takes every one.
use fastrg_node.Base.{
  ℕ, zero, suc, ◌≡◌, ◌≢◌, ◌<◌, refl, sym, ap, ◌∙◌, inl, inr, List, [], ◌∷◌, none, some, ◌+◌, ◌%◌,
  ◌^◌, ◌==◌, ◌||◌, ltb, arith, Bool-cases, ◌⊎◌, ne→==, take, drop, ◌++◌,
}
use fastrg_node.Nat.{
  ReverseKey, Site, at_delete, at_reclaim, Env, IsEnv, State, expire, reverse_key, forward_key,
}
use fastrg_node.Nat.Count.{count, one, count-take-drop, count_single, count-append}
use fastrg_node.Nat.Slots.{
  free_cb, free_all, call_back, reclaim_reverse, del_reverse, del_keys, gc_slot, gc_slots, account,
  count_won, reclaim_both, gc_scan,
}
use fastrg_node.Nat.Invariant.{seen, IsNat, IsSettled, seen-nowhere}
use fastrg_node.Nat.Keys.{same_slot as same_index}
use fastrg_node.Nat.Trim.{trim-IsSettled}
use fastrg_node.Nat.Gc.{lists-Kept, gc_slot-Kept, gc_slots-Kept, account-Kept}
use fastrg_node.Nat.Publish.{free_all-apart}

module _ {R F : Type 0} where
  -- The slot keeps its entry and the key that leads to it.
  pub record Stays (c : Env R F) (s t : State R F) (k : ReverseKey) (i : ℕ) : Type 0 where
    pub same_entry : t.addr_table i ≡ s.addr_table i
    pub same_slot : seen c t k ≡ seen c s k

  Stays-refl : (c : Env R F) (s : State R F) (k : ReverseKey) (i : ℕ) → Stays c s s k i
  Stays-refl c s k i = record { same_entry = refl; same_slot = refl }

  Stays-trans :
      (c : Env R F) (s t u : State R F) (k : ReverseKey) (i : ℕ)
      → Stays c s t k i
      → Stays c t u k i
      → Stays c s u k i
  Stays-trans c s t u k i p q = record {
    same_entry = q.same_entry ∙ p.same_entry;
    same_slot = q.same_slot ∙ p.same_slot;
  }

  free_all-reverse :
      (c : Env R F) (s : State R F) (is : List ℕ) → (free_all c s is).reverse ≡ s.reverse
  unfolding free_all free_cb
  free_all-reverse c s [] = refl
  free_all-reverse c s (i ∷ is) = free_all-reverse c (free_cb c s i) is

  call_back-Stays :
      (c : Env R F) (site : Site) (s : State R F) (k : ReverseKey) (i : ℕ)
      → count i s.deferred ≡ 0
      → Stays c s (call_back c site s) k i
  unfolding call_back
  call_back-Stays c site s k i h =
      let n = c.quiescent site s.deferred in
      let t = record s { deferred = drop n s.deferred } in
      record {
        same_entry =
            free_all-apart c t (take n s.deferred) i
              (omega (arith, count-take-drop i n s.deferred, h));
        same_slot = ap (λ r. c.reverse_hash.lookup r k) (free_all-reverse c t (take n s.deferred));
      }

module _ {R F : Type 0} (c : Env R F) (laws : IsEnv c) (k : ReverseKey) (i : ℕ) where
  -- Another slot's keys are deleted.
  del_keys-Stays :
      (s : State R F) (j : ℕ)
      → IsNat c s []
      → seen c s k ≡ some i
      → (seen c s (reverse_key (s.addr_table j)) ≡ none)
        ⊎ (seen c s (reverse_key (s.addr_table j)) ≡ some j)
      → j ≢ i
      → Stays c s ((del_keys c s (s.addr_table j)).0) k i
  unfolding del_keys del_reverse
  del_keys-Stays s j h e (inl away) ne =
      rw (del_keys, del_reverse, away) (record { same_entry = refl; same_slot = refl })
  del_keys-Stays s j h e (inr own) ne =
      let key = reverse_key (s.addr_table j) in
      let other : key ≢ k = λ same. ne (same_index (sym own ∙ ap (seen c s) same ∙ e)) in
      let t = record s {
        forward = c.forward_hash.del s.forward (forward_key (s.addr_table j));
        reverse = c.reverse_hash.del s.reverse key;
        deferred = s.deferred ++ j ∷ [];
      } in
      let nowhere = seen-nowhere c s [] h k i e in
      rw (del_keys, del_reverse, own)
        (Stays-trans c s t _ k i
          (record {
            same_entry = refl;
            same_slot = laws.reverse_laws.lookup-del_ne s.reverse key k other;
          })
          (call_back-Stays c at_delete t k i (
            omega (
              arith,
              nowhere,
              count-append i s.deferred (j ∷ []),
              count_single j i,
              ap one (ne→== j i ne),
            ))))

  gc_slot-Stays :
      (s : State R F) (j : ℕ)
      → IsNat c s []
      → IsSettled c s
      → seen c s k ≡ some i
      → c.clock.cur_cycles < expire (s.addr_table i)
      → Stays c s ((gc_slot c s j).0) k i
  unfolding gc_slot del_keys
  gc_slot-Stays s j h calm e live =
      elim (Bool-cases
        ((expire (s.addr_table j) == 0) || ltb c.clock.cur_cycles (expire (s.addr_table j)))) [
          | inl skip ↦ rw (gc_slot, skip) (Stays-refl c s k i)
          | inr old ↦ elim (Bool-cases ((s.addr_table j).is_ready)) [
            | inr free ↦ rw (gc_slot, old, free) (Stays-refl c s k i)
            | inl ready ↦
                rw (gc_slot, old, ready)
                  (del_keys-Stays s j h e (calm.settled j ready)
                    (λ n. ground (arith, old, live, ap (λ m. expire (s.addr_table m)) n)))
          ]
        ]

  gc_slots-Stays :
      (start n left : ℕ) (s : State R F) (reclaimed : ℕ)
      → IsNat c s []
      → IsSettled c s
      → seen c s k ≡ some i
      → c.clock.cur_cycles < expire (s.addr_table i)
      → Stays c s ((gc_slots c start n left (s, reclaimed)).0) k i
  unfolding gc_slots
  gc_slots-Stays start n zero s reclaimed h calm e live = Stays-refl c s k i
  gc_slots-Stays start n (suc left) s reclaimed h calm e live =
      let j = (start + n) % 2 ^ 32 % c.slots in
      let step = gc_slot-Stays s j h calm e live in
      let kept = gc_slot-Kept c laws [] s j h calm in
      Stays-trans c s ((gc_slot c s j).0) _ k i step (
        gc_slots-Stays start (n + 1) left ((gc_slot c s j).0)
          (count_won reclaimed ((gc_slot c s j).1)) kept.table (trim-IsSettled c s _ kept.trim calm)
          (step.same_slot ∙ e) (omega (arith, live, ap expire step.same_entry)))

  account-Stays : (s : State R F) (n : ℕ) → Stays c s (account s n) k i
  account-Stays s n = elim (Bool-cases (ltb 0 n)) [
    | inr none_won ↦ rw none_won (Stays-refl c s k i)
    | inl some_won ↦ rw some_won (record { same_entry = refl; same_slot = refl })
  ]

  reclaim_both-Stays :
      (s : State R F) → IsNat c s [] → seen c s k ≡ some i → Stays c s (reclaim_both c s) k i
  unfolding reclaim_both reclaim_reverse
  reclaim_both-Stays s h e =
      let t = record s { reverse = c.reverse_hash.reclaim s.reverse } in
      let back = call_back-Stays c at_reclaim t k i (omega (arith, seen-nowhere c s [] h k i e)) in
      record {
        same_entry = back.same_entry;
        same_slot = back.same_slot ∙ laws.reverse_laws.lookup-reclaim s.reverse k;
      }

  -- A scan of a well-formed and settled table leaves every mapping whose deadline lies ahead, with
  -- its entry.
  pub gc_scan-Stays :
      (s : State R F) (max_slots : ℕ)
      → IsNat c s []
      → IsSettled c s
      → seen c s k ≡ some i
      → c.clock.cur_cycles < expire (s.addr_table i)
      → Stays c s ((gc_scan c s max_slots).0) k i
  unfolding gc_scan
  gc_scan-Stays s max_slots h calm e live =
      let t = record s { gc_counter = (s.gc_counter + max_slots) % 2 ^ 32 } in
      let p = lists-Kept c s t [] [] h (λ k. refl) (λ k. refl) refl (λ i. refl) in
      let calm_t = trim-IsSettled c s t p.trim calm in
      let r = gc_slots c s.gc_counter 0 max_slots (t, 0) in
      let q = gc_slots-Kept c laws [] s.gc_counter 0 max_slots t 0 p.table calm_t in
      let walked = gc_slots-Stays s.gc_counter 0 max_slots t 0 p.table calm_t e live in
      let u = account r.0 r.1 in
      let last = account-Stays r.0 r.1 in
      Stays-trans c s t _ k i (record { same_entry = refl; same_slot = refl })
        (Stays-trans c t r.0 _ k i walked (
          Stays-trans c r.0 u _ k i last (
            reclaim_both-Stays u ((account-Kept c laws [] r.0 r.1 q.table).table)
              (last.same_slot ∙ walked.same_slot ∙ e))))
