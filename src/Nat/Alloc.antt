-- ===== src/Nat/Alloc.antt =====
-- The allocation of a slot, nat_reverse_lookup and nat_table_del_all_entries_from_hash.
use fastrg_node.Base.{
  ℕ, ◌≡◌, ◌<◌, ◌≢◌, drop, ltb→lt, refl, ap, ◌∙◌, inl, inr, List, [], ◌∷◌, Option, none, some, arith,
  Bool-cases, Option-cases,
}
use fastrg_node.Nat.{
  Site, at_delete, forward_key, ReverseKey, Entry, Env, IsEnv, State, reverse_key, refresh,
  is_expired,
}
use fastrg_node.Nat.Count.{count, one-true, count_self, count_nil}
use fastrg_node.Nat.Slots.{
  enqueue, free_cb, free_all, call_back, del_reverse, del_keys, gc_scan, reclaim_reverse, dequeue,
  slot_alloc_from, slot_alloc,
}
use fastrg_node.Nat.Learning.{reverse_lookup}
use fastrg_node.Nat.Invariant.{seen, IsNat, IsSettled}
use fastrg_node.Nat.Reclaim.{keep-IsNat, reclaim_reverse-IsNat, count_cons}
use fastrg_node.Nat.Trim.{
  put_live, trim-IsSettled, del_keys-IsTrim, refresh-IsTrim, reclaim_reverse-IsTrim,
}
use fastrg_node.Nat.Gc.{Kept, Kept-refl, Kept-trans, lists-Kept, del_keys-Kept, gc_scan-Kept}

module _ {R F : Type 0} where
  -- What an allocation leaves: the slot, if there is one, is held by the caller.
  abbrev pub Alloc : Env R F → State R F → State R F × Option ℕ → Type 0
  Alloc c s (t, none) = Kept c s t []
  Alloc c s (t, some i) = Kept c s t (i ∷ [])

  dequeue-Alloc :
      (c : Env R F) (s t : State R F) (ring : List ℕ)
      → t.free_ring ≡ ring
      → Kept c s t []
      → Alloc c s (dequeue t ring)
  unfolding dequeue
  dequeue-Alloc c s t [] e h = h
  dequeue-Alloc c s t (i ∷ ring) e h = Kept-trans c s t _ [] (i ∷ []) h (
      lists-Kept c t _ [] (i ∷ []) h.table (λ k. refl) (λ k. refl) refl
        (λ j. omega (arith, count_cons i j ring, ap (count j) e, count_nil j)))

  pub refresh-Kept :
      (c : Env R F) (s : State R F) (i : ℕ) (held : List ℕ)
      → IsNat c s held
      → Kept c s (refresh c s i) held
  unfolding refresh
  refresh-Kept c s i held h =
      let t = refresh-IsTrim c s i in
      record {
        table =
            keep-IsNat c s _ held held h (λ k. refl) (λ k. refl) t.same_keys
              (λ j p. put_live i _ s.addr_table (λ live. live) j) (λ j. refl);
        trim = t;
      }

enqueue_empty : (slots : ℕ) (ring : List ℕ) (i : ℕ) → enqueue slots ring i ≡ [] → ring ≡ []
unfolding enqueue
enqueue_empty slots [] i e = refl
enqueue_empty slots (x ∷ ring) i e = ground (arith, e)

enqueue_room :
    (slots : ℕ) (ring : List ℕ) (i : ℕ) → ring ≡ [] → 0 < slots → enqueue slots ring i ≢ []
unfolding enqueue
enqueue_room slots [] i h n e = ground (arith, e, n)
enqueue_room slots (x ∷ ring) i h n e = ground (arith, h)

module _ {R F : Type 0} where
  -- Only a call that finds the ring empty scans the table.
  abbrev pub Calm : Env R F → State R F → Type 0
  Calm c s = s.free_ring ≡ [] → IsSettled c s

  free_all-ring :
      (c : Env R F) (s : State R F) (is : List ℕ)
      → (free_all c s is).free_ring ≡ []
      → s.free_ring ≡ []
  unfolding free_all free_cb
  free_all-ring c s [] e = e
  free_all-ring c s (i ∷ is) e =
      enqueue_empty c.slots s.free_ring i (free_all-ring c (free_cb c s i) is e)

  call_back-ring :
      (c : Env R F) (site : Site) (s : State R F)
      → (call_back c site s).free_ring ≡ []
      → s.free_ring ≡ []
  unfolding call_back
  call_back-ring c site s e =
      free_all-ring c (record s { deferred = drop (c.quiescent site s.deferred) s.deferred }) _ e

  del_reverse-ring :
      (c : Env R F) (s : State R F) (key : ReverseKey)
      → ((del_reverse c s key).0).free_ring ≡ []
      → s.free_ring ≡ []
  unfolding del_reverse
  del_reverse-ring c s key = elim (Option-cases (seen c s key)) [
    | inl e ↦ rw (del_reverse, e) (λ h. h)
    | inr (i, e) ↦ rw (del_reverse, e) (call_back-ring c at_delete _)
  ]

  -- A deletion takes nothing from the ring.
  pub del_keys-ring :
      (c : Env R F) (s : State R F) (e : Entry)
      → ((del_keys c s e).0).free_ring ≡ []
      → s.free_ring ≡ []
  unfolding del_keys
  del_keys-ring c s e empty =
      del_reverse-ring c (record s { forward = c.forward_hash.del s.forward (forward_key e) })
        (reverse_key e) empty

  pub del_keys-Calm :
      (c : Env R F) (laws : IsEnv c) (s : State R F) (e : Entry)
      → Calm c s
      → Calm c ((del_keys c s e).0)
  del_keys-Calm c laws s e calm empty =
      trim-IsSettled c s _ (del_keys-IsTrim c laws s e) (calm (del_keys-ring c s e empty))

  -- A ring that has just got a slot back is not empty.
  pub enqueue-nonempty :
      (c : Env R F) (s : State R F) (i : ℕ)
      → IsNat c s (i ∷ [])
      → enqueue c.slots s.free_ring i ≢ []
  unfolding enqueue
  enqueue-nonempty c s i h e =
      let none_in : s.free_ring ≡ [] = enqueue_empty c.slots s.free_ring i e in
      let small : i < c.slots =
        ltb→lt i c.slots (one-true (omega (arith, h.owned i, count_self i []))) in
      enqueue_room c.slots s.free_ring i none_in (omega arith) e

module _ {R F : Type 0} (c : Env R F) (laws : IsEnv c) where
  slot_alloc_from-Alloc :
      (s : State R F) (ring : List ℕ)
      → s.free_ring ≡ ring
      → IsNat c s []
      → (ring ≡ [] → IsSettled c s)
      → Alloc c s (slot_alloc_from c s ring)
  unfolding slot_alloc_from
  slot_alloc_from-Alloc s (i ∷ ring) e h calm =
      dequeue-Alloc c s s (i ∷ ring) e (Kept-refl c s [] h)
  slot_alloc_from-Alloc s [] e h calm =
      let p = gc_scan-Kept c laws [] s 512 h (calm refl) in
      let q : Kept c ((gc_scan c s 512).0) (reclaim_reverse c ((gc_scan c s 512).0)) [] = record {
        table = reclaim_reverse-IsNat c _ [] laws p.table;
        trim = reclaim_reverse-IsTrim c _ laws;
      } in
      dequeue-Alloc c s _ _ refl (Kept-trans c s _ _ [] [] p q)

  pub slot_alloc-Alloc : (s : State R F) → IsNat c s [] → Calm c s → Alloc c s (slot_alloc c s)
  unfolding slot_alloc
  slot_alloc-Alloc s h calm = slot_alloc_from-Alloc s s.free_ring refl h calm

  -- nat_reverse_lookup keeps the table well formed and adds nothing to it.
  pub reverse_lookup-Kept :
      (s : State R F) (key : ReverseKey) → IsNat c s [] → Kept c s ((reverse_lookup c s key).0) []
  unfolding reverse_lookup
  reverse_lookup-Kept s key h = elim (Option-cases (seen c s key)) [
    | inl e ↦ rw (reverse_lookup, e) (Kept-refl c s [] h)
    | inr (i, e) ↦ elim (Bool-cases (is_expired c.clock (s.addr_table i))) [
      | inr k ↦ rw (reverse_lookup, e, k) (refresh-Kept c s i [] h)
      | inl k ↦
          rw (reverse_lookup, e, k)
            (del_keys-Kept c laws [] s i h (inr (ap (seen c s) ((h.reverse_ok key i e).0) ∙ e)))
    ]
  ]
