-- ===== src/Nat/Reclaim.antt =====
-- The defer queue's callback and the deletion of keys keep each slot in one place.
use fastrg_node.Base.{
  ℕ, ◌≡◌, ◌≢◌, ◌≤◌, ◌<◌, refl, sym, ap, ◌∙◌, List, [], ◌∷◌, ◌++◌, true, ◌+◌, ltb, arith, length,
  take, drop, lt→ltb,
}
use fastrg_node.Nat.{ReverseKey, ForwardKey, Entry, Site, Env, IsEnv, State, put, reverse_key}
use fastrg_node.Nat.Count.{one, count, count-append, count-take-drop, count_self, length_le, one_le}
use fastrg_node.Nat.Slots.{enqueue, freed, free_cb, free_all, call_back, reclaim_reverse}
use fastrg_node.Nat.Invariant.{
  SameKeys, SameKeys-refl, put-SameKeys, put_ne, seen, known, published, IsNat, published_same,
  seen-published,
}

-- The ring has room for a slot that is not in it.
enqueue-count :
    (slots : ℕ) (ring : List ℕ) (i j : ℕ)
    → ((k : ℕ) → count k (i ∷ ring) ≤ one (ltb k slots))
    → count j (enqueue slots ring i) ≡ count j ring + count j (i ∷ [])
unfolding enqueue
enqueue-count slots ring i j h =
    let room : length ring < slots = omega (arith, length_le slots (i ∷ ring) h) in
    rw (lt→ltb (length ring) slots room) (count-append j ring (i ∷ []))

pub count_cons : (i j : ℕ) (xs : List ℕ) → count j (i ∷ xs) ≡ count j (i ∷ []) + count j xs
count_cons i j xs = count-append j (i ∷ []) xs

module _ {R F : Type 0} where
  -- A change that moves slots between the lists, and leaves keys and published slots alone.
  pub keep-IsNat :
      (c : Env R F) (s s' : State R F) (held held' : List ℕ)
      → IsNat c s held
      → ((k : ReverseKey) → seen c s' k ≡ seen c s k)
      → ((k : ForwardKey) → known c s' k ≡ known c s k)
      → ((i : ℕ) → SameKeys (s.addr_table i) (s'.addr_table i))
      → ((i : ℕ)
          → published c s i ≡ 1
          → (s.addr_table i).is_ready ≡ true
          → (s'.addr_table i).is_ready ≡ true)
      → ((i : ℕ)
          → count i held' + (count i s'.free_ring + count i s'.deferred)
            ≡ count i held + (count i s.free_ring + count i s.deferred))
      → IsNat c s' held'
  keep-IsNat c s s' held held' h rev fwd keys ready counts =
      let same_seen : (i : ℕ)
          → seen c s' (reverse_key (s'.addr_table i)) ≡ seen c s (reverse_key (s.addr_table i)) =
        λ i. rev _ ∙ ap (seen c s) ((keys i).same_reverse) in
      record {
        owned = λ i. omega (arith, h.owned i, counts i, published_same c s s' i (same_seen i));
        reverse_ok = λ k i e.
            let e' = sym (rev k) ∙ e in
            let (key, live) = h.reverse_ok k i e' in
            ((keys i).same_reverse ∙ key, ready i (seen-published c s held h k i e') live);
        forward_ok = λ k i e.
            let (key, back) = h.forward_ok k i (sym (fwd k) ∙ e) in
            ((keys i).same_forward ∙ key, same_seen i ∙ back);
      }

  abbrev changed : State R F → (ℕ → Entry) → List ℕ → State R F
  changed s entries ring = record s { addr_table = entries; free_ring = ring }

  -- A held slot goes to the ring, its keys unchanged.
  pub to_ring-IsNat :
      (c : Env R F) (s : State R F) (i : ℕ) (held : List ℕ) (e : Entry)
      → IsNat c s (i ∷ held)
      → SameKeys (s.addr_table i) e
      → IsNat c (changed s (put i e s.addr_table) (enqueue c.slots s.free_ring i)) held
  to_ring-IsNat c s i held e h same =
      keep-IsNat c s _ (i ∷ held) held h (λ k. refl) (λ k. refl)
        (put-SameKeys i e s.addr_table same)
        (λ j one_j live.
          let away : j ≢ i = λ k. omega (
            arith,
            h.owned i,
            count_self i held,
            one_j,
            ap (published c s) k,
            one_le (ltb i c.slots),
          ) in
          ap (λ e. e.is_ready) (put_ne i j e s.addr_table away) ∙ live)
        (λ j.
          let room : (k : ℕ) → count k (i ∷ s.free_ring) ≤ one (ltb k c.slots) =
            λ k. omega (arith, h.owned k, count_cons i k s.free_ring, count_cons i k held) in
          omega (arith, enqueue-count c.slots s.free_ring i j room, count_cons i j held))

  pub free_cb-IsNat :
      (c : Env R F) (s : State R F) (i : ℕ) (held : List ℕ)
      → IsNat c s (i ∷ held)
      → IsNat c (free_cb c s i) held
  unfolding free_cb
  free_cb-IsNat c s i held h =
      to_ring-IsNat c s i held (freed (s.addr_table i)) h
        (record { same_forward = refl; same_reverse = refl })

  free_all-IsNat :
      (c : Env R F) (s : State R F) (is held : List ℕ)
      → IsNat c s (is ++ held)
      → IsNat c (free_all c s is) held
  unfolding free_all
  free_all-IsNat c s [] held h = h
  free_all-IsNat c s (i ∷ is) held h =
      free_all-IsNat c (free_cb c s i) is held (free_cb-IsNat c s i (is ++ held) h)

  pub call_back-IsNat :
      (c : Env R F) (site : Site) (s : State R F) (held : List ℕ)
      → IsNat c s held
      → IsNat c (call_back c site s) held
  unfolding call_back
  call_back-IsNat c site s held h =
      let n = c.quiescent site s.deferred in
      free_all-IsNat c (record s { deferred = drop n s.deferred }) (take n s.deferred) held
        (keep-IsNat c s _ held _ h (λ k. refl) (λ k. refl) (λ i. SameKeys-refl (s.addr_table i))
          (λ i one_i live. live)
          (λ i.
            omega (arith, count-append i (take n s.deferred) held, count-take-drop i n s.deferred)))

  pub reclaim_reverse-IsNat :
      (c : Env R F) (s : State R F) (held : List ℕ)
      → IsEnv c
      → IsNat c s held
      → IsNat c (reclaim_reverse c s) held
  unfolding reclaim_reverse
  reclaim_reverse-IsNat c s held laws h = call_back-IsNat c _ _ held (
      keep-IsNat c s _ held held h (laws.reverse_laws.lookup-reclaim s.reverse) (λ k. refl)
        (λ i. SameKeys-refl (s.addr_table i)) (λ i one_i live. live) (λ i. refl))
