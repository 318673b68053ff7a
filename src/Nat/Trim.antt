-- ===== src/Nat/Trim.antt =====
-- Reclaiming, deleting and refreshing add nothing to the table: no key appears, no slot becomes
-- READY, and the entries keep their keys.
use fastrg_node.Base.{
  ℕ, ◌≡◌, ◌≢◌, refl, sym, ◌∙◌, subst, ◌⊎◌, inl, inr, List, [], ◌∷◌, true, Option, none, some, ◌==◌,
  ==_iff, arith, Bool-cases, Option-cases, drop,
}
use fastrg_node.Nat.{
  ReverseKey, ForwardKey, Entry, Site, at_delete, Env, IsEnv, State, put, refresh, reverse_key,
  forward_key,
}
use fastrg_node.Nat.Slots.{free_cb, free_all, call_back, reclaim_reverse, del_reverse, del_keys}
use fastrg_node.Nat.Invariant.{
  SameKeys, SameKeys-refl, SameKeys-trans, put-SameKeys, seen, known, IsSettled,
}
use fastrg_node.Nat.Keys.{ReverseKey-cases, ForwardKey-cases}

less_trans : {a b c : Option ℕ} → (b ≡ none) ⊎ (b ≡ a) → (c ≡ none) ⊎ (c ≡ b) → (c ≡ none) ⊎ (c ≡ a)
less_trans p (inl q) = inl q
less_trans (inl p) (inr q) = inl (q ∙ p)
less_trans (inr p) (inr q) = inr (q ∙ p)

pub put_live :
    (i : ℕ) (e : Entry) (entries : ℕ → Entry)
    → ((entries i).is_ready ≡ true → e.is_ready ≡ true)
    → (j : ℕ) → (entries j).is_ready ≡ true
    → (put i e entries j).is_ready ≡ true
put_live i e entries h j live = elim (Bool-cases (j == i)) [
  | inl k ↦ ground (arith, h (subst (λ n. (entries n).is_ready ≡ true) ((==_iff j i).0 k) live), k)
  | inr k ↦ ground (arith, live, k)
]

pub put-ready :
    (i : ℕ) (e : Entry) (entries : ℕ → Entry)
    → (e.is_ready ≡ true → (entries i).is_ready ≡ true)
    → (j : ℕ) → (put i e entries j).is_ready ≡ true
    → (entries j).is_ready ≡ true
put-ready i e entries h j live = elim (Bool-cases (j == i)) [
  | inl k ↦
      subst (λ n. (entries n).is_ready ≡ true) (sym ((==_iff j i).0 k))
        (h (ground (arith, live, k)))
  | inr k ↦ ground (arith, live, k)
]

module _ {R F : Type 0} where
  pub record IsTrim (c : Env R F) (s s' : State R F) : Type 0 where
    pub reverse_less : (k : ReverseKey) → (seen c s' k ≡ none) ⊎ (seen c s' k ≡ seen c s k)
    pub forward_less : (k : ForwardKey) → (known c s' k ≡ none) ⊎ (known c s' k ≡ known c s k)
    pub same_keys : (i : ℕ) → SameKeys (s.addr_table i) (s'.addr_table i)
    pub ready_less : (i : ℕ) → (s'.addr_table i).is_ready ≡ true → (s.addr_table i).is_ready ≡ true

  pub IsTrim-refl : (c : Env R F) (s : State R F) → IsTrim c s s
  IsTrim-refl c s = record {
    reverse_less = λ k. inr refl;
    forward_less = λ k. inr refl;
    same_keys = λ i. SameKeys-refl (s.addr_table i);
    ready_less = λ i h. h;
  }

  pub IsTrim-trans : (c : Env R F) (s t u : State R F) → IsTrim c s t → IsTrim c t u → IsTrim c s u
  IsTrim-trans c s t u p q = record {
    reverse_less = λ k. less_trans (p.reverse_less k) (q.reverse_less k);
    forward_less = λ k. less_trans (p.forward_less k) (q.forward_less k);
    same_keys = λ i. SameKeys-trans _ _ _ (p.same_keys i) (q.same_keys i);
    ready_less = λ i h. p.ready_less i (q.ready_less i h);
  }

  pub seen_stays_none :
      (c : Env R F) (s s' : State R F) (k : ReverseKey)
      → IsTrim c s s'
      → seen c s k ≡ none
      → seen c s' k ≡ none
  seen_stays_none c s s' k t e = elim (t.reverse_less k) [ inl gone ↦ gone | inr same ↦ same ∙ e ]

  pub known_stays_none :
      (c : Env R F) (s s' : State R F) (k : ForwardKey)
      → IsTrim c s s'
      → known c s k ≡ none
      → known c s' k ≡ none
  known_stays_none c s s' k t e = elim (t.forward_less k) [ inl gone ↦ gone | inr same ↦ same ∙ e ]

  pub trim-IsSettled :
      (c : Env R F) (s s' : State R F) → IsTrim c s s' → IsSettled c s → IsSettled c s'
  trim-IsSettled c s s' t h = record {
    settled = λ i live.
        let key = (t.same_keys i).same_reverse in
        subst (λ k. (seen c s' k ≡ none) ⊎ (seen c s' k ≡ some i)) (sym key)
          (elim (t.reverse_less (reverse_key (s.addr_table i))) [
            | inl gone ↦ inl gone
            | inr same ↦ elim (h.settled i (t.ready_less i live)) [
              | inl away ↦ inl (same ∙ away)
              | inr back ↦ inr (same ∙ back)
            ]
          ]);
  }

  free_cb-IsTrim : (c : Env R F) (s : State R F) (i : ℕ) → IsTrim c s (free_cb c s i)
  unfolding free_cb
  free_cb-IsTrim c s i = record {
    reverse_less = λ k. inr refl;
    forward_less = λ k. inr refl;
    same_keys = put-SameKeys i _ s.addr_table (record { same_forward = refl; same_reverse = refl });
    ready_less = put-ready i _ s.addr_table (λ live. ground (arith, live));
  }

  free_all-IsTrim : (c : Env R F) (s : State R F) (is : List ℕ) → IsTrim c s (free_all c s is)
  unfolding free_all
  free_all-IsTrim c s [] = IsTrim-refl c s
  free_all-IsTrim c s (i ∷ is) =
      IsTrim-trans c s (free_cb c s i) _ (free_cb-IsTrim c s i)
        (free_all-IsTrim c (free_cb c s i) is)

  -- Only the lists and the counters change.
  pub lists-IsTrim :
      (c : Env R F) (s s' : State R F)
      → ((k : ReverseKey) → seen c s' k ≡ seen c s k)
      → ((k : ForwardKey) → known c s' k ≡ known c s k)
      → s'.addr_table ≡ s.addr_table
      → IsTrim c s s'
  lists-IsTrim c s s' rev fwd entries = record {
    reverse_less = λ k. inr (rev k);
    forward_less = λ k. inr (fwd k);
    same_keys = λ i. subst (λ t. SameKeys (s.addr_table i) (t i)) (sym entries) (SameKeys-refl _);
    ready_less = λ i live. subst (λ t. (t i).is_ready ≡ true) entries live;
  }

  pub call_back-IsTrim :
      (c : Env R F) (site : Site) (s : State R F) → IsTrim c s (call_back c site s)
  unfolding call_back
  call_back-IsTrim c site s =
      IsTrim-trans c s (record s { deferred = drop (c.quiescent site s.deferred) s.deferred }) _
        (lists-IsTrim c s _ (λ k. refl) (λ k. refl) refl) (free_all-IsTrim c _ _)

  pub reclaim_reverse-IsTrim :
      (c : Env R F) (s : State R F) → IsEnv c → IsTrim c s (reclaim_reverse c s)
  unfolding reclaim_reverse
  reclaim_reverse-IsTrim c s laws =
      IsTrim-trans c s _ _
        (lists-IsTrim c s (record s { reverse = c.reverse_hash.reclaim s.reverse })
          (laws.reverse_laws.lookup-reclaim s.reverse) (λ k. refl) refl)
        (call_back-IsTrim c _ _)

  pub refresh-IsTrim : (c : Env R F) (s : State R F) (i : ℕ) → IsTrim c s (refresh c s i)
  unfolding refresh
  refresh-IsTrim c s i = record {
    reverse_less = λ k. inr refl;
    forward_less = λ k. inr refl;
    same_keys = put-SameKeys i _ s.addr_table (record { same_forward = refl; same_reverse = refl });
    ready_less = put-ready i _ s.addr_table (λ live. live);
  }

module _ {R F : Type 0} (c : Env R F) (laws : IsEnv c) where
  pub del_reverse-IsTrim : (s : State R F) (key : ReverseKey) → IsTrim c s ((del_reverse c s key).0)
  unfolding del_reverse
  del_reverse-IsTrim s key = elim (Option-cases (seen c s key)) [
    | inl e ↦ rw (del_reverse, e) (IsTrim-refl c s)
    | inr (i, e) ↦
        rw (del_reverse, e)
          (IsTrim-trans c s _ _
            (record {
              reverse_less = λ k. deleted k (ReverseKey-cases key k);
              forward_less = λ k. inr refl;
              same_keys = λ j. SameKeys-refl (s.addr_table j);
              ready_less = λ j live. live;
            })
            (call_back-IsTrim c _ _))
  ]
    where
      deleted :
          (k : ReverseKey)
          → (key ≡ k) ⊎ (key ≢ k)
          → (c.reverse_hash.lookup (c.reverse_hash.del s.reverse key) k ≡ none)
            ⊎ (c.reverse_hash.lookup (c.reverse_hash.del s.reverse key) k ≡ seen c s k)
      deleted k (inl same) = inl (
          subst (λ k. c.reverse_hash.lookup (c.reverse_hash.del s.reverse key) k ≡ none) same
            (laws.reverse_laws.lookup-del s.reverse key))
      deleted k (inr other) = inr (laws.reverse_laws.lookup-del_ne s.reverse key k other)

  pub del_keys-IsTrim : (s : State R F) (e : Entry) → IsTrim c s ((del_keys c s e).0)
  unfolding del_keys
  del_keys-IsTrim s e =
      IsTrim-trans c s (record s { forward = c.forward_hash.del s.forward (forward_key e) }) _
        (record {
          reverse_less = λ k. inr refl;
          forward_less = λ k. deleted k (ForwardKey-cases (forward_key e) k);
          same_keys = λ j. SameKeys-refl (s.addr_table j);
          ready_less = λ j live. live;
        })
        (del_reverse-IsTrim _ (reverse_key e))
    where
      deleted :
          (k : ForwardKey)
          → (forward_key e ≡ k) ⊎ (forward_key e ≢ k)
          → (c.forward_hash.lookup (c.forward_hash.del s.forward (forward_key e)) k ≡ none)
            ⊎ (c.forward_hash.lookup (c.forward_hash.del s.forward (forward_key e)) k ≡ known c s k)
      deleted k (inl same) = inl (
          subst (λ k. c.forward_hash.lookup (c.forward_hash.del s.forward (forward_key e)) k ≡ none)
            same (laws.forward_laws.lookup-del s.forward (forward_key e)))
      deleted k (inr other) =
          inr (laws.forward_laws.lookup-del_ne s.forward (forward_key e) k other)

  -- A deleted key is gone.
  pub del_keys-gone :
      (s : State R F) (e : Entry) → seen c ((del_keys c s e).0) (reverse_key e) ≡ none
  unfolding del_keys del_reverse
  del_keys-gone s e = elim (Option-cases (seen c s (reverse_key e))) [
    | inl absent ↦ rw (del_keys, del_reverse, absent) absent
    | inr (i, k) ↦
        rw (del_keys, del_reverse, k)
          (seen_stays_none c _ _ (reverse_key e) (call_back-IsTrim c at_delete _)
            (laws.reverse_laws.lookup-del s.reverse (reverse_key e)))
  ]
