-- ===== src/Nat/Keys.antt =====
-- Deleting keys of the two hashes: nat_entry_del_keys of src/pppd/nat.h.
use fastrg_node.Base.{
  ℕ, ◌≡◌, ◌≢◌, refl, sym, ap, ◌∙◌, subst, ◌⊎◌, inl, inr, List, [], ◌∷◌, ◌++◌, false, none, some,
  ◌+◌, ◌==◌, ==_iff, arith, Bool-cases, Option-cases, ne→==,
}
use fastrg_node.Nat.{ReverseKey, ForwardKey, Env, IsEnv, State, reverse_key, forward_key}
use fastrg_node.Nat.Count.{one, count, count-append, count_single}
use fastrg_node.Nat.Slots.{del_reverse, del_keys}
use fastrg_node.Nat.Invariant.{
  seen, known, published, IsNat, published-none, published-some, published_same,
}
use fastrg_node.Nat.Reclaim.{call_back-IsNat}

pub same_slot : {i j : ℕ} → some i ≡ some j → i ≡ j
same_slot {i} {j} e = ground (arith, e)

pub ReverseKey-cases : (a b : ReverseKey) → (a ≡ b) ⊎ (a ≢ b)
ReverseKey-cases a b = elim (Bool-cases (a.dst_ip == b.dst_ip)) [
  | inr n ↦ inr (λ e. ground (arith, n, ap (λ k. k.dst_ip) e))
  | inl p ↦ elim (Bool-cases (a.nat_port == b.nat_port)) [
    | inr n ↦ inr (λ e. ground (arith, n, ap (λ k. k.nat_port) e))
    | inl q ↦ elim (Bool-cases (a.dst_port == b.dst_port)) [
      | inr n ↦ inr (λ e. ground (arith, n, ap (λ k. k.dst_port) e))
      | inl r ↦ inl (ground (arith, (==_iff _ _).0 p, (==_iff _ _).0 q, (==_iff _ _).0 r))
    ]
  ]
]

pub ForwardKey-cases : (a b : ForwardKey) → (a ≡ b) ⊎ (a ≢ b)
ForwardKey-cases a b = elim (Bool-cases (a.src_ip == b.src_ip)) [
  | inr n ↦ inr (λ e. ground (arith, n, ap (λ k. k.src_ip) e))
  | inl p ↦ elim (Bool-cases (a.dst_ip == b.dst_ip)) [
    | inr n ↦ inr (λ e. ground (arith, n, ap (λ k. k.dst_ip) e))
    | inl q ↦ elim (Bool-cases (a.src_port == b.src_port)) [
      | inr n ↦ inr (λ e. ground (arith, n, ap (λ k. k.src_port) e))
      | inl r ↦ elim (Bool-cases (a.dst_port == b.dst_port)) [
        | inr n ↦ inr (λ e. ground (arith, n, ap (λ k. k.dst_port) e))
        | inl t ↦
            inl (
              ground
                (arith, (==_iff _ _).0 p, (==_iff _ _).0 q, (==_iff _ _).0 r, (==_iff _ _).0 t))
      ]
    ]
  ]
]

module _ {R F : Type 0} (c : Env R F) (laws : IsEnv c) where
  -- What a table still finds after a deletion, it found before, under another key.
  pub known_del :
      (t : F) (f k : ForwardKey) (i : ℕ)
      → c.forward_hash.lookup (c.forward_hash.del t f) k ≡ some i
      → (f ≢ k) × (c.forward_hash.lookup t k ≡ some i)
  known_del t f k i e = elim (ForwardKey-cases f k) [
    | inl same ↦
        let gone = laws.forward_laws.lookup-del t f in
        let e' =
          subst (λ k. c.forward_hash.lookup (c.forward_hash.del t f) k ≡ some i) (sym same) e in
        absurd (ground (arith, gone, e'))
    | inr other ↦ (other, sym (laws.forward_laws.lookup-del_ne t f k other) ∙ e)
  ]

  pub seen_del :
      (t : R) (f k : ReverseKey) (i : ℕ)
      → c.reverse_hash.lookup (c.reverse_hash.del t f) k ≡ some i
      → (f ≢ k) × (c.reverse_hash.lookup t k ≡ some i)
  seen_del t f k i e = elim (ReverseKey-cases f k) [
    | inl same ↦
        let gone = laws.reverse_laws.lookup-del t f in
        let e' =
          subst (λ k. c.reverse_hash.lookup (c.reverse_hash.del t f) k ≡ some i) (sym same) e in
        absurd (ground (arith, gone, e'))
    | inr other ↦ (other, sym (laws.reverse_laws.lookup-del_ne t f k other) ∙ e)
  ]

  forget-IsNat :
      (s : State R F) (held : List ℕ) (f : ForwardKey)
      → IsNat c s held
      → IsNat c (record s { forward = c.forward_hash.del s.forward f }) held
  forget-IsNat s held f h = record {
    owned = λ i. omega (
      arith,
      h.owned i,
      published_same c s (record s { forward = c.forward_hash.del s.forward f }) i refl,
    );
    reverse_ok = h.reverse_ok;
    forward_ok = λ k i e. h.forward_ok k i ((known_del s.forward f k i e).1);
  }

  abbrev unlinked : State R F → ReverseKey → ℕ → State R F
  unlinked s key i = record s {
    reverse = c.reverse_hash.del s.reverse key;
    deferred = s.deferred ++ i ∷ [];
  }

  -- A slot that no flow leads to goes from its reverse key to the defer queue.
  unlinked-owned :
      (s : State R F) (held : List ℕ) (key : ReverseKey) (i : ℕ)
      → IsNat c s held
      → seen c s key ≡ some i
      → (j : ℕ) → count j (i ∷ []) + published c (unlinked s key i) j ≡ published c s j
  unlinked-owned s held key i h e j = elim (ReverseKey-cases key (reverse_key (s.addr_table j))) [
    | inl same ↦
        let now : published c (unlinked s key i) j ≡ 0 = published-none c (unlinked s key i) j (
          subst (λ k. seen c (unlinked s key i) k ≡ none) same
            (laws.reverse_laws.lookup-del s.reverse key)) in
        let before : published c s j ≡ one (i == j) =
          published-some c s j i (subst (λ k. seen c s k ≡ some i) same e) in
        omega (arith, now, before, count_single i j)
    | inr other ↦
        let now : published c (unlinked s key i) j ≡ published c s j =
          published_same c s (unlinked s key i) j
            (laws.reverse_laws.lookup-del_ne s.reverse key _ other) in
        let away : (i == j) ≡ false = ne→== i j (λ k.
          other (sym ((h.reverse_ok key i e).0) ∙ ap (λ n. reverse_key (s.addr_table n)) k)) in
        omega (arith, now, count_single i j, ap one away)
  ]

  unlinked-IsNat :
      (s : State R F) (held : List ℕ) (key : ReverseKey) (i : ℕ)
      → IsNat c s held
      → seen c s key ≡ some i
      → ((f : ForwardKey) → known c s f ≢ some i)
      → IsNat c (unlinked s key i) held
  unlinked-IsNat s held key i h e alone = record {
    owned = λ j.
        omega
          (arith, h.owned j, count-append j s.deferred (i ∷ []), unlinked-owned s held key i h e j);
    reverse_ok = λ k j e'. h.reverse_ok k j ((seen_del s.reverse key k j e').1);
    forward_ok = λ k j e'.
        let (own, back) = h.forward_ok k j e' in
        let other : key ≢ reverse_key (s.addr_table j) = λ same. alone k (
          subst (λ n. known c s k ≡ some n) (same_slot (sym back ∙ ap (seen c s) (sym same) ∙ e))
            e') in
        (own, laws.reverse_laws.lookup-del_ne s.reverse key _ other ∙ back);
  }

  pub del_reverse-IsNat :
      (s : State R F) (held : List ℕ) (key : ReverseKey)
      → IsNat c s held
      → ((i : ℕ) → seen c s key ≡ some i → (f : ForwardKey) → known c s f ≢ some i)
      → IsNat c ((del_reverse c s key).0) held
  unfolding del_reverse
  del_reverse-IsNat s held key h alone = elim (Option-cases (seen c s key)) [
    | inl e ↦ rw (del_reverse, e) h
    | inr (i, e) ↦
        rw (del_reverse, e)
          (call_back-IsNat c _ _ held (unlinked-IsNat s held key i h e (alone i e)))
  ]

  -- nat_entry_del_keys on an entry whose reverse key leads to it or nowhere.
  pub del_keys-IsNat :
      (s : State R F) (held : List ℕ) (i : ℕ)
      → IsNat c s held
      → (seen c s (reverse_key (s.addr_table i)) ≡ none)
        ⊎ (seen c s (reverse_key (s.addr_table i)) ≡ some i)
      → IsNat c ((del_keys c s (s.addr_table i)).0) held
  unfolding del_keys
  del_keys-IsNat s held i h own =
      del_reverse-IsNat _ held _ (forget-IsNat s held (forward_key (s.addr_table i)) h) λ j e f e'.
        let (other, known_f) = known_del s.forward (forward_key (s.addr_table i)) f j e' in
        elim own [
          | inl away ↦ ground (arith, away, e)
          | inr back ↦ other (
              ap (λ n. forward_key (s.addr_table n)) (same_slot (sym back ∙ e))
              ∙ (h.forward_ok f j known_f).0)
        ]
