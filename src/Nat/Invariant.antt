-- ===== src/Nat/Invariant.antt =====
-- What holds of the translation table between calls: where each slot is, and what the keys of the two
-- hashes say of the entries.
use fastrg_node.Base.{
  ℕ, ◌≡◌, ◌≢◌, ◌≤◌, refl, sym, ap, ◌∙◌, subst, ◌⊎◌, inl, inr, List, true, Option, none, some, ◌+◌,
  ◌==◌, ==_iff, ltb, arith, Bool-cases,
}
use fastrg_node.Nat.{ReverseKey, ForwardKey, Entry, Env, State, put, reverse_key, forward_key}
use fastrg_node.Nat.Count.{one, count}

-- Two entries of the same flow, with the same translated port.
pub record SameKeys (e e' : Entry) : Type 0 where
  pub same_forward : forward_key e' ≡ forward_key e
  pub same_reverse : reverse_key e' ≡ reverse_key e

pub SameKeys-refl : (e : Entry) → SameKeys e e
SameKeys-refl e = record { same_forward = refl; same_reverse = refl }

pub SameKeys-trans : (a b c : Entry) → SameKeys a b → SameKeys b c → SameKeys a c
SameKeys-trans a b c p q = record {
  same_forward = q.same_forward ∙ p.same_forward;
  same_reverse = q.same_reverse ∙ p.same_reverse;
}

pub put-SameKeys :
    (i : ℕ) (e : Entry) (entries : ℕ → Entry)
    → SameKeys (entries i) e
    → (j : ℕ) → SameKeys (entries j) (put i e entries j)
put-SameKeys i e entries h j = elim (Bool-cases (j == i)) [
  | inl k ↦ rw k (subst (λ n. SameKeys (entries n) e) (sym ((==_iff j i).0 k)) h)
  | inr k ↦ rw k (SameKeys-refl (entries j))
]

pub put_ne : (i j : ℕ) (e : Entry) (entries : ℕ → Entry) → j ≢ i → put i e entries j ≡ entries j
put_ne i j e entries h = ground (arith, h)

pub put_self : (i : ℕ) (e : Entry) (entries : ℕ → Entry) → put i e entries i ≡ e
put_self i e entries = ground arith

module _ {R F : Type 0} where
  abbrev pub seen : Env R F → State R F → ReverseKey → Option ℕ
  seen c s k = c.reverse_hash.lookup s.reverse k

  abbrev pub known : Env R F → State R F → ForwardKey → Option ℕ
  known c s k = c.forward_hash.lookup s.forward k

  -- 1 for a slot that its reverse key leads to.
  unfoldable pub published : Env R F → State R F → ℕ → ℕ
  published c s i = elim (seen c s (reverse_key (s.addr_table i))) [
    | none ↦ 0
    | some j ↦ one (j == i)
  ]

  -- A slot is in one of four places: held by a call under way, in the ring, in the defer queue, or
  -- published. A key of the reverse hash is that of the entry it leads to, which is READY; a flow of
  -- the forward hash leads to its own entry, and that entry is published.
  pub record IsNat (c : Env R F) (s : State R F) (held : List ℕ) : Type 0 where
    pub owned :
        (i : ℕ)
        → count i held + (count i s.free_ring + (count i s.deferred + published c s i))
          ≡ one (ltb i c.slots)
    pub reverse_ok :
        (k : ReverseKey) (i : ℕ)
        → seen c s k ≡ some i
        → (reverse_key (s.addr_table i) ≡ k) × ((s.addr_table i).is_ready ≡ true)
    pub forward_ok :
        (k : ForwardKey) (i : ℕ)
        → known c s k ≡ some i
        → (forward_key (s.addr_table i) ≡ k) × (seen c s (reverse_key (s.addr_table i)) ≡ some i)

  -- No READY slot has a reverse key that has gone to another slot.
  pub record IsSettled (c : Env R F) (s : State R F) : Type 0 where
    pub settled :
        (i : ℕ)
        → (s.addr_table i).is_ready ≡ true
        → (seen c s (reverse_key (s.addr_table i)) ≡ none)
          ⊎ (seen c s (reverse_key (s.addr_table i)) ≡ some i)

  pub published-none :
      (c : Env R F) (s : State R F) (i : ℕ)
      → seen c s (reverse_key (s.addr_table i)) ≡ none
      → published c s i ≡ 0
  unfolding published
  published-none c s i h = rw (published, h) refl

  pub published-some :
      (c : Env R F) (s : State R F) (i j : ℕ)
      → seen c s (reverse_key (s.addr_table i)) ≡ some j
      → published c s i ≡ one (j == i)
  unfolding published
  published-some c s i j h = rw (published, h) refl

  pub published_self :
      (c : Env R F) (s : State R F) (i : ℕ)
      → seen c s (reverse_key (s.addr_table i)) ≡ some i
      → published c s i ≡ 1
  published_self c s i h = published-some c s i i h ∙ ap one ((==_iff i i).1 refl)

  pub published_same :
      (c : Env R F) (s s' : State R F) (i : ℕ)
      → seen c s' (reverse_key (s'.addr_table i)) ≡ seen c s (reverse_key (s.addr_table i))
      → published c s' i ≡ published c s i
  unfolding published
  published_same c s s' i h = rw (published, h) refl

  module _ (c : Env R F) (s : State R F) (held : List ℕ) (h : IsNat c s held) where
    -- A slot that a key leads to is published, and so nowhere else.
    pub seen-published : (k : ReverseKey) (i : ℕ) → seen c s k ≡ some i → published c s i ≡ 1
    seen-published k i e = published_self c s i (ap (seen c s) ((h.reverse_ok k i e).0) ∙ e)

    pub seen-nowhere :
        (k : ReverseKey) (i : ℕ)
        → seen c s k ≡ some i
        → count i held + (count i s.free_ring + count i s.deferred) ≡ 0
    seen-nowhere k i e = ground (arith, h.owned i, seen-published k i e)

    pub held_free : (i : ℕ) → 1 ≤ count i held → (k : ReverseKey) → seen c s k ≢ some i
    held_free i n k e = omega (arith, seen-nowhere k i e, n)
