-- ===== src/Nat/Assoc.antt =====
-- A hash table as an association list of bounded length: it has what is asked of an rte_hash, so that the model runs.
use fastrg_node.Base.{
  ℕ, ◌≡◌, ◌≢◌, refl, sym, ap, ◌∙◌, subst, inl, inr, List, [], ◌∷◌, Bool, true, false, Option, none,
  some, ◌==◌, ◌&&◌, arith, Bool-cases, if◌then◌else◌, length, ltb,
}
use fastrg_node.Nat.{ReverseKey, ForwardKey, Hash, IsHash}

pub record Keys (K : Type 0) : Type 0 where
  pub same : K → K → Bool
  pub same_iff : (a b : K) → same a b ≡ true → a ≡ b
  pub same_self : (a : K) → same a a ≡ true

abbrev same_reverse : ReverseKey → ReverseKey → Bool
same_reverse a b =
    (a.dst_ip == b.dst_ip) && ((a.nat_port == b.nat_port) && (a.dst_port == b.dst_port))

pub same_reverse_iff : (a b : ReverseKey) → same_reverse a b ≡ true → a ≡ b
same_reverse_iff a b e = ground (arith, e)

pub same_reverse_self : (a : ReverseKey) → same_reverse a a ≡ true
same_reverse_self a = ground arith

unfoldable pub reverse_keys : Keys ReverseKey
reverse_keys = record {
  same = same_reverse;
  same_iff = same_reverse_iff;
  same_self = same_reverse_self;
}

abbrev same_forward : ForwardKey → ForwardKey → Bool
same_forward a b =
    (a.src_ip == b.src_ip)
    && ((a.dst_ip == b.dst_ip) && ((a.src_port == b.src_port) && (a.dst_port == b.dst_port)))

pub same_forward_iff : (a b : ForwardKey) → same_forward a b ≡ true → a ≡ b
same_forward_iff a b e = ground (arith, e)

pub same_forward_self : (a : ForwardKey) → same_forward a a ≡ true
same_forward_self a = ground arith

unfoldable pub forward_keys : Keys ForwardKey
forward_keys = record {
  same = same_forward;
  same_iff = same_forward_iff;
  same_self = same_forward_self;
}

module _ {K : Type 0} (keys : Keys K) where
  unfoldable pub find : List (K × ℕ) → K → Option ℕ
  find [] k = none
  find ((j, v) ∷ t) k = if keys.same j k then some v else find t k

  unfoldable pub erase : List (K × ℕ) → K → List (K × ℕ)
  erase [] k = []
  erase ((j, v) ∷ t) k = if keys.same j k then erase t k else (j, v) ∷ erase t k

  -- A new value for a key replaces the old one; a full table refuses a new key.
  abbrev store : ℕ → List (K × ℕ) → K → ℕ → Option (List (K × ℕ))
  store cap t k v = if ltb (length (erase t k)) cap then some ((k, v) ∷ erase t k) else none

  unfoldable pub assoc : ℕ → Hash K (List (K × ℕ))
  assoc cap = record { lookup = find; add = store cap; del = erase; reclaim = λ t. t }

  other_key : (j k : K) → j ≢ k → keys.same j k ≡ false
  other_key j k h = elim (Bool-cases (keys.same j k)) [
    | inl e ↦ absurd (h (keys.same_iff j k e))
    | inr e ↦ e
  ]

  find-erase : (t : List (K × ℕ)) (k : K) → find (erase t k) k ≡ none
  unfolding find erase
  find-erase [] k = refl
  find-erase ((j, v) ∷ t) k = elim (Bool-cases (keys.same j k)) [
    | inl e ↦ rw e (find-erase t k)
    | inr e ↦ rw (e, e) (find-erase t k)
  ]

  find-erase_ne : (t : List (K × ℕ)) (k j : K) → k ≢ j → find (erase t k) j ≡ find t j
  unfolding find erase
  find-erase_ne [] k j h = refl
  find-erase_ne ((i, v) ∷ t) k j h = elim (Bool-cases (keys.same i k)) [
    | inl e ↦
        let ne : keys.same i j ≡ false = other_key i j (λ n. h (sym (keys.same_iff i k e) ∙ n)) in
        rw (e, ne) (find-erase_ne t k j h)
    | inr e ↦ rw e (ap (λ x. if keys.same i j then some v else x) (find-erase_ne t k j h))
  ]

  stored :
      (cap : ℕ) (t t' : List (K × ℕ)) (k : K) (i : ℕ)
      → store cap t k i ≡ some t'
      → (k, i) ∷ erase t k ≡ t'
  stored cap t t' k i e = ground (arith, e)

  pub assoc-IsHash : (cap : ℕ) → IsHash (assoc cap)
  unfolding assoc find
  assoc-IsHash cap = record {
    lookup-add = λ t t' k i e.
        subst (λ u. find u k ≡ some i) (stored cap t t' k i e) (rw (keys.same_self k) refl);
    lookup-add_ne = λ t t' k j i e h.
        subst (λ u. find u j ≡ find t j) (stored cap t t' k i e)
          (rw (other_key k j h) (find-erase_ne t k j h));
    lookup-del = find-erase;
    lookup-del_ne = find-erase_ne;
    lookup-reclaim = λ t k. refl;
  }
