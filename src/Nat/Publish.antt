-- ===== src/Nat/Publish.antt =====
-- The filling of a slot and its publication under both keys, in nat_learning_port_reuse.
use fastrg_node.Base.{
  ℕ, ◌≡◌, ◌≢◌, refl, sym, ap, ◌∙◌, subst, inl, inr, List, [], ◌∷◌, true, false, none, some, ◌==◌,
  ==_iff, ne→==, ltb, arith, Bool-cases, Option-cases, take, drop,
}
use fastrg_node.Nat.{ReverseKey, Entry, Site, Env, IsEnv, State, put, reverse_key, forward_key}
use fastrg_node.Nat.Count.{one, one_le, count, count_self, count_single, count_nil, count-take-drop}
use fastrg_node.Nat.Slots.{free_cb, free_all, call_back}
use fastrg_node.Nat.Learning.{Packet, flow_key, fill}
use fastrg_node.Nat.Invariant.{
  put_ne, seen, known, published, IsNat, published-none, published-some, published_same, held_free,
}
use fastrg_node.Nat.Reclaim.{count_cons}
use fastrg_node.Nat.Keys.{ReverseKey-cases, ForwardKey-cases, same_slot}

module _ {R F : Type 0} where
  pub free_all-apart :
      (c : Env R F) (s : State R F) (is : List ℕ) (j : ℕ)
      → count j is ≡ 0
      → (free_all c s is).addr_table j ≡ s.addr_table j
  unfolding free_all free_cb
  free_all-apart c s [] j h = refl
  free_all-apart c s (i ∷ is) j h =
      let away : j ≢ i = λ k. omega (arith, h, ap (λ n. count n (i ∷ is)) k, count_self i is) in
      free_all-apart c (free_cb c s i) is j (omega (arith, h, count_cons i j is))
      ∙ put_ne i j _ s.addr_table away

  -- The callback leaves the slot alone that a call holds.
  pub call_back-held :
      (c : Env R F) (site : Site) (s : State R F) (i : ℕ)
      → IsNat c s (i ∷ [])
      → (call_back c site s).addr_table i ≡ s.addr_table i
  unfolding call_back
  call_back-held c site s i h =
      let n = c.quiescent site s.deferred in
      free_all-apart c (record s { deferred = drop n s.deferred }) (take n s.deferred) i
        (omega (
          arith,
          h.owned i,
          count_self i [],
          count-take-drop i n s.deferred,
          one_le (ltb i c.slots),
        ))

  abbrev refilled : State R F → ℕ → Entry → State R F
  refilled s i e = record s { addr_table = put i e s.addr_table }

  -- A held slot may be filled with any entry.
  refilled-IsNat :
      (c : Env R F) (s : State R F) (i : ℕ) (e : Entry)
      → IsNat c s (i ∷ [])
      → IsNat c (refilled s i e) (i ∷ [])
  refilled-IsNat c s i e h =
      let alone = held_free c s (i ∷ []) h i (count_self i []) in
      let at_i : published c (refilled s i e) i ≡ 0 =
        elim (Option-cases
          (seen c (refilled s i e) (reverse_key ((refilled s i e).addr_table i)))) [
            | inl k ↦ published-none c (refilled s i e) i k
            | inr (j, k) ↦
                published-some c (refilled s i e) i j k
                ∙ ap one (ne→== j i (λ n. alone _ (k ∙ ap some n)))
          ] in
      let elsewhere : (j : ℕ) → j ≢ i → put i e s.addr_table j ≡ s.addr_table j =
        λ j. put_ne i j e s.addr_table in
      record {
        owned = λ j. elim (Bool-cases (j == i)) [
          | inl k ↦
              let j_i = (==_iff j i).0 k in
              omega (
                arith,
                h.owned j,
                at_i,
                ap (published c (refilled s i e)) j_i,
                ap (λ n. count n (i ∷ [])) j_i,
                count_self i [],
                one_le (ltb j c.slots),
              )
          | inr k ↦ omega (
            arith,
            h.owned j,
            published_same c s (refilled s i e) j (
                ap (λ x. seen c s (reverse_key x))
                  (elsewhere j (λ n. ground (arith, (==_iff j i).1 n, k)))),
          )
        ];
        reverse_ok = λ k j p.
            let same = elsewhere j (λ n. alone k (p ∙ ap some n)) in
            let (key, live) = h.reverse_ok k j p in
            (ap reverse_key same ∙ key, ap (λ x. x.is_ready) same ∙ live);
        forward_ok = λ k j p.
            let (key, back) = h.forward_ok k j p in
            let same = elsewhere j (λ n. alone _ (back ∙ ap some n)) in
            (ap forward_key same ∙ key, ap (λ x. seen c s (reverse_key x)) same ∙ back);
      }

  pub fill-IsNat :
      (c : Env R F) (p : Packet) (nat_port : ℕ) (s : State R F) (i : ℕ)
      → IsNat c s (i ∷ [])
      → IsNat c (fill c p nat_port s i) (i ∷ [])
  unfolding fill
  fill-IsNat c p nat_port s i h = refilled-IsNat c s i _ h

  -- A slot that carries a flow's keys and is ready to be published.
  pub record IsFilled (c : Env R F) (s : State R F) (p : Packet) (nat_port i : ℕ) : Type 0 where
    pub flow : forward_key (s.addr_table i) ≡ p.flow
    pub key : reverse_key (s.addr_table i) ≡ flow_key p nat_port
    pub live : (s.addr_table i).is_ready ≡ true

module _ {R F : Type 0} (c : Env R F) (laws : IsEnv c) (p : Packet) (nat_port : ℕ) where
  -- The reverse key of the held slot is added.
  pub shown-IsNat :
      (s : State R F) (i : ℕ) (r : R)
      → IsNat c s (i ∷ [])
      → IsFilled c s p nat_port i
      → seen c s (flow_key p nat_port) ≡ none
      → c.reverse_hash.add s.reverse (flow_key p nat_port) i ≡ some r
      → IsNat c (record s { reverse = r }) []
  shown-IsNat s i r h f free added =
      let t = record s { reverse = r } in
      let new : seen c t (flow_key p nat_port) ≡ some i =
        laws.reverse_laws.lookup-add s.reverse r _ i added in
      let old : (k : ReverseKey) → flow_key p nat_port ≢ k → seen c t k ≡ seen c s k =
        λ k. laws.reverse_laws.lookup-add_ne s.reverse r _ k i added in
      record {
        owned = λ j. elim (ReverseKey-cases (flow_key p nat_port) (reverse_key (s.addr_table j))) [
          | inl same ↦
              let after : published c t j ≡ one (i == j) =
                published-some c t j i (subst (λ k. seen c t k ≡ some i) same new) in
              let before : published c s j ≡ 0 =
                published-none c s j (subst (λ k. seen c s k ≡ none) same free) in
              omega (arith, h.owned j, after, before, count_single i j, count_nil j)
          | inr other ↦
              let away : (i == j) ≡ false =
                ne→== i j (λ n. other (sym f.key ∙ ap (λ n. reverse_key (s.addr_table n)) n)) in
              omega (
                arith,
                h.owned j,
                published_same c s t j (old _ other),
                count_single i j,
                count_nil j,
                ap one away,
              )
        ];
        reverse_ok = λ k j q. elim (ReverseKey-cases (flow_key p nat_port) k) [
          | inl same ↦
              let i_j = same_slot (sym new ∙ ap (seen c t) same ∙ q) in
              subst (λ n. (reverse_key (s.addr_table n) ≡ k) × ((s.addr_table n).is_ready ≡ true))
                i_j (f.key ∙ same, f.live)
          | inr other ↦ h.reverse_ok k j (sym (old k other) ∙ q)
        ];
        forward_ok = λ k j q.
            let (own, back) = h.forward_ok k j q in
            let other : flow_key p nat_port ≢ reverse_key (s.addr_table j) =
              λ same. ground (arith, sym free ∙ ap (seen c s) same ∙ back) in
            (own, old _ other ∙ back);
      }

  -- Then the flow.
  pub linked-IsNat :
      (s : State R F) (i : ℕ) (f : F)
      → IsNat c s []
      → forward_key (s.addr_table i) ≡ p.flow
      → seen c s (reverse_key (s.addr_table i)) ≡ some i
      → c.forward_hash.add s.forward p.flow i ≡ some f
      → IsNat c (record s { forward = f }) []
  linked-IsNat s i f h flow back added =
      let t = record s { forward = f } in
      record {
        owned = λ j. omega (arith, h.owned j, published_same c s t j refl);
        reverse_ok = h.reverse_ok;
        forward_ok = λ k j q. elim (ForwardKey-cases p.flow k) [
          | inl same ↦
              let i_j = same_slot (
                sym (laws.forward_laws.lookup-add s.forward f p.flow i added)
                ∙ ap (known c t) same
                ∙ q) in
              subst
                (λ n.
                  (forward_key (s.addr_table n) ≡ k)
                  × (seen c s (reverse_key (s.addr_table n)) ≡ some n))
                i_j (flow ∙ same, back)
          | inr other ↦
              h.forward_ok k j
                (sym (laws.forward_laws.lookup-add_ne s.forward f p.flow k i added other) ∙ q)
        ];
      }
