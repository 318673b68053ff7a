-- ===== src/Nat/Room.antt =====
-- A free slot and room in the two hashes are enough to publish a mapping in src/pppd/nat.h.
use fastrg_node.Base.{
  ℕ, ◌≡◌, ◌≢◌, refl, sym, subst, inl, inr, List, [], ◌∷◌, none, arith, Option-cases, take,
}
use fastrg_node.Nat.{Env, State, Site, at_add}
use fastrg_node.Nat.Slots.{
  del_keys, slot_alloc, slot_alloc_from, dequeue, free_cb, free_all, call_back,
}
use fastrg_node.Nat.Learning.{
  Packet, flow_key, fill, publish, allocated, insert, Turn, returned, next_port,
}
use fastrg_node.Nat.Invariant.{seen, known}

-- The callback works on the entries and the ring only.
free_all-tables :
    {R F : Type 0}
    → (c : Env R F) (s : State R F) (is : List ℕ)
    → ((free_all c s is).reverse ≡ s.reverse) × ((free_all c s is).forward ≡ s.forward)
unfolding free_all free_cb
free_all-tables c s [] = (refl, refl)
free_all-tables c s (i ∷ is) = free_all-tables c (free_cb c s i) is

call_back-tables :
    {R F : Type 0}
    → (c : Env R F) (site : Site) (s : State R F)
    → ((call_back c site s).reverse ≡ s.reverse) × ((call_back c site s).forward ≡ s.forward)
unfolding call_back
call_back-tables c site s = free_all-tables c _ (take (c.quiescent site s.deferred) s.deferred)

-- These two tables have room for the two keys of the packet's flow.
pub record Takes {R F : Type 0} (c : Env R F) (p : Packet) (r : R) (f : F) : Type 0 where
  pub reverse_room : (nat_port i : ℕ) → c.reverse_hash.add r (flow_key p nat_port) i ≢ none
  pub forward_room : (i : ℕ) → c.forward_hash.add f p.flow i ≢ none

abbrev StateTakes : {R F : Type 0} → Env R F → Packet → State R F → Type 0
StateTakes c p s = Takes c p s.reverse s.forward

-- The hashes have room for them now, and still once the keys of some entry have been deleted.
pub record HasRoom {R F : Type 0} (c : Env R F) (p : Packet) (s : State R F) : Type 0 where
  pub now : Takes c p s.reverse s.forward
  pub evicted :
      (i : ℕ)
      → Takes c p
          ((del_keys c s (s.addr_table i)).0.reverse)
          ((del_keys c s (s.addr_table i)).0.forward)

module _ {R F : Type 0} (c : Env R F) (p : Packet) where
  abbrev pub Succeeds : Turn R F → Type 0
  Succeeds (returned r) = r.out_entry ≢ none
  Succeeds (next_port s) = ⊥

  publish-Succeeds :
      (nat_port : ℕ) (s : State R F) (i : ℕ)
      → StateTakes c p s
      → Succeeds (publish c p nat_port s i)
  unfolding publish
  publish-Succeeds nat_port s i room =
      elim (Option-cases (c.reverse_hash.add s.reverse (flow_key p nat_port) i)) [
        | inl full ↦ absurd (room.reverse_room nat_port i full)
        | inr (r, added) ↦ elim (Option-cases (c.forward_hash.add s.forward p.flow i)) [
          | inl full ↦ absurd (room.forward_room i full)
          | inr (f, linked) ↦ rw (publish, added, linked) (λ e. ground (arith, e))
        ]
      ]

  allocated-Succeeds :
      (nat_port : ℕ) (s : State R F) (ring : List ℕ)
      → ring ≢ []
      → StateTakes c p s
      → Succeeds (allocated c p nat_port (slot_alloc_from c s ring))
  unfolding allocated slot_alloc_from dequeue fill
  allocated-Succeeds nat_port s [] h room = absurd (h refl)
  allocated-Succeeds nat_port s (i ∷ ring) h room =
      let filled = fill c p nat_port (record s { free_ring = ring }) i in
      let kept = call_back-tables c at_add filled in
      publish-Succeeds nat_port (call_back c at_add filled) i (
        subst (λ r. Takes c p r ((call_back c at_add filled).forward)) (sym kept.0)
          (subst (λ f. Takes c p s.reverse f) (sym kept.1) room))

  pub insert-Succeeds :
      (nat_port : ℕ) (s : State R F)
      → s.free_ring ≢ []
      → seen c s (flow_key p nat_port) ≡ none
      → StateTakes c p s
      → Succeeds (insert c p nat_port s)
  unfolding insert slot_alloc
  insert-Succeeds nat_port s h free room = elim (Option-cases (known c s p.flow)) [
    | inr (i, e) ↦ rw (insert, e) (λ k. ground (arith, k))
    | inl new ↦ rw (insert, new, free) (allocated-Succeeds nat_port s s.free_ring h room)
  ]
