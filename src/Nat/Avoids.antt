-- ===== src/Nat/Avoids.antt =====
-- Which keys nat_learning_port_reuse adds.
use fastrg_node.Base.{
  ℕ, ◌≡◌, refl, sym, ap, ◌∙◌, ◌⊎◌, subst, inl, inr, [], Bool, false, Option, none, some, ◌==◌,
  arith, Bool-cases, Option-cases,
}
use fastrg_node.Nat.{
  ReverseKey, Env, IsEnv, State, at_add, refresh, is_expired, compute_initial_nat_port,
}
use fastrg_node.Nat.Slots.{call_back, slot_alloc}
use fastrg_node.Nat.Learning.{
  Packet, flow_key, fill, give_back, publish, allocated, insert, try_port, learning, same_flow,
  Turn, returned, next_port,
}
use fastrg_node.Nat.Invariant.{seen, known, IsNat}
use fastrg_node.Nat.Keys.{ReverseKey-cases}
use fastrg_node.Nat.Trim.{IsTrim, call_back-IsTrim, del_reverse-IsTrim}
use fastrg_node.Nat.Gc.{del_keys-Kept}
use fastrg_node.Nat.Alloc.{Alloc, Calm, slot_alloc-Alloc, del_keys-Calm}
use fastrg_node.Nat.Insert.{Ready, Outcome, try_port-Outcome}
use fastrg_node.Nat.Walk.{InRange, IsByteOrder, walk_induct, Ends, compute_initial_nat_port-InRange}

module _ {R F : Type 0} where
  -- A key leads to a slot that it led to before, or is that of the packet at the port.
  Gains : Env R F → Packet → ℕ → State R F → State R F → Type 0
  Gains c p nat_port s t =
      (k : ReverseKey) (i : ℕ)
      → seen c t k ≡ some i
      → (seen c s k ≡ some i) ⊎ (k ≡ flow_key p nat_port)

  trim-kept :
      (c : Env R F) (s t : State R F) (k : ReverseKey) (i : ℕ)
      → IsTrim c s t
      → seen c t k ≡ some i
      → seen c s k ≡ some i
  trim-kept c s t k i h e = elim (h.reverse_less k) [
    | inl gone ↦ absurd (ground (arith, gone, e))
    | inr same ↦ sym same ∙ e
  ]

  trim-Gains :
      (c : Env R F) (p : Packet) (nat_port : ℕ) (r s t : State R F)
      → IsTrim c r s
      → Gains c p nat_port s t
      → Gains c p nat_port r t
  unfolding Gains
  trim-Gains c p nat_port r s t h g k i e = elim (g k i e) [
    | inl old ↦ inl (trim-kept c r s k i h old)
    | inr new ↦ inr new
  ]

  Gains-refl : (c : Env R F) (p : Packet) (nat_port : ℕ) (s : State R F) → Gains c p nat_port s s
  unfolding Gains
  Gains-refl c p nat_port s k i e = inl e

  refresh-Gains :
      (c : Env R F) (p : Packet) (nat_port : ℕ) (s : State R F) (i : ℕ)
      → Gains c p nat_port s (refresh c s i)
  unfolding Gains refresh
  refresh-Gains c p nat_port s i k j e = inl e

  abbrev after_turn : Turn R F → State R F
  after_turn (returned r) = r.state
  after_turn (next_port s) = s

module _ {R F : Type 0} (c : Env R F) (laws : IsEnv c) (p : Packet) (nat_port : ℕ) where
  abbrev Adds : State R F → Turn R F → Type 0
  Adds s t = Gains c p nat_port s (after_turn t)

  added-Gains :
      (s : State R F) (r : R) (i : ℕ)
      → c.reverse_hash.add s.reverse (flow_key p nat_port) i ≡ some r
      → Gains c p nat_port s (record s { reverse = r })
  unfolding Gains
  added-Gains s r i added k j e = elim (ReverseKey-cases (flow_key p nat_port) k) [
    | inl same ↦ inr (sym same)
    | inr other ↦ inl (sym (laws.reverse_laws.lookup-add_ne s.reverse r _ k i added other) ∙ e)
  ]

  trimmed-Gains :
      (s t u : State R F) → Gains c p nat_port s t → IsTrim c t u → Gains c p nat_port s u
  unfolding Gains
  trimmed-Gains s t u g h k i e = g k i (trim-kept c t u k i h e)

  publish-Adds : (s : State R F) (i : ℕ) → Adds s (publish c p nat_port s i)
  unfolding publish give_back Gains
  publish-Adds s i = elim (Option-cases (c.reverse_hash.add s.reverse (flow_key p nat_port) i)) [
    | inl full ↦ rw (publish, full) (λ k j e. inl e)
    | inr (r, added) ↦ elim (Option-cases (c.forward_hash.add s.forward p.flow i)) [
      | inl full ↦
          rw (publish, added, full)
            (trimmed-Gains s (record s { reverse = r }) _ (added-Gains s r i added)
              (del_reverse-IsTrim c laws _ _))
      | inr (f, linked) ↦ rw (publish, added, linked) (added-Gains s r i added)
    ]
  ]

  allocated-Adds :
      (s : State R F) (r : State R F × Option ℕ) → Alloc c s r → Adds s (allocated c p nat_port r)
  unfolding allocated fill Gains
  allocated-Adds s (t, none) h k i e = inl (trim-kept c s t k i h.trim e)
  allocated-Adds s (t, some i) h k i' e' =
      let u = fill c p nat_port t i in
      let w = call_back c at_add u in
      let last = after_turn (publish c p nat_port w i) in
      trim-Gains c p nat_port s t last h.trim
        (λ k j e.
          trim-Gains c p nat_port u w last (call_back-IsTrim c at_add u) (publish-Adds w i) k j e)
        k i' e'

  insert-Adds : (s : State R F) → IsNat c s [] → Calm c s → Adds s (insert c p nat_port s)
  unfolding insert
  insert-Adds s h calm = elim (Option-cases (known c s p.flow)) [
    | inr (i, e) ↦ rw (insert, e) (refresh-Gains c p nat_port s i)
    | inl new ↦ elim (Option-cases (seen c s (flow_key p nat_port))) [
      | inr (i, e) ↦ elim (Bool-cases (same_flow (s.addr_table i) nat_port p.flow)) [
        | inl own ↦ rw (insert, new, e, own) (refresh-Gains c p nat_port s i)
        | inr other ↦ rw (insert, new, e, other) (Gains-refl c p nat_port s)
      ]
      | inl free ↦
          rw (insert, new, free)
            (allocated-Adds s (slot_alloc c s) (slot_alloc-Alloc c laws s h calm))
    ]
  ]

  abbrev forwarded : Bool
  forwarded = (c.port_fwd_table (c.byte_order.be_to_cpu_16 nat_port)).is_active == 1

  try_port-Adds :
      (s : State R F)
      → IsNat c s []
      → Calm c s
      → (try_port c p nat_port s ≡ next_port s)
        ⊎ ((forwarded ≡ false) × Adds s (try_port c p nat_port s))
  unfolding try_port
  try_port-Adds s h calm = elim (Bool-cases forwarded) [
    | inl used ↦ rw (try_port, used) (inl refl)
    | inr k ↦ elim (Option-cases (seen c s (flow_key p nat_port))) [
      | inl free ↦ rw (try_port, k, free) (inr (refl, insert-Adds s h calm))
      | inr (i, e) ↦ elim (Bool-cases (same_flow (s.addr_table i) nat_port p.flow)) [
        | inl own ↦ rw (try_port, k, e, own) (inr (refl, refresh-Gains c p nat_port s i))
        | inr other ↦ elim (Bool-cases (is_expired c.clock (s.addr_table i))) [
          | inr live ↦ rw (try_port, k, e, other, live) (inl refl)
          | inl old ↦
              let gone =
                del_keys-Kept c laws [] s i h (inr (ap (seen c s) ((h.reverse_ok _ i e).0) ∙ e)) in
              rw (try_port, k, e, other, old)
                (inr (
                  refl,
                  trim-Gains c p nat_port s _ _ gone.trim
                      (insert-Adds _ gone.table (del_keys-Calm c laws s _ calm)),
                ))
        ]
      ]
    ]
  ]

module _ {R F : Type 0} (c : Env R F) (laws : IsEnv c) (order : IsByteOrder c.byte_order)
    (p : Packet) (s : State R F) where
  -- A key with its slot is old, or it is that of the packet with a port in range that no rule forwards.
  pub Allowed : ReverseKey → ℕ → Type 0
  Allowed k i =
      (seen c s k ≡ some i)
      ⊎ ((k ≡ flow_key p k.nat_port)
          × InRange c.byte_order k.nat_port
          × (forwarded c laws p k.nat_port ≡ false))

  abbrev AllAllowed : State R F → Type 0
  AllAllowed t = (k : ReverseKey) (i : ℕ) → seen c t k ≡ some i → Allowed k i

  Adds-Allowed :
      (nat_port : ℕ) (t u : State R F)
      → InRange c.byte_order nat_port
      → forwarded c laws p nat_port ≡ false
      → AllAllowed t
      → Gains c p nat_port t u
      → AllAllowed u
  unfolding Gains Allowed
  Adds-Allowed nat_port t u r open_port old g k i e = elim (g k i e) [
    | inl before ↦ old k i before
    | inr new ↦
        let port : k.nat_port ≡ nat_port = ap (λ x. x.nat_port) new in
        inr (
          new ∙ ap (flow_key p) (sym port),
          subst (InRange c.byte_order) (sym port) r,
          ap (forwarded c laws p) port ∙ open_port,
        )
  ]

  record Turning (t : State R F) : Type 0 where
    ready : Ready c p t
    allowed : AllAllowed t

  turn_allowed :
      (t : Turn R F)
      → Outcome c p t
      → AllAllowed (after_turn t)
      → Ends c p Turning (λ r. AllAllowed r.state) t
  turn_allowed (returned r) o h = h
  turn_allowed (next_port t) o h = record { ready = o; allowed = h }

  try_port-Allowed :
      (nat_port : ℕ) (t : State R F)
      → InRange c.byte_order nat_port
      → Turning t
      → AllAllowed (after_turn (try_port c p nat_port t))
  try_port-Allowed nat_port t r h =
      elim (try_port-Adds c laws p nat_port t h.ready.table h.ready.calm) [
        | inl e ↦ subst (λ u. AllAllowed (after_turn u)) (sym e) h.allowed
        | inr (open_port, g) ↦
            Adds-Allowed nat_port t (after_turn (try_port c p nat_port t)) r open_port h.allowed g
      ]

  refreshed : (i : ℕ) → AllAllowed (refresh c s i)
  unfolding refresh Allowed
  refreshed i k j e = inl e

  -- In a well-formed table, which is settled if the ring is empty, every reverse key that leads to a
  -- slot after nat_learning_port_reuse led to that slot before, or it is the key of the packet's
  -- destination at a port in the range from 1000 up that no rule forwards.
  pub learning-Allowed :
      IsNat c s []
      → Calm c s
      → (k : ReverseKey) (i : ℕ) → seen c (learning c p s).state k ≡ some i
      → Allowed k i
  unfolding learning Allowed
  learning-Allowed h calm = elim (Option-cases (known c s p.flow)) [
    | inr (i, e) ↦ rw (learning, e) (refreshed i)
    | inl new ↦
        let start = compute_initial_nat_port c p.flow.src_ip p.flow.src_port in
        rw (learning, new)
          (walk_induct c p Turning (λ r. AllAllowed r.state)
            (λ nat_port t r q.
              turn_allowed (try_port c p nat_port t)
                (try_port-Outcome c laws p nat_port t q.ready.table q.ready.calm)
                (try_port-Allowed nat_port t r q))
            (λ t q. q.allowed) start 64536 start s order
            (compute_initial_nat_port-InRange c p.flow.src_ip p.flow.src_port)
            (record { ready = record { table = h; calm = calm }; allowed = λ k i e. inl e }))
  ]
