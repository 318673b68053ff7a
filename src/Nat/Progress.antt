-- ===== src/Nat/Progress.antt =====
-- The walk over the candidate ports reaches every one of them: a free port is enough.
use fastrg_node.Base.{
  ℕ, zero, suc, ◌≡◌, ◌≢◌, ◌≤◌, ◌<◌, refl, sym, ap, ◌∙◌, ◌⊎◌, subst, inl, inr, [], true, false, none,
  ◌+◌, ◌-◌, ◌%◌, ◌==◌, ne→==, leb, arith, Bool-cases, Option-cases, if◌then◌else◌,
}
use fastrg_node.PortFwd.{ByteOrder}
use fastrg_node.Nat.{Env, IsEnv, State, is_expired, next_nat_port, compute_initial_nat_port}
use fastrg_node.Nat.Slots.{del_keys}
use fastrg_node.Nat.Learning.{
  Packet, flow_key, try_port, walk, learning, same_flow, Turn, next_port,
}
use fastrg_node.Nat.Invariant.{seen, known, IsNat}
use fastrg_node.Nat.Trim.{del_keys-gone}
use fastrg_node.Nat.Room.{HasRoom, Succeeds, insert-Succeeds}
use fastrg_node.Nat.Alloc.{del_keys-ring}
use fastrg_node.Nat.Walk.{IsByteOrder, next_nat_port_lem, Turn-cases}

-- The host port `n` steps after `start`.
abbrev after : ℕ → ℕ → ℕ
after start n = if leb 65536 (start + n) then start + n - 64536 else start + n

-- The number of steps from one host port to another.
abbrev distance : ℕ → ℕ → ℕ
distance start q = if leb start q then q - start else q + 64536 - start

after-distance :
    (start q : ℕ)
    → 1000 ≤ start
    → start < 65536
    → 1000 ≤ q
    → q < 65536
    → (after start (distance start q) ≡ q) × (distance start q < 64536)
after-distance start q a b c d = (ground (arith, a, b, c, d), ground (arith, a, b, c, d))

after_zero : (start : ℕ) → start < 65536 → after start 0 ≡ start
after_zero start h = ground (arith, h)

after_step :
    (start n : ℕ)
    → 1000 ≤ start
    → start < 65536
    → n < 64536
    → (if leb 65536 (after start n + 1) then 1000 else after start n + 1) ≡ after start (n + 1)
after_step start n low high small = ground (arith, low, high, small)

next_nat_port-after :
    (b : ByteOrder) (start n : ℕ)
    → IsByteOrder b
    → 1000 ≤ start
    → start < 65536
    → n < 64536
    → next_nat_port b (b.cpu_to_be_16 (after start n)) ≡ b.cpu_to_be_16 (after start (n + 1))
next_nat_port-after b start n order low high small =
    next_nat_port_lem b (after start n) order (ground (arith, low, high, small))
    ∙ ap b.cpu_to_be_16 (after_step start n low high small)

module _ {R F : Type 0} (c : Env R F) (laws : IsEnv c) (p : Packet) where
  -- A turn gets a port or goes to the next with nothing changed, unless its own port is free.
  Turns : ℕ → State R F → Turn R F → Type 0
  Turns nat_port s t =
      Succeeds c p t
      ⊎ ((t ≡ next_port s)
          × ((((c.port_fwd_table (c.byte_order.be_to_cpu_16 nat_port)).is_active == 1) ≡ true)
              ⊎ (seen c s (flow_key p nat_port) ≢ none)))

  try_port-Turns :
      (nat_port : ℕ) (s : State R F)
      → IsNat c s []
      → s.free_ring ≢ []
      → HasRoom c p s
      → Turns nat_port s (try_port c p nat_port s)
  unfolding try_port Turns
  try_port-Turns nat_port s h ring room =
      elim (Bool-cases ((c.port_fwd_table (c.byte_order.be_to_cpu_16 nat_port)).is_active == 1)) [
        | inl forwarded ↦ rw (try_port, forwarded) (inr (refl, inl refl))
        | inr k ↦ elim (Option-cases (seen c s (flow_key p nat_port))) [
          | inl free ↦
              rw (try_port, k, free) (inl (insert-Succeeds c p nat_port s ring free room.now))
          | inr (i, e) ↦ elim (Bool-cases (same_flow (s.addr_table i) nat_port p.flow)) [
            | inl own ↦ rw (try_port, k, e, own) (inl (λ n. ground (arith, n)))
            | inr other ↦ elim (Bool-cases (is_expired c.clock (s.addr_table i))) [
              | inr live ↦
                  rw (try_port, k, e, other, live) (inr (refl, inr (λ n. ground (arith, n))))
              | inl old ↦
                  rw (try_port, k, e, other, old)
                    (inl (
                      insert-Succeeds c p nat_port ((del_keys c s (s.addr_table i)).0)
                        (λ n. ring (del_keys-ring c s (s.addr_table i) n))
                        (ap (seen c ((del_keys c s (s.addr_table i)).0))
                            (sym ((h.reverse_ok _ i e).0))
                          ∙ del_keys-gone c laws s (s.addr_table i))
                        (room.evicted i)))
            ]
          ]
        ]
      ]

  -- The port may be taken: no rule forwards it and no mapping to the destination has it.
  pub record IsFree (s : State R F) (nat_port : ℕ) : Type 0 where
    pub unforwarded :
        ((c.port_fwd_table (c.byte_order.be_to_cpu_16 nat_port)).is_active == 1) ≡ false
    pub unmapped : seen c s (flow_key p nat_port) ≡ none

  turn_free :
      (nat_port : ℕ) (s : State R F) (t : Turn R F)
      → IsFree s nat_port
      → Turns nat_port s t
      → Succeeds c p t
  unfolding Turns
  turn_free nat_port s t f (inl ok) = ok
  turn_free nat_port s t f (inr (e, inl forwarded)) =
      absurd (ground (arith, forwarded, f.unforwarded))
  turn_free nat_port s t f (inr (e, inr mapped)) = absurd (mapped f.unmapped)

  turn_next :
      (nat_port : ℕ) (s : State R F) (t : Turn R F)
      → Turns nat_port s t
      → Succeeds c p t ⊎ (t ≡ next_port s)
  unfolding Turns
  turn_next nat_port s t (inl ok) = inl ok
  turn_next nat_port s t (inr (e, why)) = inr e

  -- The walk gets to the free port after `k` more steps.
  module _ (order : IsByteOrder c.byte_order) (s : State R F) (h : IsNat c s [])
      (ring : s.free_ring ≢ []) (room : HasRoom c p s) (start q : ℕ) (low : 1000 ≤ start)
      (high : start < 65536) (free : IsFree s (c.byte_order.cpu_to_be_16 q)) where
    abbrev port_at : ℕ → ℕ
    port_at n = c.byte_order.cpu_to_be_16 (after start n)

    port_at_ne :
        (n : ℕ) → 1 ≤ n → n < 64536 → (port_at n == c.byte_order.cpu_to_be_16 start) ≡ false
    port_at_ne n a b = ne→== _ _ (λ e.
        let host : after start n ≡ start =
          sym (order.round (after start n) (ground (arith, low, high, b)))
          ∙ ap c.byte_order.be_to_cpu_16 e
          ∙ order.round start high in
        ground (arith, host, a, b, low, high))

    walk-reaches :
        (k n fuel : ℕ)
        → after start (n + k) ≡ q
        → n + k < 64536
        → k < fuel
        → (walk c p (c.byte_order.cpu_to_be_16 start) fuel (port_at n) s).out_entry ≢ none
    unfolding walk
    walk-reaches k n zero e small less = absurd (omega arith)
    walk-reaches zero n (suc fuel) e small less =
        let here : port_at n ≡ c.byte_order.cpu_to_be_16 q =
          ap c.byte_order.cpu_to_be_16 (ap (after start) (omega arith) ∙ e) in
        let ok =
          turn_free (port_at n) s _ (subst (IsFree s) (sym here) free)
            (try_port-Turns (port_at n) s h ring room) in
        elim (Turn-cases (try_port c p (port_at n) s)) [
          | inl (r, t) ↦ rw (walk, t) (subst (Succeeds c p) t ok)
          | inr (s', t) ↦ absurd (subst (Succeeds c p) t ok)
        ]
    walk-reaches (suc k) n (suc fuel) e small less =
        elim (Turn-cases (try_port c p (port_at n) s)) [
          | inl (r, t) ↦
              elim (turn_next (port_at n) s _ (try_port-Turns (port_at n) s h ring room)) [
                | inl ok ↦ rw (walk, t) (subst (Succeeds c p) t ok)
                | inr t' ↦ absurd (ground (arith, t, t'))
              ]
          | inr (s', t) ↦
              elim (turn_next (port_at n) s _ (try_port-Turns (port_at n) s h ring room)) [
                | inl ok ↦ absurd (subst (Succeeds c p) t ok)
                | inr t' ↦
                    let next =
                      next_nat_port-after c.byte_order start n order low high (omega arith) in
                    let on =
                      ap (λ x. x == c.byte_order.cpu_to_be_16 start) next
                      ∙ port_at_ne (n + 1) (omega arith) (omega arith) in
                    rw (walk, t', on)
                      (subst
                        (λ x.
                          (walk c p (c.byte_order.cpu_to_be_16 start) fuel x s).out_entry ≢ none)
                        (sym next)
                        (walk-reaches k (n + 1) fuel (ap (after start) (omega arith) ∙ e)
                          (omega arith) (omega arith)))
              ]
        ]

  -- Where a slot is free and the two hashes have room for the keys of the packet's flow, as they are
  -- and once the keys of any one entry have been deleted from them, one port in the range that no rule
  -- forwards and that no mapping to the packet's destination has is enough for
  -- nat_learning_port_reuse to return an entry.
  pub learning-progress :
      (s : State R F) (q : ℕ)
      → IsByteOrder c.byte_order
      → IsNat c s []
      → s.free_ring ≢ []
      → HasRoom c p s
      → 1000 ≤ q
      → q < 65536
      → IsFree s (c.byte_order.cpu_to_be_16 q)
      → (learning c p s).out_entry ≢ none
  unfolding learning compute_initial_nat_port
  learning-progress s q order h ring room low high free = elim (Option-cases (known c s p.flow)) [
    | inr (i, e) ↦ rw (learning, e) (λ n. ground (arith, n))
    | inl new ↦
        let start =
          c.crc_4byte p.flow.src_port (c.crc_4byte p.flow.src_ip 0) % 65536 % 64536 + 1000 in
        let there = after-distance start q (omega arith) (omega arith) low high in
        rw (learning, new)
          (subst
            (λ n.
              (walk c p (c.byte_order.cpu_to_be_16 start) 64536 (c.byte_order.cpu_to_be_16 n)
                s).out_entry
              ≢ none)
            (after_zero start (omega arith))
            (walk-reaches order s h ring room start q (omega arith) (omega arith) free
              (distance start q) 0 64536 (ap (after start) (omega arith) ∙ there.0)
              (omega (arith, there.1)) there.1))
  ]
