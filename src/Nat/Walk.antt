-- ===== src/Nat/Walk.antt =====
-- The walk over the candidate ports: what each turn keeps, the loop keeps.
use fastrg_node.Base.{
  ℕ, zero, suc, ◌≡◌, ◌≤◌, ◌<◌, refl, sym, ap, ◌∙◌, ◌⊎◌, subst, inl, inr, [], false, some, ◌+◌, ◌*◌,
  ◌^◌, ◌%◌, ◌==◌, ltb, leb, arith, Bool-cases, Option-cases, if◌then◌else◌,
}
use fastrg_node.PortFwd.{ByteOrder}
use fastrg_node.Nat.{
  ReverseKey, Env, IsEnv, State, forward_key, expire, next_nat_port, compute_initial_nat_port,
}
use fastrg_node.Nat.Learning.{
  Packet, flow_key, try_port, walk, learning, failed, Learned, Turn, returned, next_port,
  reverse_lookup,
}
use fastrg_node.Nat.Invariant.{seen, known, IsNat}
use fastrg_node.Nat.Keys.{same_slot}
use fastrg_node.Nat.Alloc.{Calm}
use fastrg_node.Nat.Insert.{
  Sound, Ready, failed-Sound, found-Sound, try_port-Outcome, no_port, a_port,
}

-- The candidate ports are those from 1000 up, in network byte order.
pub record InRange (b : ByteOrder) (nat_port : ℕ) : Type 0 where
  pub host : ℕ
  pub low : 1000 ≤ host
  pub high : host < 65536
  pub stored : nat_port ≡ b.cpu_to_be_16 host

-- What DPDK documents of its byte-order conversions.
pub record IsByteOrder (b : ByteOrder) : Type 0 where
  pub round : (x : ℕ) → x < 65536 → b.be_to_cpu_16 (b.cpu_to_be_16 x) ≡ x

pub next_nat_port_lem :
    (b : ByteOrder) (host : ℕ)
    → IsByteOrder b
    → host < 65536
    → next_nat_port b (b.cpu_to_be_16 host)
      ≡ b.cpu_to_be_16 (if leb 65536 (host + 1) then 1000 else host + 1)
unfolding next_nat_port
next_nat_port_lem b host order h =
    ap (λ h. b.cpu_to_be_16 (if leb 65536 (h + 1) then 1000 else h + 1)) (order.round host h)

pub next_nat_port-InRange :
    (b : ByteOrder) (nat_port : ℕ)
    → IsByteOrder b
    → InRange b nat_port
    → InRange b (next_nat_port b nat_port)
next_nat_port-InRange b nat_port order r = record {
  host = if leb 65536 (r.host + 1) then 1000 else r.host + 1;
  low = ground (arith, r.low);
  high = ground (arith, r.high);
  stored = ap (next_nat_port b) r.stored ∙ next_nat_port_lem b r.host order r.high;
}

-- The walk starts at a candidate.
pub compute_initial_nat_port-InRange :
    {R F : Type 0} (c : Env R F) (src_ip src_port : ℕ)
    → InRange c.byte_order (compute_initial_nat_port c src_ip src_port)
unfolding compute_initial_nat_port
compute_initial_nat_port-InRange c src_ip src_port = record {
  host = c.crc_4byte src_port (c.crc_4byte src_ip 0) % 65536 % 64536 + 1000;
  low = omega arith;
  high = omega arith;
  stored = refl;
}

pub Turn-cases :
    {R F : Type 0} (t : Turn R F)
    → ((r : Learned R F) × (t ≡ returned r)) ⊎ ((s : State R F) × (t ≡ next_port s))
Turn-cases (returned r) = inl (r, refl)
Turn-cases (next_port s) = inr (s, refl)

module _ {R F : Type 0} (c : Env R F) (p : Packet) (P : State R F → Type 0)
    (Q : Learned R F → Type 0) where
  abbrev pub Ends : Turn R F → Type 0
  Ends (returned r) = Q r
  Ends (next_port s) = P s

  -- What holds of the state at every turn gives what holds of the result.
  pub walk_induct :
      ((nat_port : ℕ) (s : State R F)
        → InRange c.byte_order nat_port
        → P s
        → Ends (try_port c p nat_port s))
      → ((s : State R F) → P s → Q (failed s))
      → (start fuel nat_port : ℕ) (s : State R F) → IsByteOrder c.byte_order
      → InRange c.byte_order nat_port
      → P s
      → Q (walk c p start fuel nat_port s)
  unfolding walk
  walk_induct turn fail start zero nat_port s order r h = fail s h
  walk_induct turn fail start (suc fuel) nat_port s order r h =
      let q = turn nat_port s r h in
      elim (Turn-cases (try_port c p nat_port s)) [
        | inl (l, e) ↦ rw (walk, e) (subst Ends e q)
        | inr (s', e) ↦ elim (Bool-cases (next_nat_port c.byte_order nat_port == start)) [
          | inl k ↦ rw (walk, e, k) (fail s' (subst Ends e q))
          | inr k ↦
              rw (walk, e, k)
                (walk_induct turn fail start fuel (next_nat_port c.byte_order nat_port) s' order
                  (next_nat_port-InRange c.byte_order nat_port order r) (subst Ends e q))
        ]
      ]

le→ltb_false : (a b : ℕ) → a ≤ b → ltb b a ≡ false
le→ltb_false a b h = ground (arith, h)

-- A reply under a key that leads to a live entry finds it.
reverse_lookup_hit :
    {R F : Type 0} (c : Env R F) (s : State R F) (key : ReverseKey) (i : ℕ)
    → seen c s key ≡ some i
    → c.clock.cur_cycles ≤ expire (s.addr_table i)
    → (reverse_lookup c s key).1 ≡ some i
unfolding reverse_lookup
reverse_lookup_hit c s key i e h =
    rw (reverse_lookup, e, le→ltb_false c.clock.cur_cycles (expire (s.addr_table i)) h) refl

module _ {R F : Type 0} (c : Env R F) (laws : IsEnv c) (order : IsByteOrder c.byte_order)
    (p : Packet) where
  -- In a well-formed table, which is settled if the ring is empty, nat_learning_port_reuse leaves a
  -- well-formed table and returns 0 and no entry, or an entry of the packet's flow that the returned
  -- port and the destination lead back to and that does not expire for nine seconds, where the
  -- cycle counter does not overflow by then.
  pub learning-Sound : (s : State R F) → IsNat c s [] → Calm c s → Sound c p (learning c p s)
  unfolding learning
  learning-Sound s h calm = elim (Option-cases (known c s p.flow)) [
    | inr (i, e) ↦
        let (flow, back) = h.forward_ok p.flow i e in
        rw (learning, e)
          (found-Sound c p s i ((s.addr_table i).nat_port) h
            (ap
                (λ f. seen c s (record {
                  dst_ip = f.dst_ip;
                  nat_port = (s.addr_table i).nat_port;
                  dst_port = f.dst_port;
                }))
                (sym flow)
              ∙ back)
            flow)
    | inl new ↦
        let start = compute_initial_nat_port c p.flow.src_ip p.flow.src_port in
        rw (learning, new)
          (walk_induct c p (Ready c p) (Sound c p)
            (λ nat_port t r q. try_port-Outcome c laws p nat_port t q.table q.calm)
            (λ t q. failed-Sound c p t q.table) start 64536 start s order
            (compute_initial_nat_port-InRange c p.flow.src_ip p.flow.src_port)
            (record { table = h; calm = calm }))
  ]

  -- A reply that comes within nine seconds of learning a port, from the address and port that the
  -- packet went to, finds the entry of the packet's flow.
  pub reverse_lookup-learning :
      (s : State R F) (later : Env R F) (i : ℕ)
      → IsNat c s []
      → Calm c s
      → (learning c p s).out_entry ≡ some i
      → later.reverse_hash ≡ c.reverse_hash
      → c.clock.cur_cycles + 10 * c.clock.cycles_in_sec < 2 ^ 64
      → later.clock.cur_cycles ≤ c.clock.cur_cycles + 9 * c.clock.cycles_in_sec
      → ((reverse_lookup later (learning c p s).state (flow_key p (learning c p s).port)).1
          ≡ some i)
        × (forward_key ((learning c p s).state.addr_table i) ≡ p.flow)
  reverse_lookup-learning s later i h calm e same small soon =
      elim ((learning-Sound s h calm).answer) [
        | no_port z n ↦ absurd (ground (arith, e, n))
        | a_port j out l ↦
            let j_i : j ≡ i = same_slot (sym out ∙ e) in
            let back =
              ap (λ t. t.lookup (learning c p s).state.reverse (flow_key p (learning c p s).port))
                same
              ∙ l.back
              ∙ ap some j_i in
            let timer = ap (λ n. expire ((learning c p s).state.addr_table n)) j_i in
            (
              reverse_lookup_hit later _ _ i back (omega (arith, l.lasts small, timer)),
              ap (λ n. forward_key ((learning c p s).state.addr_table n)) (sym j_i) ∙ l.flow,
            )
      ]
