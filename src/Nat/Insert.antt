-- ===== src/Nat/Insert.antt =====
-- One turn of the loop of nat_learning_port_reuse: what it leaves and what it returns.
use fastrg_node.Base.{
  ℕ, ◌≡◌, ◌≤◌, ◌<◌, refl, sym, ap, ◌∙◌, inl, inr, [], ◌∷◌, true, false, Option, none, some, ◌+◌,
  ◌*◌, ◌^◌, ◌==◌, arith, Bool-cases, Option-cases,
}
use fastrg_node.Conntrack.{View, Clock, nat_expire_refresh, nat_expire_set}
use fastrg_node.Nat.{
  Entry, at_add, Env, IsEnv, State, reverse_key, forward_key, refresh, is_expired, expire,
  expiry_cycles,
}
use fastrg_node.Nat.Count.{count_self}
use fastrg_node.Nat.Slots.{call_back, slot_alloc}
use fastrg_node.Nat.Learning.{
  Packet, flow_key, fresh_entry, fill, give_back, publish, allocated, insert, try_port, same_flow,
  failed, found, Learned, Turn, returned, next_port,
}
use fastrg_node.Nat.Invariant.{put_self, seen, known, IsNat, held_free}
use fastrg_node.Nat.Reclaim.{keep-IsNat, to_ring-IsNat, call_back-IsNat}
use fastrg_node.Nat.Keys.{same_slot, del_reverse-IsNat}
use fastrg_node.Nat.Trim.{
  IsTrim, seen_stays_none, known_stays_none, call_back-IsTrim, refresh-IsTrim,
}
use fastrg_node.Nat.Gc.{del_keys-Kept}
use fastrg_node.Nat.Alloc.{
  Alloc, Calm, del_keys-Calm, enqueue-nonempty, slot_alloc-Alloc, refresh-Kept,
}
use fastrg_node.Nat.Publish.{call_back-held, fill-IsNat, IsFilled, shown-IsNat, linked-IsNat}

-- The deadline lasts for nine seconds: a refresh that is skipped comes at most one second short.
pub Lasts : Clock → Entry → Type 0
Lasts clock e =
    (clock.cur_cycles + 10 * clock.cycles_in_sec < 2 ^ 64)
    → clock.cur_cycles + 9 * clock.cycles_in_sec ≤ expire e

refresh_lasts :
    (clock : Clock) (v : View)
    → clock.cur_cycles + 10 * clock.cycles_in_sec < 2 ^ 64
    → clock.cur_cycles + 9 * clock.cycles_in_sec
      ≤ (nat_expire_refresh clock (expiry_cycles clock) v).expire
unfolding nat_expire_refresh
refresh_lasts clock v h = ground (arith, h)

-- The test of nat_entry_same_flow on the entry under the key.
pub same_flow_lem :
    (p : Packet) (e : Entry) (nat_port : ℕ)
    → same_flow e nat_port p.flow ≡ true
    → forward_key e ≡ p.flow
unfolding same_flow
same_flow_lem p e nat_port h = ground (arith, h)

module _ {R F : Type 0} (c : Env R F) (p : Packet) where
  -- The port leads back to an entry of the packet's flow.
  pub record IsLearned (s : State R F) (nat_port i : ℕ) : Type 0 where
    pub back : seen c s (flow_key p nat_port) ≡ some i
    pub flow : forward_key (s.addr_table i) ≡ p.flow
    pub lasts :
        c.clock.cur_cycles + 10 * c.clock.cycles_in_sec < 2 ^ 64
        → c.clock.cur_cycles + 9 * c.clock.cycles_in_sec ≤ expire (s.addr_table i)

  pub data Answer (r : Learned R F) : Type 0 where
    no_port : r.port ≡ 0 → r.out_entry ≡ none → Answer r
    a_port : (i : ℕ) → r.out_entry ≡ some i → IsLearned r.state r.port i → Answer r

  pub record Sound (r : Learned R F) : Type 0 where
    pub table : IsNat c r.state []
    pub answer : Answer r

  pub record Ready (s : State R F) : Type 0 where
    pub table : IsNat c s []
    pub calm : Calm c s

  abbrev pub Outcome : Turn R F → Type 0
  Outcome (returned r) = Sound r
  Outcome (next_port s) = Ready s

  pub failed-Sound : (s : State R F) → IsNat c s [] → Sound (failed s)
  failed-Sound s h = record {
    table =
        keep-IsNat c s _ [] [] h (λ k. refl) (λ k. refl)
          (λ i. record { same_forward = refl; same_reverse = refl }) (λ i q live. live) (λ i. refl);
    answer = no_port refl refl;
  }

  pub found-Sound :
      (s : State R F) (i nat_port : ℕ)
      → IsNat c s []
      → seen c s (flow_key p nat_port) ≡ some i
      → forward_key (s.addr_table i) ≡ p.flow
      → Sound (found c s i nat_port)
  unfolding refresh
  found-Sound s i nat_port h back flow = record {
    table = (refresh-Kept c s i [] h).table;
    answer = a_port i refl (record {
      back = back;
      flow = ((refresh-IsTrim c s i).same_keys i).same_forward ∙ flow;
      lasts = λ small. omega (
        arith,
        refresh_lasts c.clock ((s.addr_table i).track) small,
        ap expire (put_self i _ s.addr_table),
      );
    });
  }

module _ {R F : Type 0} (c : Env R F) (laws : IsEnv c) (p : Packet) (nat_port : ℕ) where
  -- A slot that is not published goes back to the ring.
  give_back-Ready : (s : State R F) (i : ℕ) → IsNat c s (i ∷ []) → Ready c p (give_back c s i)
  unfolding give_back
  give_back-Ready s i h = record {
    table =
        to_ring-IsNat c s i [] (record (s.addr_table i) { is_ready = false }) h
          (record { same_forward = refl; same_reverse = refl });
    calm = λ empty. absurd (enqueue-nonempty c s i h empty);
  }

  publish-Outcome :
      (s : State R F) (i : ℕ)
      → IsNat c s (i ∷ [])
      → IsFilled c s p nat_port i
      → expire (s.addr_table i) ≡ expiry_cycles c.clock
      → seen c s (flow_key p nat_port) ≡ none
      → known c s p.flow ≡ none
      → Outcome c p (publish c p nat_port s i)
  unfolding publish
  publish-Outcome s i h f timer free new =
      elim (Option-cases (c.reverse_hash.add s.reverse (flow_key p nat_port) i)) [
        | inl full ↦ rw (publish, full) (give_back-Ready s i h)
        | inr (r, added) ↦
            let shown = shown-IsNat c laws p nat_port s i r h f free added in
            let back = laws.reverse_laws.lookup-add s.reverse r _ i added in
            elim (Option-cases (c.forward_hash.add s.forward p.flow i)) [
              | inl full ↦
                  rw (publish, added, full)
                    (failed-Sound c p _ (
                      del_reverse-IsNat c laws _ [] _ shown λ j q g k.
                        held_free c s (i ∷ []) h i (count_self i []) _
                          ((h.forward_ok g j k).1 ∙ ap some (same_slot (sym q ∙ back)))))
              | inr (t, linked) ↦
                  rw (publish, added, linked)
                    (record {
                      table =
                          linked-IsNat c laws p nat_port (record s { reverse = r }) i t shown f.flow
                            (ap (seen c (record s { reverse = r })) f.key ∙ back) linked;
                      answer = a_port i refl (record {
                        back = back;
                        flow = f.flow;
                        lasts = λ small. omega (arith, timer);
                      });
                    })
            ]
      ]

  fill_self :
      (t : State R F) (i : ℕ)
      → (fill c p nat_port t i).addr_table i ≡ fresh_entry c p nat_port ((t.addr_table i).track)
  unfolding fill
  fill_self t i = put_self i _ t.addr_table

  timer : (v : View) → expire (fresh_entry c p nat_port v) ≡ expiry_cycles c.clock
  unfolding fresh_entry nat_expire_set
  timer v = refl

  filled_lem :
      (s : State R F) (i : ℕ) (v : View)
      → s.addr_table i ≡ fresh_entry c p nat_port v
      → IsFilled c s p nat_port i
  unfolding fresh_entry
  filled_lem s i v e = record {
    flow = ap forward_key e;
    key = ap reverse_key e;
    live = ap (λ x. x.is_ready) e;
  }

  -- The slot that was allocated is filled, which the callback leaves alone, and published.
  allocated-Outcome :
      (s : State R F) (r : State R F × Option ℕ)
      → Alloc c s r
      → seen c s (flow_key p nat_port) ≡ none
      → known c s p.flow ≡ none
      → Outcome c p (allocated c p nat_port r)
  unfolding allocated fill
  allocated-Outcome s (t, none) h free new = failed-Sound c p t h.table
  allocated-Outcome s (t, some i) h free new =
      let u = fill c p nat_port t i in
      let filled : IsNat c u (i ∷ []) = fill-IsNat c p nat_port t i h.table in
      let w = call_back c at_add u in
      let same : w.addr_table i ≡ fresh_entry c p nat_port ((t.addr_table i).track) =
        call_back-held c at_add u i filled ∙ fill_self t i in
      let trim : IsTrim c u w = call_back-IsTrim c at_add u in
      publish-Outcome w i (call_back-IsNat c at_add u (i ∷ []) filled)
        (filled_lem w i ((t.addr_table i).track) same)
        (ap expire same ∙ timer ((t.addr_table i).track))
        (seen_stays_none c u w _ trim (seen_stays_none c s t _ h.trim free))
        (known_stays_none c u w _ trim (known_stays_none c s t _ h.trim new))

  -- The part under the lock.
  insert-Outcome : (s : State R F) → IsNat c s [] → Calm c s → Outcome c p (insert c p nat_port s)
  unfolding insert
  insert-Outcome s h calm = elim (Option-cases (known c s p.flow)) [
    | inr (i, e) ↦
        let (flow, back) = h.forward_ok p.flow i e in
        rw (insert, e)
          (found-Sound c p s i ((s.addr_table i).nat_port) h
            (ap
                (λ f. seen c s (record {
                  dst_ip = f.dst_ip;
                  nat_port = (s.addr_table i).nat_port;
                  dst_port = f.dst_port;
                }))
                (sym flow)
              ∙ back)
            flow)
    | inl new ↦ elim (Option-cases (seen c s (flow_key p nat_port))) [
      | inr (i, e) ↦ elim (Bool-cases (same_flow (s.addr_table i) nat_port p.flow)) [
        | inl own ↦
            rw (insert, new, e, own) (found-Sound c p s i nat_port h e (same_flow_lem p _ _ own))
        | inr other ↦ rw (insert, new, e, other) (record { table = h; calm = calm })
      ]
      | inl free ↦
          rw (insert, new, free)
            (allocated-Outcome s (slot_alloc c s) (slot_alloc-Alloc c laws s h calm) free new)
    ]
  ]

  -- One turn of the loop.
  pub try_port-Outcome :
      (s : State R F) → IsNat c s [] → Calm c s → Outcome c p (try_port c p nat_port s)
  unfolding try_port
  try_port-Outcome s h calm =
      elim (Bool-cases ((c.port_fwd_table (c.byte_order.be_to_cpu_16 nat_port)).is_active == 1)) [
        | inl forwarded ↦ rw (try_port, forwarded) (record { table = h; calm = calm })
        | inr k ↦ elim (Option-cases (seen c s (flow_key p nat_port))) [
          | inl free ↦ rw (try_port, k, free) (insert-Outcome s h calm)
          | inr (i, e) ↦ elim (Bool-cases (same_flow (s.addr_table i) nat_port p.flow)) [
            | inl own ↦
                rw (try_port, k, e, own)
                  (found-Sound c p s i nat_port h e (same_flow_lem p _ _ own))
            | inr other ↦ elim (Bool-cases (is_expired c.clock (s.addr_table i))) [
              | inr live ↦ rw (try_port, k, e, other, live) (record { table = h; calm = calm })
              | inl old ↦
                  let gone =
                    del_keys-Kept c laws [] s i h
                      (inr (ap (seen c s) ((h.reverse_ok _ i e).0) ∙ e)) in
                  rw (try_port, k, e, other, old)
                    (insert-Outcome _ gone.table (del_keys-Calm c laws s (s.addr_table i) calm))
            ]
          ]
        ]
      ]
