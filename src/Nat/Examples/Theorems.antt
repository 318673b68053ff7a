-- ===== src/Nat/Examples/Theorems.antt =====
-- The theorems on the translation table at the inputs of the runs.
use fastrg_node.Base.{
  ℕ, List, [], ◌∷◌, ◌≡◌, ◌≢◌, refl, none, some, arith, ◌==◌, inl, inr, ◌⊎◌, subst, sym, ==_iff,
  Bool-cases,
}
use fastrg_node.Conntrack.{nat_expire_refresh, nat_expire_set}
use fastrg_node.Nat.{refresh, compute_initial_nat_port, next_nat_port, forward_key, reverse_key}
use fastrg_node.Nat.Assoc.{reverse_keys, forward_keys, assoc, find, erase}
use fastrg_node.Nat.Slots.{
  enqueue, free_cb, free_all, call_back, reclaim_reverse, del_reverse, del_keys, gc_slot, gc_slots,
  reclaim_both, gc_scan, dequeue, slot_alloc_from, slot_alloc,
}
use fastrg_node.Nat.Learning.{
  flow_key, same_flow, fresh_entry, fill, publish, allocated, insert, try_port, walk, learning,
  reverse_lookup,
}
use fastrg_node.Nat.Init.{enqueue_all, init_entries, table_init, table_init-IsNat}
use fastrg_node.Nat.Invariant.{seen, published, IsNat, IsSettled}
use fastrg_node.Nat.Walk.{learning-Sound, reverse_lookup-learning}
use fastrg_node.Nat.Insert.{Sound}
use fastrg_node.Nat.Room.{HasRoom}
use fastrg_node.Nat.Progress.{learning-progress}
use fastrg_node.Nat.Live.{Stays, gc_scan-Stays}
use fastrg_node.Nat.History.{Moment, Call, learn, reply, scan, serve, Fits, AllFit, run, run-IsNat}
use fastrg_node.Nat.Avoids.{Allowed, learning-Allowed}
use fastrg_node.Nat.Examples.{
  swap, one_rule, quiescent, env, blank, udp_packet, fresh, one_flow, swap_order-IsByteOrder,
  env-IsEnv,
}

fresh_lem : IsNat (env 50000) fresh [] × IsSettled (env 50000) fresh
unfolding fresh assoc find
fresh_lem = table_init-IsNat (env 50000) blank (λ k. refl) (λ k. refl) refl refl

learning-Sound_example :
    Sound (env 50000) (udp_packet 900 100) (learning (env 50000) (udp_packet 900 100) fresh)
learning-Sound_example =
    learning-Sound (env 50000) (env-IsEnv 50000) swap_order-IsByteOrder (udp_packet 900 100) fresh
      fresh_lem.0 (λ e. fresh_lem.1)

reverse_lookup-learning_example :
    ((reverse_lookup (env 58000) one_flow (flow_key (udp_packet 900 100) (swap 2000))).1 ≡ some 0)
    × (forward_key (one_flow.addr_table 0) ≡ (udp_packet 900 100).flow)
unfolding fresh reverse_keys forward_keys table_init init_entries enqueue_all enqueue assoc find
    erase learning walk try_port insert allocated slot_alloc slot_alloc_from dequeue fill
    fresh_entry publish call_back free_all free_cb compute_initial_nat_port next_nat_port
    nat_expire_set one_flow same_flow del_keys del_reverse refresh nat_expire_refresh gc_scan
    gc_slots gc_slot reclaim_both reclaim_reverse reverse_lookup
reverse_lookup-learning_example =
    reverse_lookup-learning (env 50000) (env-IsEnv 50000) swap_order-IsByteOrder
      (udp_packet 900 100) fresh (env 58000) 0 fresh_lem.0 (λ e. fresh_lem.1) refl refl
      (omega arith) (omega arith)

learning-Allowed_example :
    Allowed
      (env 50000)
      (env-IsEnv 50000)
      swap_order-IsByteOrder
      (udp_packet 900 100)
      fresh
      (flow_key (udp_packet 900 100) (swap 2000))
      0
unfolding fresh reverse_keys forward_keys table_init init_entries enqueue_all enqueue assoc find
    erase learning walk try_port insert allocated slot_alloc slot_alloc_from dequeue fill
    fresh_entry publish call_back free_all free_cb compute_initial_nat_port next_nat_port
    nat_expire_set one_flow same_flow del_keys del_reverse refresh nat_expire_refresh gc_scan
    gc_slots gc_slot reclaim_both reclaim_reverse reverse_lookup
learning-Allowed_example =
    learning-Allowed (env 50000) (env-IsEnv 50000) swap_order-IsByteOrder (udp_packet 900 100) fresh
      fresh_lem.0 (λ e. fresh_lem.1) (flow_key (udp_packet 900 100) (swap 2000)) 0 refl

room : HasRoom (env 50000) (udp_packet 900 100) fresh
unfolding fresh reverse_keys forward_keys table_init init_entries enqueue_all enqueue assoc find
    erase del_keys del_reverse
room = record {
  now = record {
    reverse_room = λ nat_port i e. ground (arith, e);
    forward_room = λ i e. ground (arith, e);
  };
  evicted = λ j. record {
    reverse_room = λ nat_port i e. ground (arith, e);
    forward_room = λ i e. ground (arith, e);
  };
}

learning-progress_example : (learning (env 50000) (udp_packet 900 100) fresh).out_entry ≢ none
unfolding fresh reverse_keys forward_keys table_init init_entries enqueue_all enqueue assoc find
    erase learning walk try_port insert allocated slot_alloc slot_alloc_from dequeue fill
    fresh_entry publish call_back free_all free_cb compute_initial_nat_port next_nat_port
    nat_expire_set one_flow same_flow del_keys del_reverse refresh nat_expire_refresh gc_scan
    gc_slots gc_slot reclaim_both reclaim_reverse reverse_lookup
learning-progress_example =
    learning-progress (env 50000) (env-IsEnv 50000) (udp_packet 900 100) fresh 1999
      swap_order-IsByteOrder fresh_lem.0 (λ e. ground (arith, e)) room (omega arith) (omega arith)
      (record { unforwarded = refl; unmapped = refl })

one_flow-IsSettled : IsSettled (env 50500) one_flow
unfolding fresh reverse_keys forward_keys table_init init_entries enqueue_all enqueue assoc find
    erase learning walk try_port insert allocated slot_alloc slot_alloc_from dequeue fill
    fresh_entry publish call_back free_all free_cb compute_initial_nat_port next_nat_port
    nat_expire_set one_flow same_flow del_keys del_reverse refresh nat_expire_refresh gc_scan
    gc_slots gc_slot reclaim_both reclaim_reverse reverse_lookup
one_flow-IsSettled = record {
  settled = λ i live. elim (Bool-cases (i == 0)) [
    | inl k ↦
        subst
          (λ n.
            (seen (env 50500) one_flow (reverse_key (one_flow.addr_table n)) ≡ none)
            ⊎ (seen (env 50500) one_flow (reverse_key (one_flow.addr_table n)) ≡ some n))
          (sym ((==_iff i 0).0 k)) (inr refl)
    | inr k ↦ absurd (ground (arith, live, k))
  ];
}

one_flow-IsNat : IsNat (env 50500) one_flow []
unfolding fresh reverse_keys forward_keys table_init init_entries enqueue_all enqueue assoc find
    erase learning walk try_port insert allocated slot_alloc slot_alloc_from dequeue fill
    fresh_entry publish call_back free_all free_cb compute_initial_nat_port next_nat_port
    nat_expire_set one_flow same_flow del_keys del_reverse refresh nat_expire_refresh gc_scan
    gc_slots gc_slot reclaim_both reclaim_reverse reverse_lookup published
one_flow-IsNat =
    let h =
      (learning-Sound (env 50000) (env-IsEnv 50000) swap_order-IsByteOrder (udp_packet 900 100)
        fresh fresh_lem.0 (λ e. fresh_lem.1)).table in
    record { owned = h.owned; reverse_ok = h.reverse_ok; forward_ok = h.forward_ok }

gc_scan-Stays_example :
    Stays
      (env 50500)
      one_flow
      ((gc_scan (env 50500) one_flow 4).0)
      (flow_key (udp_packet 900 100) (swap 2000))
      0
unfolding fresh reverse_keys forward_keys table_init init_entries enqueue_all enqueue assoc find
    erase learning walk try_port insert allocated slot_alloc slot_alloc_from dequeue fill
    fresh_entry publish call_back free_all free_cb compute_initial_nat_port next_nat_port
    nat_expire_set one_flow same_flow del_keys del_reverse refresh nat_expire_refresh gc_scan
    gc_slots gc_slot reclaim_both reclaim_reverse reverse_lookup
gc_scan-Stays_example =
    gc_scan-Stays (env 50500) (env-IsEnv 50500) (flow_key (udp_packet 900 100) (swap 2000)) 0
      one_flow 4 one_flow-IsNat one_flow-IsSettled refl (omega arith)

at_time : ℕ → Moment
at_time cycles = record {
  quiescent = quiescent;
  clock = record { cur_cycles = cycles; cycles_in_sec = 1000 };
  port_fwd_table = one_rule;
}

abbrev calls : List (Moment × Call)
calls =
    (at_time 50000, scan 4)
    ∷ (at_time 50001, learn (udp_packet 900 100))
    ∷ (at_time 70000, learn (udp_packet 800 200))
    ∷ (at_time 70001, reply (flow_key (udp_packet 800 200) (swap 2000)))
    ∷ []

run-IsNat_example : IsNat (env 50000) (run (env 50000) fresh calls) []
unfolding fresh reverse_keys forward_keys table_init init_entries enqueue_all enqueue assoc find
    erase learning walk try_port insert allocated slot_alloc slot_alloc_from dequeue fill
    fresh_entry publish call_back free_all free_cb compute_initial_nat_port next_nat_port
    nat_expire_set one_flow same_flow del_keys del_reverse refresh nat_expire_refresh gc_scan
    gc_slots gc_slot reclaim_both reclaim_reverse reverse_lookup run serve AllFit Fits at_time
run-IsNat_example =
    run-IsNat (env 50000) (env-IsEnv 50000) swap_order-IsByteOrder fresh calls
      (
        record { settled = (fresh_lem.1).settled },
        ((λ e. ground (arith, e)), ((λ e. ground (arith, e)), (tt, tt))),
      )
      fresh_lem.0
