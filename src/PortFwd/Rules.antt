-- ===== src/PortFwd/Rules.antt =====
-- The port-forwarding table of src/pppd/nat.h as a partial map from external ports to LAN targets.
use fastrg_node.Base.{
  ℕ, List, [], ◌∷◌, ◌≡◌, refl, ◌≤◌, Option, none, some, ◌==◌, if◌then◌else◌, arith, ◌∙◌, ◌↔◌,
}
use fastrg_node.PortFwd.{
  Entry, Table, ByteOrder, error, lookup_by_eport, port_fwd_add, port_fwd_remove, reverse_lookup,
  store_all, add_stores, remove_stores,
}

-- The target of an entry, where the entry is active.
unfoldable pub rule : Entry → Option (ℕ × ℕ)
rule e = if e.is_active == 1 then some (e.dip, e.iport) else none

-- The flags are 0 or 1.
unfoldable pub IsTable : Table → Type 0
IsTable table = (p : ℕ) → (table p).is_active ≤ 1

pub data Op : Type 0 where
  add : ℕ → ℕ → ℕ → Op
  remove : ℕ → Op

unfoldable pub run : ByteOrder → Table → List Op → Table
run b table [] = table
run b table (add eport dip iport ∷ ops) = run b (port_fwd_add b table eport dip iport) ops
run b table (remove eport ∷ ops) = run b (port_fwd_remove table eport).0 ops

-- The map: a rule that is there is kept, and a removed one is gone.
abbrev pub Rules : Type 0
Rules = ℕ → Option (ℕ × ℕ)

unfoldable pub run_rules : ByteOrder → Rules → List Op → Rules
run_rules b m [] = m
run_rules b m (add eport dip iport ∷ ops) =
    run_rules b
      (λ p.
        if p == eport
        then elim (m eport) [ none ↦ some (dip, b.cpu_to_be_16 iport) | some r ↦ some r ]
        else m p)
      ops
run_rules b m (remove eport ∷ ops) = run_rules b (λ p. if p == eport then none else m p) ops

add-rule :
    (b : ByteOrder) (table : Table) (eport dip iport p : ℕ)
    → rule (port_fwd_add b table eport dip iport p) ≡ (
        if p == eport
        then elim (rule (table eport)) [ none ↦ some (dip, b.cpu_to_be_16 iport) | some r ↦ some r ]
        else rule (table p))
unfolding rule port_fwd_add store_all add_stores
add-rule b table eport dip iport p = ground arith

remove-rule :
    (table : Table) (eport p : ℕ)
    → IsTable table
    → rule ((port_fwd_remove table eport).0 p) ≡ (if p == eport then none else rule (table p))
unfolding rule port_fwd_remove store_all remove_stores IsTable
remove-rule table eport p h = ground (arith, h eport)

add-IsTable :
    (b : ByteOrder) (table : Table) (eport dip iport : ℕ)
    → IsTable table
    → IsTable (port_fwd_add b table eport dip iport)
unfolding IsTable port_fwd_add store_all add_stores
add-IsTable b table eport dip iport h p = ground (arith, h p)

remove-IsTable :
    (table : Table) (eport : ℕ) → IsTable table → IsTable (port_fwd_remove table eport).0
unfolding IsTable port_fwd_remove store_all remove_stores
remove-IsTable table eport h p = ground (arith, h p)

-- The lookup of a packet's destination port finds the rule of that port.
reverse_lookup-rule :
    (b : ByteOrder) (table : Table) (dst_port : ℕ)
    → reverse_lookup b table dst_port ≡ rule (table (b.be_to_cpu_16 dst_port))
unfolding reverse_lookup lookup_by_eport rule
reverse_lookup-rule b table dst_port = ground arith

add-mimics :
    (b : ByteOrder) (table : Table) (m : Rules) (eport dip iport : ℕ)
    → ((p : ℕ) → rule (table p) ≡ m p)
    → (p : ℕ)
    → rule (port_fwd_add b table eport dip iport p) ≡ (
        if p == eport
        then elim (m eport) [ none ↦ some (dip, b.cpu_to_be_16 iport) | some r ↦ some r ]
        else m p)
add-mimics b table m eport dip iport h p =
    rw (add-rule b table eport dip iport p, h eport, h p) refl

remove-mimics :
    (table : Table) (m : Rules) (eport : ℕ)
    → IsTable table
    → ((p : ℕ) → rule (table p) ≡ m p)
    → (p : ℕ) → rule ((port_fwd_remove table eport).0 p) ≡ (if p == eport then none else m p)
remove-mimics table m eport t h p = rw (remove-rule table eport p t, h p) refl

-- A table whose active entries are the rules of a map keeps to that map through every sequence of
-- additions and removals: the lookup of a packet's destination port finds exactly the rule that the
-- map then has for it. Adding where there is a rule changes nothing.
pub run-mimics :
    (b : ByteOrder) (table : Table) (m : Rules) (ops : List Op)
    → IsTable table
    → ((p : ℕ) → rule (table p) ≡ m p)
    → (dst_port : ℕ)
    → reverse_lookup b (run b table ops) dst_port ≡ run_rules b m ops (b.be_to_cpu_16 dst_port)
unfolding run run_rules
run-mimics b table m [] t h dst_port =
    reverse_lookup-rule b table dst_port ∙ h (b.be_to_cpu_16 dst_port)
run-mimics b table m (add eport dip iport ∷ ops) t h dst_port =
    run-mimics b (port_fwd_add b table eport dip iport) _ ops
      (add-IsTable b table eport dip iport t) (add-mimics b table m eport dip iport h) dst_port
run-mimics b table m (remove eport ∷ ops) t h dst_port =
    run-mimics b (port_fwd_remove table eport).0 _ ops (remove-IsTable table eport t)
      (remove-mimics table m eport t h) dst_port

-- Removing fails exactly where the port has no rule.
remove_fails :
    (table : Table) (eport : ℕ)
    → IsTable table
    → ((port_fwd_remove table eport).1 ≡ error) ↔ (rule (table eport) ≡ none)
unfolding rule port_fwd_remove IsTable
remove_fails table eport h = ground (arith, h eport)
