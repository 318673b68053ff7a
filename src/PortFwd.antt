-- ===== src/PortFwd.antt =====
-- The port-forwarding table of src/pppd/nat.h, with the entries of src/pppd/pppd.h.
pub mod Rules
pub mod Publish
mod Examples
use fastrg_node.Base.{ℕ, List, [], ◌∷◌, Bool, true, false, Option, none, some, ◌==◌, if◌then◌else◌}

-- port_fwd_entry_t. `iport` is in network byte order, as the field is.
pub record Entry : Type 0 where
  pub dip : ℕ
  pub iport : ℕ
  pub is_active : ℕ
  pub hit_count : ℕ

-- port_fwd_table, indexed by the external port in host byte order.
abbrev pub Table : Type 0
Table = ℕ → Entry

-- The byte-order conversions of 16-bit words, which come from DPDK.
pub record ByteOrder : Type 0 where
  pub cpu_to_be_16 : ℕ → ℕ
  pub be_to_cpu_16 : ℕ → ℕ

-- One store to a field of an entry.
pub data Store : Type 0 where
  set_dip : ℕ → Store
  set_iport : ℕ → Store
  set_active : ℕ → Store
  set_hit_count : ℕ → Store

unfoldable pub store : Store → Entry → Entry
store (set_dip x) e = record e { dip = x }
store (set_iport x) e = record e { iport = x }
store (set_active x) e = record e { is_active = x }
store (set_hit_count x) e = record e { hit_count = x }

unfoldable pub store_all : List Store → Entry → Entry
unfolding store
store_all [] e = e
store_all (s ∷ ss) e = store_all ss (store s e)

-- The stores of port_fwd_add, in the order in which its fence publishes them.
unfoldable pub add_stores : ByteOrder → ℕ → ℕ → List Store
add_stores b dip iport =
    set_dip dip ∷ set_iport (b.cpu_to_be_16 iport) ∷ set_hit_count 0 ∷ set_active 1 ∷ []

-- The stores of port_fwd_remove.
unfoldable pub remove_stores : List Store
remove_stores = set_active 0 ∷ set_dip 0 ∷ set_iport 0 ∷ set_hit_count 0 ∷ []

abbrev pub write : ℕ → Entry → Table → Table
write eport e table p = if p == eport then e else table p

-- port_fwd_lookup_by_eport
unfoldable pub lookup_by_eport : Table → ℕ → Option Entry
lookup_by_eport table eport = if (table eport).is_active == 1 then some (table eport) else none

-- port_fwd_add
unfoldable pub port_fwd_add : ByteOrder → Table → ℕ → ℕ → ℕ → Table
unfolding store_all add_stores
port_fwd_add b table eport dip iport =
    if (table eport).is_active == 1
    then table
    else write eport (store_all (add_stores b dip iport) (table eport)) table

pub data Status : Type 0 where
  success : Status
  error : Status

-- port_fwd_remove
unfoldable pub port_fwd_remove : Table → ℕ → Table × Status
unfolding store_all remove_stores
port_fwd_remove table eport =
    if (table eport).is_active == 0
    then (table, error)
    else (write eport (store_all remove_stores (table eport)) table, success)

-- nat_port_fwd_reverse_lookup: the two results where it succeeds.
unfoldable pub reverse_lookup : ByteOrder → Table → ℕ → Option (ℕ × ℕ)
unfolding lookup_by_eport
reverse_lookup b table dst_port = elim (lookup_by_eport table (b.be_to_cpu_16 dst_port)) [
  | none ↦ none
  | some e ↦ some (e.dip, e.iport)
]
