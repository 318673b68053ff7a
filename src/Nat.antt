-- ===== src/Nat.antt =====
-- The address translation table of src/pppd/nat.h, with the entries of src/pppd/pppd.h. This file
-- holds the keys, the entries, the state and what the code takes from DPDK; the children hold the
-- operations and what they keep.
pub mod Slots
pub mod Learning
pub mod Count
pub mod Invariant
pub mod Reclaim
pub mod Keys
pub mod Trim
pub mod Gc
pub mod Alloc
pub mod Publish
pub mod Insert
pub mod Walk
pub mod Room
pub mod Progress
pub mod Avoids
pub mod Live
pub mod History
pub mod Init
mod Assoc
mod Examples
use fastrg_node.Base.{
  ℕ, ◌≤◌, ◌<◌, ◌≡◌, ◌≢◌, List, Bool, Option, none, some, ◌+◌, ◌*◌, ◌%◌, ◌==◌, ltb, leb,
  if◌then◌else◌,
}
use fastrg_node.PortFwd.{Table, ByteOrder}
use fastrg_node.Conntrack.{View, Clock, deadline, nat_expire_refresh}

-- nat_reverse_key_t: a mapping seen from the WAN side.
pub record ReverseKey : Type 0 where
  pub dst_ip : ℕ
  pub nat_port : ℕ
  pub dst_port : ℕ

-- nat_forward_key_t: a flow seen from the LAN side.
pub record ForwardKey : Type 0 where
  pub src_ip : ℕ
  pub dst_ip : ℕ
  pub src_port : ℕ
  pub dst_port : ℕ

-- addr_table_t. `track` holds the conntrack fields and, as `expire`, the deadline that expire_slot
-- points at, the slot's own place in nat_expire_at.
pub record Entry : Type 0 where
  pub mac_addr : ℕ
  pub src_ip : ℕ
  pub dst_ip : ℕ
  pub src_port : ℕ
  pub dst_port : ℕ
  pub nat_port : ℕ
  pub proto : ℕ
  pub is_ready : Bool
  pub track : View

abbrev pub expire : Entry → ℕ
expire e = e.track.expire

abbrev pub forward_key : Entry → ForwardKey
forward_key e = record {
  src_ip = e.src_ip;
  dst_ip = e.dst_ip;
  src_port = e.src_port;
  dst_port = e.dst_port;
}

abbrev pub reverse_key : Entry → ReverseKey
reverse_key e = record { dst_ip = e.dst_ip; nat_port = e.nat_port; dst_port = e.dst_port }

-- An rte_hash with keys `K` and slot indices as data. `add` fails for want of room, and `reclaim`
-- recycles the table's own key slots.
pub record Hash (K T : Type 0) : Type 0 where
  pub lookup : T → K → Option ℕ
  pub add : T → K → ℕ → Option T
  pub del : T → K → T
  pub reclaim : T → T

-- What DPDK documents of its hash tables.
pub record IsHash {K T : Type 0} (h : Hash K T) : Type 0 where
  pub lookup-add : (t t' : T) (k : K) (i : ℕ) → h.add t k i ≡ some t' → h.lookup t' k ≡ some i
  pub lookup-add_ne :
      (t t' : T) (k j : K) (i : ℕ) → h.add t k i ≡ some t' → k ≢ j → h.lookup t' j ≡ h.lookup t j
  pub lookup-del : (t : T) (k : K) → h.lookup (h.del t k) k ≡ none
  pub lookup-del_ne : (t : T) (k j : K) → k ≢ j → h.lookup (h.del t k) j ≡ h.lookup t j
  pub lookup-reclaim : (t : T) (k : K) → h.lookup (h.reclaim t) k ≡ h.lookup t k

-- The calls of DPDK in which the defer queue may hand entries to its callback.
pub data Site : Type 0 where
  at_delete : Site
  at_add : Site
  at_reclaim : Site

-- What one call reads besides the state: the hash tables, the byte order, rte_hash_crc_4byte, the
-- number of slots (MAX_NAT_ENTRIES), how many of the deferred indices are handed to the callback,
-- the clock and port_fwd_table.
pub record Env (R F : Type 0) : Type 0 where
  pub reverse_hash : Hash ReverseKey R
  pub forward_hash : Hash ForwardKey F
  pub byte_order : ByteOrder
  pub crc_4byte : ℕ → ℕ → ℕ
  pub slots : ℕ
  pub quiescent : Site → List ℕ → ℕ
  pub clock : Clock
  pub port_fwd_table : Table

pub record IsEnv {R F : Type 0} (c : Env R F) : Type 0 where
  pub reverse_laws : IsHash c.reverse_hash
  pub forward_laws : IsHash c.forward_hash

-- The fields of ppp_ccb_t that the table has; `deferred` are the indices in the defer queue of the
-- reverse hash.
pub record State (R F : Type 0) : Type 0 where
  pub addr_table : ℕ → Entry
  pub reverse : R
  pub forward : F
  pub free_ring : List ℕ
  pub deferred : List ℕ
  pub gc_counter : ℕ
  pub enospc : ℕ
  pub gc_reclaimed : ℕ

abbrev pub put : ℕ → Entry → (ℕ → Entry) → ℕ → Entry
put i e entries j = if j == i then e else entries j

-- nat_expiry_cycles: NAT_ENTRY_TIMEOUT_SEC is 10.
abbrev pub expiry_cycles : Clock → ℕ
expiry_cycles clock = deadline clock 10

-- nat_entry_is_expired
abbrev pub is_expired : Clock → Entry → Bool
is_expired clock e = ltb (expire e) clock.cur_cycles

-- The refresh of a slot's deadline.
unfoldable pub refresh : {R F : Type 0} → Env R F → State R F → ℕ → State R F
refresh c s i = record s {
  addr_table =
      put i
        (record (s.addr_table i) {
          track = nat_expire_refresh c.clock (expiry_cycles c.clock) ((s.addr_table i).track);
        })
        s.addr_table;
}

-- compute_initial_nat_port, with SYS_MAX_PORT 1000 and NAT_PORT_RANGE 65536 - 1000.
unfoldable pub compute_initial_nat_port : {R F : Type 0} → Env R F → ℕ → ℕ → ℕ
compute_initial_nat_port c src_ip src_port =
    c.byte_order.cpu_to_be_16 (c.crc_4byte src_port (c.crc_4byte src_ip 0) % 65536 % 64536 + 1000)

-- The step to the next candidate port.
unfoldable pub next_nat_port : ByteOrder → ℕ → ℕ
next_nat_port b nat_port =
    let nat_port_host = b.be_to_cpu_16 nat_port + 1 in
    b.cpu_to_be_16 (if leb 65536 nat_port_host then 1000 else nat_port_host)
