-- ===== src/Dhcp.antt =====
-- The address pool of the DHCP server: src/dhcpd/dhcpd.c and the selection of an entry in
-- src/dhcpd/dhcp_codec.c.
pub mod Leases
pub mod Window
pub mod Fsm
pub mod Expiry
pub mod Request
pub mod Timeout
mod Examples
use Prim.Native.Nat.{bit_and}
use fastrg_node.Base.{
  ℕ, zero, suc, ◌+◌, ◌-◌, ◌%◌, ◌^◌, List, [], ◌∷◌, Bool, true, false, ◌&&◌, ◌||◌, not, leb, ltb,
  ◌==◌, if◌then◌else◌, Option, none, some, get_elem?, set, take,
}

-- DHCP_MAX_POOL_SIZE_PER_USER
abbrev pub max_pool_size : ℕ
max_pool_size = 2 ^ 17

-- The state of a LAN user, as far as the pool sets it: S_DHCP_INIT is 1.
abbrev pub s_dhcp_init : ℕ
s_dhcp_init = 1

-- dhcp_ccb_per_lan_user_t, with its lan_user_info_t and its ip_pool_t. An address of zeros is 0. `timer`
-- tells whether the timer is pending.
pub record LanUser : Type 0 where
  pub state : ℕ
  pub lan_user_used : Bool
  pub user_mac : ℕ
  pub timer : Bool
  pub mac_addr : ℕ
  pub ip_addr : ℕ
  pub used : Bool
  pub reserved : Bool
  pub pool_index : ℕ

-- dhcp_ccb_t, as far as the pool goes; addresses of the window are in host order.
pub record Ccb : Type 0 where
  pub dhcp_server_ip : ℕ
  pub per_lan_user_pool : List LanUser
  pub per_lan_user_pool_len : ℕ
  pub pool_start : ℕ
  pub pool_end : ℕ
  pub subnet_mask : ℕ

-- STATUS
pub data Status : Type 0 where
  success : Status
  error : Status

-- dhcp_ip_is_reserved
unfoldable pub ip_is_reserved : ℕ → Bool
ip_is_reserved ip = (ip % 256 == 0) || (ip % 256 == 255)

-- dhcp_validate_pool_range, for the conversion `be` of an address to host order.
unfoldable pub validate_pool_range : (ℕ → ℕ) → ℕ → ℕ → ℕ → ℕ → Status
validate_pool_range be server_ip ip_start ip_end mask =
    if (server_ip == 0) && (ip_start == 0) && (ip_end == 0) && (mask == 0)
    then Status.success
    else if ltb (be ip_end) (be ip_start)
    then Status.error
    else if (bit_and ip_start mask == bit_and server_ip mask)
        && (bit_and ip_end mask == bit_and server_ip mask)
    then Status.success
    else Status.error

-- release_lan_user
unfoldable pub release_lan_user : LanUser → LanUser
release_lan_user e = record e {
  timer = false;
  used = false;
  lan_user_used = false;
  user_mac = 0;
  state = s_dhcp_init;
}

-- An entry as the window is set up: its address is in network order.
unfoldable pub reset_entry : (ℕ → ℕ) → ℕ → ℕ → ℕ → LanUser → LanUser
reset_entry be start new_len i e =
    let entry_ip = if ltb i new_len then (start + i) % 2 ^ 32 else 0 in
    record e {
      used = false;
      lan_user_used = false;
      user_mac = 0;
      mac_addr = 0;
      state = s_dhcp_init;
      ip_addr = be entry_ip;
      reserved = if ltb i new_len then ip_is_reserved entry_ip else false;
      pool_index = i;
    }

-- The loop over the entries from `i` on, `n` rounds from its end.
unfoldable pub reset_entries : (ℕ → ℕ) → ℕ → ℕ → ℕ → ℕ → List LanUser → List LanUser
reset_entries be start new_len i zero es = es
reset_entries be start new_len i (suc n) [] = []
reset_entries be start new_len i (suc n) (e ∷ es) =
    reset_entry be start new_len i e ∷ reset_entries be start new_len (i + 1) n es

-- The loop that stops the timers of the old window.
unfoldable pub stop_timers : ℕ → List LanUser → List LanUser
stop_timers zero es = es
stop_timers (suc n) [] = []
stop_timers (suc n) (e ∷ es) = record e { timer = false } ∷ stop_timers n es

-- The length is a U32.
unfoldable pub window_len : ℕ → ℕ → ℕ
window_len start end =
    if leb start end then (end - start + 1) % 2 ^ 32 else (start - end + 1) % 2 ^ 32

-- dhcp_pool_init_by_user
unfoldable pub pool_init_by_user : (ℕ → ℕ) → Ccb → ℕ → ℕ → ℕ → ℕ → Status × Ccb
pool_init_by_user be c server_ip ip_start ip_end mask =
    let new_len = window_len (be ip_start) (be ip_end) in
    let old_len = c.per_lan_user_pool_len in
    if ltb max_pool_size new_len then (Status.error, c) else (
      Status.success,
      record c {
        dhcp_server_ip = server_ip;
        pool_start = be ip_start;
        pool_end = be ip_end;
        subnet_mask = mask;
        per_lan_user_pool_len = new_len;
        per_lan_user_pool =
            reset_entries be (be ip_start) new_len 0
              (if ltb old_len new_len then new_len else old_len)
              (stop_timers old_len c.per_lan_user_pool);
      },
    )

-- check_and_set_single_pool_entry, check_pool and pick_ip_from_pool go by the same test.
abbrev pub is_open : ℕ → LanUser → Bool
is_open mac e = not e.reserved && (not e.used || (e.mac_addr == mac))

abbrev pub next : Option ℕ → Option ℕ
next none = none
next (some i) = some (suc i)

-- The first open entry from `skip` on.
unfoldable pub first_open : ℕ → ℕ → List LanUser → Option ℕ
first_open mac skip [] = none
first_open mac zero (e ∷ es) =
    let rest = first_open mac zero es in if is_open mac e then some 0 else next rest
first_open mac (suc skip) (e ∷ es) = next (first_open mac skip es)

-- The two loops: from the current entry on, then from the first.
unfoldable pub select : ℕ → ℕ → List LanUser → Option ℕ
select mac cur window = elim (first_open mac cur window) [
  | some i ↦ some i
  | none ↦ first_open mac zero window
]

-- A change of the entry at a place.
abbrev pub update : (LanUser → LanUser) → ℕ → List LanUser → List LanUser
update f i [] = []
update f zero (e ∷ es) = f e ∷ es
update f (suc i) (e ∷ es) = e ∷ update f i es

abbrev pub claim : ℕ → LanUser → LanUser
claim mac e = if e.used then e else record e { used = true; mac_addr = mac }

-- What a selection in check_pool leaves: the entry that was selected and the pool.
unfoldable pub claimed : ℕ → Ccb → Option ℕ → Option ℕ × Ccb
claimed mac c none = (none, c)
claimed mac c (some i) =
    (some i, record c { per_lan_user_pool = update (claim mac) i c.per_lan_user_pool })

-- check_pool: `none` is ERROR. The entry at `cur` is asked first, which the loop from `cur` on does.
unfoldable pub check_pool : Ccb → ℕ → ℕ → Option ℕ × Ccb
check_pool c cur mac =
    claimed mac c (select mac cur (take c.per_lan_user_pool_len c.per_lan_user_pool))

abbrev pub offer : ℕ → LanUser → LanUser
offer mac e = if e.mac_addr == mac then e else record e { mac_addr = mac }

-- pick_ip_from_pool: the entry whose address is offered.
unfoldable pub offered : ℕ → Ccb → Option ℕ → Option ℕ × Ccb
offered mac c none = (none, c)
offered mac c (some i) =
    (some i, record c { per_lan_user_pool = update (offer mac) i c.per_lan_user_pool })

unfoldable pub pick_ip_from_pool : Ccb → ℕ → ℕ → Option ℕ × Ccb
pick_ip_from_pool c cur mac =
    offered mac c (select mac cur (take c.per_lan_user_pool_len c.per_lan_user_pool))
