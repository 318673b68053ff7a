-- ===== src/Dns/Proxy.antt =====
-- The control plane of the DNS proxy, src/dnsd/dnsd.c: the pending queries, the choice of the upstream
-- server, and the packets from the LAN and the WAN.
pub mod Packets
pub mod Failover
pub mod Forwarding
pub mod Routing
pub mod Answer
mod Examples
use fastrg_node.Base.{
  ℕ, zero, suc, ◌+◌, ◌-◌, ◌*◌, ◌%◌, ◌^◌, List, [], ◌∷◌, Bool, true, false, ◌&&◌, ◌||◌, not, leb,
  ◌==◌, if◌then◌else◌, Option, none, some, replicate,
}
use fastrg_node.Dns.Static.{Table}
use fastrg_node.Dns.Cache.{Cache, Clock, init}

-- DNS_MAX_PENDING_QUERIES, DNS_PENDING_TIMEOUT_SECS, DNS_FAILOVER_TIMEOUT_SECS and DNS_TYPE_A.
abbrev pub max_pending : ℕ
max_pending = 32

abbrev pub pending_timeout : ℕ
pending_timeout = 5

abbrev pub failover_timeout : ℕ
failover_timeout = 60

abbrev pub type_a : ℕ
type_a = 1

-- dns_pending_query_t, without is_tcp, which is always 0.
pub record Pending : Type 0 where
  pub active : Bool
  pub original_id : ℕ
  pub upstream_id : ℕ
  pub client_ip : ℕ
  pub client_port : ℕ
  pub client_mac : ℕ
  pub vlan_tci : ℕ
  pub qtype : ℕ
  pub domain : List ℕ
  pub start_tsc : ℕ

-- dns_proxy_state_t
pub record Proxy : Type 0 where
  pub cache : Cache
  pub static_table : Table
  pub pending : List Pending
  pub primary_dns : ℕ
  pub secondary_dns : ℕ
  pub active_dns : ℕ
  pub last_response_time : ℕ
  pub next_upstream_id : ℕ
  pub dns_proxy_enabled : Bool

abbrev pub no_pending : Pending
no_pending = record {
  active = false;
  original_id = 0;
  upstream_id = 0;
  client_ip = 0;
  client_port = 0;
  client_mac = 0;
  vlan_tci = 0;
  qtype = 0;
  domain = [];
  start_tsc = 0;
}

-- now - since, on U64.
abbrev pub elapsed : Clock → ℕ → ℕ
elapsed clock since = (clock.now + 2 ^ 64 - since) % 2 ^ 64

abbrev pub seconds : Clock → ℕ → ℕ
seconds clock n = n * clock.cycles_in_sec % 2 ^ 64

-- dns_proxy_init
unfoldable pub proxy_init : Clock → Proxy → ℕ → ℕ → Proxy
proxy_init clock state primary_dns secondary_dns = record state {
  cache = init;
  primary_dns = primary_dns;
  secondary_dns = secondary_dns;
  active_dns = primary_dns;
  last_response_time = clock.now;
  next_upstream_id = 1;
  pending = replicate max_pending no_pending;
}

-- dns_proxy_cleanup
unfoldable pub proxy_cleanup : Proxy → Proxy
proxy_cleanup state = record state { cache = init; pending = replicate max_pending no_pending }

-- dnsd_check_failover
unfoldable pub check_failover : Clock → Proxy → Proxy
check_failover clock state =
    if not state.dns_proxy_enabled || state.secondary_dns == 0
    then state
    else if leb (seconds clock failover_timeout) (elapsed clock state.last_response_time)
    then record state {
      active_dns =
          if state.active_dns == state.primary_dns then state.secondary_dns else state.primary_dns;
      last_response_time = clock.now;
    }
    else state

-- now - start_tsc >= timeout_cycles
unfoldable pub timed_out : Clock → Pending → Bool
timed_out clock p = leb (seconds clock pending_timeout) (elapsed clock p.start_tsc)

-- dnsd_has_pending_query
unfoldable pub has_pending_query : Clock → List Pending → Bool
has_pending_query clock [] = false
has_pending_query clock (p ∷ ps) = p.active && not (timed_out clock p) || has_pending_query clock ps

abbrev pub next : Option ℕ → Option ℕ
next none = none
next (some i) = some (suc i)

-- find_free_pending: the slot. (The caller clears it, so that `active` need not be reset here.)
unfoldable pub find_free_pending : Clock → List Pending → Option ℕ
find_free_pending clock [] = none
find_free_pending clock (p ∷ ps) =
    let rest = find_free_pending clock ps in
    if not p.active || timed_out clock p then some 0 else next rest

-- What find_pending_by_upstream_id ends in: no slot, a slot that it gives up, a slot that waits.
pub data Match : Type 0 where
  unmatched : Match
  lapsed : ℕ → Match
  matched : ℕ → Pending → Match

abbrev pub later : Match → Match
later unmatched = unmatched
later (lapsed i) = lapsed (suc i)
later (matched i p) = matched (suc i) p

unfoldable pub find_pending_by_upstream_id : Clock → ℕ → List Pending → Match
find_pending_by_upstream_id clock id [] = unmatched
find_pending_by_upstream_id clock id (p ∷ ps) =
    let rest = find_pending_by_upstream_id clock id ps in
    if not p.active || not (p.upstream_id == id)
    then later rest
    else if timed_out clock p
    then lapsed 0
    else matched 0 p

-- pending->active = FALSE
abbrev pub clear_active : ℕ → List Pending → List Pending
clear_active i [] = []
clear_active zero (p ∷ ps) = record p { active = false } ∷ ps
clear_active (suc i) (p ∷ ps) = p ∷ clear_active i ps
