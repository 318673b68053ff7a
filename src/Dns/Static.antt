-- ===== src/Dns/Static.antt =====
-- The static records of src/dnsd/dns_static.c.
pub mod Lookup
pub mod Invariant
use fastrg_node.Base.{
  ℕ, zero, suc, ◌+◌, ◌-◌, ◌%◌, ◌^◌, List, [], ◌∷◌, Bool, true, false, ◌&&◌, not, ◌==◌,
  if◌then◌else◌, Option, none, some, replicate,
}
use fastrg_node.Dns.Domain.{domain_eq, store_domain}

-- DNS_STATIC_MAX_RECORDS and DNS_STATIC_DEFAULT_TTL.
abbrev pub max_records : ℕ
max_records = 64

abbrev pub default_ttl : ℕ
default_ttl = 3600

-- dns_static_record_t
pub record Record : Type 0 where
  pub domain : List ℕ
  pub ip_addr : ℕ
  pub ttl : ℕ
  pub active : Bool

-- dns_static_table_t
pub record Table : Type 0 where
  pub records : List Record
  pub count : ℕ

-- STATUS
pub data Status : Type 0 where
  success : Status
  error : Status

-- A record of zero bytes.
abbrev pub no_record : Record
no_record = record { domain = []; ip_addr = 0; ttl = 0; active = false }

-- dns_static_init and dns_static_cleanup, which both clear the table.
abbrev pub init : Table
init = record { records = replicate max_records no_record; count = 0 }

abbrev pub cleanup : Table → Table
cleanup table = init

-- records[i].active && static_domain_eq(records[i].domain, domain)
abbrev pub matches : (ℕ → ℕ) → List ℕ → Record → Bool
matches tolower domain r = r.active && domain_eq tolower r.domain domain

-- The records from the loop's on, with one put before them.
abbrev pub prepend : Record → Option (List Record) → Option (List Record)
prepend r none = none
prepend r (some rs) = some (r ∷ rs)

-- The first loop of dns_static_add: `none` where it meets no record of the name.
unfoldable pub update : (ℕ → ℕ) → List ℕ → ℕ → ℕ → List Record → Option (List Record)
update tolower domain ip_addr ttl [] = none
update tolower domain ip_addr ttl (r ∷ rs) =
    let rest = update tolower domain ip_addr ttl rs in
    if matches tolower domain r
    then some (record r { ip_addr = ip_addr; ttl = ttl } ∷ rs)
    else prepend r rest

-- The second loop: `none` where it meets no empty slot.
unfoldable pub fill : (ℕ → ℕ) → List ℕ → ℕ → ℕ → List Record → Option (List Record)
fill tolower domain ip_addr ttl [] = none
fill tolower domain ip_addr ttl (r ∷ rs) =
    let rest = fill tolower domain ip_addr ttl rs in
    if not r.active
    then some (
        record { domain = store_domain tolower domain; ip_addr = ip_addr; ttl = ttl; active = true }
        ∷ rs)
    else prepend r rest

-- What dns_static_add does where its first loop found no record.
unfoldable pub add_new : Table → Option (List Record) → Status × Table
add_new table none = (Status.error, table)
add_new table (some rs) =
    (Status.success, record { records = rs; count = (table.count + 1) % 2 ^ 32 })

-- dns_static_add
unfoldable pub add : (ℕ → ℕ) → Table → List ℕ → ℕ → ℕ → Status × Table
add tolower table domain ip_addr ttl =
    let ttl' = if ttl == 0 then default_ttl else ttl in
    elim (update tolower domain ip_addr ttl' table.records) [
      | some rs ↦ (Status.success, record table { records = rs })
      | none ↦ add_new table (fill tolower domain ip_addr ttl' table.records)
    ]

-- The loop of dns_static_remove.
unfoldable pub clear : (ℕ → ℕ) → List ℕ → List Record → Option (List Record)
clear tolower domain [] = none
clear tolower domain (r ∷ rs) =
    let rest = clear tolower domain rs in
    if matches tolower domain r then some (no_record ∷ rs) else prepend r rest

-- dns_static_remove
unfoldable pub remove : (ℕ → ℕ) → Table → List ℕ → Status × Table
remove tolower table domain = elim (clear tolower domain table.records) [
  | some rs ↦ (Status.success, record { records = rs; count = (table.count + 2 ^ 32 - 1) % 2 ^ 32 })
  | none ↦ (Status.error, table)
]

-- dns_static_lookup: the record that is pointed to.
unfoldable pub find : (ℕ → ℕ) → List ℕ → List Record → Option Record
find tolower domain [] = none
find tolower domain (r ∷ rs) =
    let rest = find tolower domain rs in if matches tolower domain r then some r else rest

abbrev pub lookup : (ℕ → ℕ) → Table → List ℕ → Option Record
lookup tolower table domain = find tolower domain table.records

-- dns_static_get_count
abbrev pub get_count : Table → ℕ
get_count table = table.count
