-- ===== src/Dns/Static/Invariant.antt =====
-- The records of src/dnsd/dns_static.c: their count, and one record for a name.
use fastrg_node.Base.{
  ℕ, zero, suc, ◌≤◌, ◌≡◌, refl, List, [], ◌∷◌, true, ◌==◌, if◌then◌else◌, none, some, arith,
  Option-cases, inl, inr, length, replicate, length-replicate,
}
use fastrg_node.Dns.Domain.{domain_eq, IsTolower, domain_eq_right, domain_eq-store_domain}
use fastrg_node.Dns.Static.{
  Record, Table, default_ttl, no_record, init, matches, update, fill, add_new, add, clear, remove,
}

-- How many active records there are, and how many of a name.
unfoldable pub actives : List Record → ℕ
actives [] = 0
actives (r ∷ rs) = let rest = actives rs in if r.active then suc rest else rest

unfoldable pub matching : (ℕ → ℕ) → List ℕ → List Record → ℕ
matching tolower d [] = 0
matching tolower d (r ∷ rs) =
    let rest = matching tolower d rs in if matches tolower d r then suc rest else rest

pub matching_eq :
    (tolower : ℕ → ℕ) (rs : List Record) (d d' : List ℕ)
    → domain_eq tolower d d' ≡ true
    → matching tolower d rs ≡ matching tolower d' rs
unfolding matching
matching_eq tolower [] d d' h = refl
matching_eq tolower (r ∷ rs) d d' h =
    rw (domain_eq_right tolower d d' r.domain h, matching_eq tolower rs d d' h) refl

module _ (tolower : ℕ → ℕ) (d : List ℕ) where
  -- A change of the first record of the name.
  update-actives :
      (ip_addr ttl : ℕ) (rs rs' : List Record) (d' : List ℕ)
      → update tolower d ip_addr ttl rs ≡ some rs'
      → (length rs' ≡ length rs)
        × (actives rs' ≡ actives rs)
        × (matching tolower d' rs' ≡ matching tolower d' rs)
  unfolding update actives matching
  update-actives ip_addr ttl [] rs' d' h = ground (arith, h)
  update-actives ip_addr ttl (r ∷ rs) rs' d' h =
      elim (Option-cases (update tolower d ip_addr ttl rs)) [
        | inl e ↦ ground (arith, h, e)
        | inr (rs'', e) ↦ ground (arith, h, e, update-actives ip_addr ttl rs rs'' d' e)
      ]

  pub update-none :
      (ip_addr ttl : ℕ) (rs : List Record)
      → update tolower d ip_addr ttl rs ≡ none
      → matching tolower d rs ≡ 0
  unfolding update matching
  update-none ip_addr ttl [] h = refl
  update-none ip_addr ttl (r ∷ rs) h = ground (arith, h, update-none ip_addr ttl rs)

  -- A record in the first empty slot.
  fill-actives :
      (ip_addr ttl : ℕ) (rs rs' : List Record) (d' : List ℕ)
      → IsTolower tolower
      → length d ≤ 253
      → fill tolower d ip_addr ttl rs ≡ some rs'
      → (length rs' ≡ length rs)
        × (actives rs' ≡ suc (actives rs))
        × (matching tolower d' rs' ≡ (
            if domain_eq tolower d d'
            then suc (matching tolower d' rs)
            else matching tolower d' rs))
  unfolding fill actives matching
  fill-actives ip_addr ttl [] rs' d' t fits h = ground (arith, h)
  fill-actives ip_addr ttl (r ∷ rs) rs' d' t fits h =
      elim (Option-cases (fill tolower d ip_addr ttl rs)) [
        | inl e ↦ ground (arith, h, e, domain_eq-store_domain {tolower = tolower} d t fits d')
        | inr (rs'', e) ↦ ground (
          arith,
          h,
          e,
          fill-actives ip_addr ttl rs rs'' d' t fits e,
          domain_eq-store_domain {tolower = tolower} d t fits d',
        )
      ]

  pub fill-none :
      (ip_addr ttl : ℕ) (rs : List Record)
      → fill tolower d ip_addr ttl rs ≡ none
      → actives rs ≡ length rs
  unfolding fill actives
  fill-none ip_addr ttl [] h = refl
  fill-none ip_addr ttl (r ∷ rs) h = ground (arith, h, fill-none ip_addr ttl rs)

  -- The first record of the name cleared.
  pub clear-actives :
      (rs rs' : List Record) (d' : List ℕ)
      → clear tolower d rs ≡ some rs'
      → (length rs' ≡ length rs)
        × (actives rs ≡ suc (actives rs'))
        × (matching tolower d' rs' ≤ matching tolower d' rs)
  unfolding clear actives matching
  clear-actives [] rs' d' h = ground (arith, h)
  clear-actives (r ∷ rs) rs' d' h = elim (Option-cases (clear tolower d rs)) [
    | inl e ↦ ground (arith, h, e)
    | inr (rs'', e) ↦ ground (arith, h, e, clear-actives rs rs'' d' e)
  ]

pub actives_le : (rs : List Record) → actives rs ≤ length rs
unfolding actives
actives_le [] = omega arith
actives_le (r ∷ rs) = ground (arith, actives_le rs)

-- What holds of the table between calls.
pub record IsTable (tolower : ℕ → ℕ) (table : Table) : Type 0 where
  pub slots : length table.records ≡ 64
  pub counted : table.count ≡ actives table.records
  pub unique : (d : List ℕ) → matching tolower d table.records ≤ 1

empty_slots :
    (tolower : ℕ → ℕ) (n : ℕ) (d : List ℕ)
    → (actives (replicate n no_record) ≡ 0) × (matching tolower d (replicate n no_record) ≡ 0)
unfolding actives matching
empty_slots tolower zero d = (refl, refl)
empty_slots tolower (suc n) d = empty_slots tolower n d

pub init-IsTable : (tolower : ℕ → ℕ) → IsTable tolower init
init-IsTable tolower = record {
  slots = length-replicate 64 no_record;
  counted = omega (arith, (empty_slots tolower 64 []).0);
  unique = λ d. omega (arith, (empty_slots tolower 64 d).1);
}

-- dns_static_add of a name of at most 253 bytes keeps the table well formed: 64 records, count is the
-- number of the active ones, and no name has two.
pub add-IsTable :
    (tolower : ℕ → ℕ) (table : Table) (d : List ℕ) (ip_addr ttl : ℕ)
    → IsTolower tolower
    → length d ≤ 253
    → IsTable tolower table
    → IsTable tolower ((add tolower table d ip_addr ttl).1)
unfolding add add_new
add-IsTable tolower table d ip_addr ttl t fits h =
    let ttl' = if ttl == 0 then default_ttl else ttl in
    elim (Option-cases (update tolower d ip_addr ttl' table.records)) [
      | inr (rs, e) ↦
          rw (add, e)
            (record {
              slots =
                  omega
                    (arith, h.slots, update-actives tolower d ip_addr ttl' table.records rs d e);
              counted =
                  omega
                    (arith, h.counted, update-actives tolower d ip_addr ttl' table.records rs d e);
              unique = λ d'.
                  omega (
                    arith,
                    h.unique d',
                    update-actives tolower d ip_addr ttl' table.records rs d' e,
                  );
            })
      | inl e ↦ elim (Option-cases (fill tolower d ip_addr ttl' table.records)) [
        | inl e' ↦ rw (add, e, e') h
        | inr (rs, e') ↦
            let k = fill-actives tolower d ip_addr ttl' table.records rs d t fits e' in
            rw (add, e, e')
              (record {
                slots = omega (arith, h.slots, k);
                counted = omega (arith, h.counted, h.slots, k, actives_le rs);
                unique = λ d'. ground (
                  arith,
                  h.unique d',
                  fill-actives tolower d ip_addr ttl' table.records rs d' t fits e',
                  update-none tolower d ip_addr ttl' table.records e,
                  matching_eq tolower table.records d d',
                );
              })
      ]
    ]

-- dns_static_remove keeps the table well formed.
pub remove-IsTable :
    (tolower : ℕ → ℕ) (table : Table) (d : List ℕ)
    → IsTable tolower table
    → IsTable tolower ((remove tolower table d).1)
unfolding remove
remove-IsTable tolower table d h = elim (Option-cases (clear tolower d table.records)) [
  | inl e ↦ rw (remove, e) h
  | inr (rs, e) ↦
      let k = clear-actives tolower d table.records rs d e in
      rw (remove, e)
        (record {
          slots = omega (arith, h.slots, k);
          counted = omega (arith, h.counted, h.slots, k, actives_le table.records);
          unique = λ d'. omega (arith, h.unique d', clear-actives tolower d table.records rs d' e);
        })
]
