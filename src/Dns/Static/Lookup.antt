-- ===== src/Dns/Static/Lookup.antt =====
-- What a lookup in the static records of src/dnsd/dns_static.c finds after they have changed.
use fastrg_node.Base.{
  ℕ, ◌≤◌, ◌≡◌, refl, List, [], ◌∷◌, true, ◌==◌, if◌then◌else◌, Option, none, some, arith, ◌⊎◌,
  Option-cases, inl, inr, length, sym,
}
use fastrg_node.Dns.Domain.{
  domain_eq, IsTolower, domain_eq_left, domain_eq_right, domain_eq-store_domain,
}
use fastrg_node.Dns.Static.Invariant.{matching, IsTable, fill-none, update-none}
use fastrg_node.Dns.Static.{
  get_count, Record, Table, Status, default_ttl, matches, update, fill, add_new, add, clear, remove,
  find, lookup,
}

-- The address and the TTL that a query for the name is answered with.
unfoldable pub answer_for : (ℕ → ℕ) → List Record → List ℕ → Option (ℕ × ℕ)
answer_for tolower [] d = none
answer_for tolower (r ∷ rs) d =
    let rest = answer_for tolower rs d in
    if matches tolower d r then some (r.ip_addr, r.ttl) else rest

abbrev pub answer_of : Option Record → Option (ℕ × ℕ)
answer_of none = none
answer_of (some r) = some (r.ip_addr, r.ttl)

update-answer_for :
    (tolower : ℕ → ℕ) (d : List ℕ) (ip_addr ttl : ℕ) (rs rs' : List Record) (d' : List ℕ)
    → update tolower d ip_addr ttl rs ≡ some rs'
    → answer_for tolower rs' d'
      ≡ (if domain_eq tolower d d' then some (ip_addr, ttl) else answer_for tolower rs d')
unfolding update answer_for
update-answer_for tolower d ip_addr ttl [] rs' d' h = ground (arith, h)
update-answer_for tolower d ip_addr ttl (r ∷ rs) rs' d' h =
    elim (Option-cases (update tolower d ip_addr ttl rs)) [
      | inl e ↦ ground (arith, h, e, domain_eq_left tolower r.domain d d')
      | inr (rs'', e) ↦ ground (
        arith,
        h,
        e,
        update-answer_for tolower d ip_addr ttl rs rs'' d' e,
        domain_eq_left tolower r.domain d d',
        domain_eq_right tolower d d' r.domain,
      )
    ]

-- Names that compare equal have one answer.
answer_for_eq :
    (tolower : ℕ → ℕ) (rs : List Record) (d d' : List ℕ)
    → domain_eq tolower d d' ≡ true
    → answer_for tolower rs d ≡ answer_for tolower rs d'
unfolding answer_for
answer_for_eq tolower [] d d' h = refl
answer_for_eq tolower (r ∷ rs) d d' h =
    rw (domain_eq_right tolower d d' r.domain h, answer_for_eq tolower rs d d' h) refl

fill-answer_for :
    (tolower : ℕ → ℕ) (d : List ℕ) (ip_addr ttl : ℕ) (rs rs' : List Record) (d' : List ℕ)
    → IsTolower tolower
    → length d ≤ 253
    → answer_for tolower rs d ≡ none
    → fill tolower d ip_addr ttl rs ≡ some rs'
    → answer_for tolower rs' d'
      ≡ (if domain_eq tolower d d' then some (ip_addr, ttl) else answer_for tolower rs d')
unfolding fill answer_for
fill-answer_for tolower d ip_addr ttl [] rs' d' t fits free h = ground (arith, h)
fill-answer_for tolower d ip_addr ttl (r ∷ rs) rs' d' t fits free h =
    elim (Option-cases (fill tolower d ip_addr ttl rs)) [
      | inl e ↦ ground (
        arith,
        h,
        e,
        free,
        domain_eq-store_domain {tolower = tolower} d t fits d',
        answer_for_eq tolower rs d d',
      )
      | inr (rs'', e) ↦ ground (
        arith,
        h,
        e,
        free,
        fill-answer_for tolower d ip_addr ttl rs rs'' d' t fits,
        domain_eq-store_domain {tolower = tolower} d t fits d',
        answer_for_eq tolower rs d d',
        domain_eq_right tolower d d' r.domain,
      )
    ]

matching-none :
    (tolower : ℕ → ℕ) (d : List ℕ) (rs : List Record)
    → matching tolower d rs ≡ 0
    → answer_for tolower rs d ≡ none
unfolding matching answer_for
matching-none tolower d [] h = refl
matching-none tolower d (r ∷ rs) h = ground (arith, h, matching-none tolower d rs)

clear-answer_for :
    (tolower : ℕ → ℕ) (d : List ℕ) (rs rs' : List Record) (d' : List ℕ)
    → matching tolower d rs ≤ 1
    → clear tolower d rs ≡ some rs'
    → answer_for tolower rs' d'
      ≡ (if domain_eq tolower d d' then none else answer_for tolower rs d')
unfolding clear matching answer_for
clear-answer_for tolower d [] rs' d' once h = ground (arith, h)
clear-answer_for tolower d (r ∷ rs) rs' d' once h = elim (Option-cases (clear tolower d rs)) [
  | inl e ↦ ground (
    arith,
    h,
    e,
    once,
    matching-none tolower d rs,
    answer_for_eq tolower rs d d',
    domain_eq_left tolower r.domain d d',
    domain_eq_right tolower d d' r.domain,
  )
  | inr (rs'', e) ↦ ground (
    arith,
    h,
    e,
    once,
    matching-none tolower d rs,
    answer_for_eq tolower rs d d',
    clear-answer_for tolower d rs rs'' d',
    domain_eq_left tolower r.domain d d',
    domain_eq_right tolower d d' r.domain,
  )
]

clear-none :
    (tolower : ℕ → ℕ) (d : List ℕ) (rs : List Record)
    → clear tolower d rs ≡ none
    → matching tolower d rs ≡ 0
unfolding clear matching
clear-none tolower d [] h = refl
clear-none tolower d (r ∷ rs) h = ground (arith, h, clear-none tolower d rs)

-- What dns_static_lookup finds answers the query.
find-answer_for :
    (tolower : ℕ → ℕ) (d : List ℕ) (rs : List Record)
    → answer_for tolower rs d ≡ answer_of (find tolower d rs)
unfolding find answer_for
find-answer_for tolower d [] = refl
find-answer_for tolower d (r ∷ rs) = ground (arith, find-answer_for tolower d rs)

matching-find :
    (tolower : ℕ → ℕ) (d : List ℕ) (rs : List Record)
    → matching tolower d rs ≡ 0
    → find tolower d rs ≡ none
unfolding matching find
matching-find tolower d [] h = refl
matching-find tolower d (r ∷ rs) h = ground (arith, h, matching-find tolower d rs)

-- dns_static_add of a name of at most 253 bytes: the names that compare equal to it are answered with the
-- new address and TTL, 3600 in place of 0, and the others as before. Or it fails: then all 64
-- records are taken, none has the name, and nothing changes.
pub add-lookup :
    (tolower : ℕ → ℕ) (table : Table) (d : List ℕ) (ip_addr ttl : ℕ)
    → IsTolower tolower
    → length d ≤ 253
    → IsTable tolower table
    → (((add tolower table d ip_addr ttl).0 ≡ Status.success)
        × ((d' : List ℕ)
            → answer_of (lookup tolower ((add tolower table d ip_addr ttl).1) d') ≡ (
                if domain_eq tolower d d'
                then some (ip_addr, if ttl == 0 then 3600 else ttl)
                else answer_of (lookup tolower table d'))))
      ⊎ ((add tolower table d ip_addr ttl ≡ (Status.error, table))
          × (get_count table ≡ 64)
          × (lookup tolower table d ≡ none))
unfolding add add_new
add-lookup tolower table d ip_addr ttl t fits h =
    let ttl' = if ttl == 0 then default_ttl else ttl in
    elim (Option-cases (update tolower d ip_addr ttl' table.records)) [
      | inr (rs, e) ↦ inl (
          rw (add, e)
            (
              refl,
              λ d'.
                  rw
                    (
                      sym (find-answer_for tolower d' rs),
                      sym (find-answer_for tolower d' table.records),
                    )
                    (update-answer_for tolower d ip_addr ttl' table.records rs d' e),
            ))
      | inl e ↦ elim (Option-cases (fill tolower d ip_addr ttl' table.records)) [
        | inl e' ↦ inr (
          rw (add, e, e') refl,
          omega (arith, h.counted, h.slots, fill-none tolower d ip_addr ttl' table.records e'),
          matching-find tolower d table.records
              (update-none tolower d ip_addr ttl' table.records e),
        )
        | inr (rs, e') ↦ inl (
            rw (add, e, e')
              (
                refl,
                λ d'.
                    rw
                      (
                        sym (find-answer_for tolower d' rs),
                        sym (find-answer_for tolower d' table.records),
                      )
                      (fill-answer_for tolower d ip_addr ttl' table.records rs d' t fits
                        (matching-none tolower d table.records
                          (update-none tolower d ip_addr ttl' table.records e))
                        e'),
              ))
      ]
    ]

-- dns_static_remove: the names that compare equal to it are found no more, and the others are answered as
-- before. Or it fails: then the name is not found, and nothing changes.
remove-lookup :
    (tolower : ℕ → ℕ) (table : Table) (d : List ℕ)
    → IsTable tolower table
    → (((remove tolower table d).0 ≡ Status.success)
        × ((d' : List ℕ)
            → answer_of (lookup tolower ((remove tolower table d).1) d')
              ≡ (if domain_eq tolower d d' then none else answer_of (lookup tolower table d'))))
      ⊎ ((remove tolower table d ≡ (Status.error, table)) × (lookup tolower table d ≡ none))
unfolding remove
remove-lookup tolower table d h = elim (Option-cases (clear tolower d table.records)) [
  | inl e ↦ inr (
    rw (remove, e) refl,
    matching-find tolower d table.records (clear-none tolower d table.records e),
  )
  | inr (rs, e) ↦ inl (
      rw (remove, e)
        (
          refl,
          λ d'.
              rw
                (
                  sym (find-answer_for tolower d' rs),
                  sym (find-answer_for tolower d' table.records),
                )
                (clear-answer_for tolower d table.records rs d' (h.unique d) e),
        ))
]
