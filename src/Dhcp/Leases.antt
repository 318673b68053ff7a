-- ===== src/Dhcp/Leases.antt =====
-- The entries that the selection of src/dhcpd/dhcp_codec.c hands out.
use fastrg_node.Base.{
  ℕ, zero, suc, ◌<◌, ◌≡◌, ◌≢◌, refl, List, [], ◌∷◌, true, false, Option, none, some, get_elem?,
  take, arith, Bool-cases, Option-cases, inl, inr, ◌⊎◌, ap, ◌∙◌,
}
use fastrg_node.Dhcp.{
  LanUser, Ccb, is_open, first_open, select, update, claim, claimed, check_pool, offer, offered,
  pick_ip_from_pool,
}

-- An entry that may be handed to a client: it is not reserved, and free or the client's own.
abbrev pub MayHave : ℕ → LanUser → Type 0
MayHave mac e = (e.reserved ≡ false) × ((e.used ≡ false) ⊎ (e.mac_addr ≡ mac))

-- An entry that may not: it is reserved, or in use by another client.
abbrev pub IsTaken : ℕ → LanUser → Type 0
IsTaken mac e = (e.reserved ≡ true) ⊎ ((e.used ≡ true) × (e.mac_addr ≢ mac))

abbrev pub AllTaken : ℕ → List LanUser → Type 0
AllTaken mac [] = Unit {0}
AllTaken mac (e ∷ es) = IsTaken mac e × AllTaken mac es

-- The entry at a place of the window.
abbrev pub Found : ℕ → ℕ → List LanUser → Type 0
Found mac i es = (e : LanUser) × (get_elem? es i ≡ some e) × MayHave mac e

is_open-MayHave : (mac : ℕ) (e : LanUser) → is_open mac e ≡ true → MayHave mac e
is_open-MayHave mac e h = ground (arith, h)

is_open-IsTaken : (mac : ℕ) (e : LanUser) → is_open mac e ≡ false → IsTaken mac e
is_open-IsTaken mac e h = elim (Bool-cases e.reserved) [
  | inl r ↦ inl r
  | inr r ↦ elim (Bool-cases e.used) [
    | inl u ↦ inr (u, ground (arith, h, r, u))
    | inr u ↦ absurd (ground (arith, h, r, u))
  ]
]

first_open-Found :
    (mac skip : ℕ) (es : List LanUser) (i : ℕ) → first_open mac skip es ≡ some i → Found mac i es
unfolding first_open
first_open-Found mac skip [] i h = ground (arith, h)
first_open-Found mac (suc skip) (e ∷ es) i h = elim (Option-cases (first_open mac skip es)) [
  | inl k ↦ ground (arith, h, k)
  | inr (j, k) ↦ let z : i ≡ suc j = ground (arith, h, k) in rw z (first_open-Found mac skip es j k)
]
first_open-Found mac zero (e ∷ es) i h = elim (Bool-cases (is_open mac e)) [
  | inl o ↦ let z : i ≡ 0 = ground (arith, h, o) in rw z (e, refl, is_open-MayHave mac e o)
  | inr o ↦ elim (Option-cases (first_open mac zero es)) [
    | inl k ↦ ground (arith, h, k, o)
    | inr (j, k) ↦
        let z : i ≡ suc j = ground (arith, h, k, o) in rw z (first_open-Found mac zero es j k)
  ]
]

first_open-AllTaken :
    (mac : ℕ) (es : List LanUser) → first_open mac zero es ≡ none → AllTaken mac es
unfolding first_open
first_open-AllTaken mac [] h = tt
first_open-AllTaken mac (e ∷ es) h = elim (Option-cases (first_open mac zero es)) [
  | inl k ↦ (is_open-IsTaken mac e (ground (arith, h, k)), first_open-AllTaken mac es k)
  | inr (j, k) ↦ ground (arith, h, k)
]

-- What a selection selects.
select-Found :
    (mac cur : ℕ) (es : List LanUser)
    → ((select mac cur es ≡ none) × AllTaken mac es)
      ⊎ ((i : ℕ) × (select mac cur es ≡ some i) × Found mac i es)
unfolding select
select-Found mac cur es = elim (Option-cases (first_open mac cur es)) [
  | inr (i, k) ↦ inr (i, rw (select, k) refl, first_open-Found mac cur es i k)
  | inl k ↦ elim (Option-cases (first_open mac zero es)) [
    | inl k' ↦ inl (rw (select, k) k', first_open-AllTaken mac es k')
    | inr (i, k') ↦ inr (i, rw (select, k) k', first_open-Found mac zero es i k')
  ]
]

-- An entry of the first `n` is one of all.
get_elem?-take :
    (n i : ℕ) (es : List LanUser) (e : LanUser)
    → get_elem? (take n es) i ≡ some e
    → (get_elem? es i ≡ some e) × (i < n)
get_elem?-take zero i es e h = ground (arith, h)
get_elem?-take (suc n) i [] e h = ground (arith, h)
get_elem?-take (suc n) zero (x ∷ es) e h = (h, omega arith)
get_elem?-take (suc n) (suc i) (x ∷ es) e h =
    let k = get_elem?-take n i es e h in (k.0, omega (arith, k.1))

pub get_elem?-update :
    (f : LanUser → LanUser) (es : List LanUser) (i : ℕ) (e : LanUser)
    → get_elem? es i ≡ some e
    → get_elem? (update f i es) i ≡ some (f e)
get_elem?-update f [] i e h = ground (arith, h)
get_elem?-update f (x ∷ es) zero e h = ground (arith, h)
get_elem?-update f (x ∷ es) (suc i) e h = get_elem?-update f es i e h

pub get_elem?-update_ne :
    (f : LanUser → LanUser) (es : List LanUser) (i j : ℕ)
    → j ≢ i
    → get_elem? (update f i es) j ≡ get_elem? es j
get_elem?-update_ne f [] i j h = refl
get_elem?-update_ne f (x ∷ es) zero zero h = absurd (h refl)
get_elem?-update_ne f (x ∷ es) zero (suc j) h = refl
get_elem?-update_ne f (x ∷ es) (suc i) zero h = refl
get_elem?-update_ne f (x ∷ es) (suc i) (suc j) h = get_elem?-update_ne f es i j (λ e. h (ap suc e))

claim_lem :
    (mac : ℕ) (e : LanUser) → MayHave mac e → claim mac e ≡ record e { used = true; mac_addr = mac }
claim_lem mac e h = ground (arith, h)

offer_lem : (mac : ℕ) (e : LanUser) → offer mac e ≡ record e { mac_addr = mac }
offer_lem mac e = ground arith

-- One entry of the window was the client's to have, and has become `f` of itself; the others stay.
abbrev pub Handed : (LanUser → LanUser) → ℕ → Ccb → Option ℕ × Ccb → Type 0
Handed f mac c (o, c') =
    (i : ℕ) × (e : LanUser) × (o ≡ some i)
    × (i < c.per_lan_user_pool_len)
    × (get_elem? c.per_lan_user_pool i ≡ some e)
    × MayHave mac e
    × (get_elem? c'.per_lan_user_pool i ≡ some (f e))
    × ((j : ℕ) → j ≢ i → get_elem? c'.per_lan_user_pool j ≡ get_elem? c.per_lan_user_pool j)

-- check_pool: one entry that is not reserved, and free or the client's own, is in use by the client
-- from then on and is reported, and no other entry changes. Or it fails: then every entry of the
-- window is reserved or in use by another client, and nothing changes.
pub check_pool-Handed :
    (c : Ccb) (cur mac : ℕ)
    → (Handed (λ e. record e { used = true; mac_addr = mac }) mac c (check_pool c cur mac))
      ⊎ ((check_pool c cur mac ≡ (none, c))
          × AllTaken mac (take c.per_lan_user_pool_len c.per_lan_user_pool))
unfolding check_pool claimed
check_pool-Handed c cur mac =
    elim (select-Found mac cur (take c.per_lan_user_pool_len c.per_lan_user_pool)) [
      | inl (h, taken) ↦ inr (rw (check_pool, h) refl, taken)
      | inr (i, h, (e, k, may)) ↦
          let (at, lt) = get_elem?-take c.per_lan_user_pool_len i c.per_lan_user_pool e k in
          inl (
            rw (check_pool, h)
              (
                i,
                e,
                refl,
                lt,
                at,
                may,
                get_elem?-update (claim mac) c.per_lan_user_pool i e at
                    ∙ ap some (claim_lem mac e may),
                get_elem?-update_ne (claim mac) c.per_lan_user_pool i,
              ))
    ]

-- pick_ip_from_pool: the entry whose address is offered is not reserved, and free or the client's own,
-- and it bears the client's address from then on, in use or not as before. Or it fails: then
-- every entry of the window is reserved or in use by another client, and nothing changes.
pub pick_ip_from_pool-Handed :
    (c : Ccb) (cur mac : ℕ)
    → (Handed (λ e. record e { mac_addr = mac }) mac c (pick_ip_from_pool c cur mac))
      ⊎ ((pick_ip_from_pool c cur mac ≡ (none, c))
          × AllTaken mac (take c.per_lan_user_pool_len c.per_lan_user_pool))
unfolding pick_ip_from_pool offered
pick_ip_from_pool-Handed c cur mac =
    elim (select-Found mac cur (take c.per_lan_user_pool_len c.per_lan_user_pool)) [
      | inl (h, taken) ↦ inr (rw (pick_ip_from_pool, h) refl, taken)
      | inr (i, h, (e, k, may)) ↦
          let (at, lt) = get_elem?-take c.per_lan_user_pool_len i c.per_lan_user_pool e k in
          inl (
            rw (pick_ip_from_pool, h)
              (
                i,
                e,
                refl,
                lt,
                at,
                may,
                get_elem?-update (offer mac) c.per_lan_user_pool i e at ∙ ap some (offer_lem mac e),
                get_elem?-update_ne (offer mac) c.per_lan_user_pool i,
              ))
    ]
