-- ===== src/Conntrack/Index.antt =====
-- The index of src/pppd/tcp_conntrack.c against a linear scan of the table.
use fastrg_node.Base.{
  Option, if◌then◌else◌, ◌≢◌, ◌&&◌, ℕ, suc, ◌+◌, ◌≤◌, ◌<◌, ◌≡◌, refl, ◌⊎◌, inl, inr, List, [], ◌∷◌,
  none, true, false, ◌==◌, length, get_elem?, arith, Bool-cases,
}
use fastrg_node.Conntrack.Table.{Row}
use fastrg_node.Conntrack.Fsm.{
  is_negative, state_u8, event_u8, nstate, nevent, Index, empty_index, enter, build_from,
  build_index, lookup_row, find_row,
}

enter_kept :
    (ix : Index) (i s e s' e' : ℕ) → ix.idx s' e' < 128 → (enter ix i s e).idx s' e' ≡ ix.idx s' e'
unfolding enter
enter_kept ix i s e s' e' h = ground arith

build_from_kept :
    (i : ℕ) (rs : List Row) (ix : Index) (s e : ℕ)
    → ix.idx s e < 128
    → (build_from i rs ix).idx s e ≡ ix.idx s e
unfolding build_from
build_from_kept i [] ix s e h = refl
build_from_kept i (r ∷ rs) ix s e h = ground (
  arith,
  enter_kept ix i (state_u8 r.state) (event_u8 r.event) s e h,
  build_from_kept (suc i) rs (enter ix i (state_u8 r.state) (event_u8 r.event)) s e,
)

-- An empty cell takes the position of a row that matches, and stays empty at any other row.
enter_empty :
    (ix : Index) (i : ℕ) (r : Row) (s e : ℕ)
    → ix.idx s e ≡ 255
    → s < nstate
    → e < nevent
    → i < 128
    → let ix' = enter ix i (state_u8 r.state) (event_u8 r.event) in
      ((state_u8 r.state ≡ s) × (event_u8 r.event ≡ e) × (ix'.idx s e ≡ i))
      ⊎ (((state_u8 r.state == s && event_u8 r.event == e) ≡ false) × (ix'.idx s e ≡ 255))
unfolding enter
enter_empty ix i r s e h hs he hi = ground arith

==_of_eq : {a b : ℕ} → a ≡ b → (a == b) ≡ true
==_of_eq e = ground arith

lt→small : (k : ℕ) → k < 128 → is_negative k ≡ false
lt→small k h = ground arith

abbrev Found : ℕ → List Row → Option Row → ℕ → Type 0
Found i rs o j =
    ((o ≡ none) × (j ≡ 255))
    ⊎ ((k : ℕ) × (j ≡ i + k) × (j < 128) × (get_elem? rs k ≡ o) × (o ≢ none))

Found-suc :
    (i j : ℕ) (r : Row) (rs : List Row) (o : Option Row)
    → Found (suc i) rs o j
    → Found i (r ∷ rs) o j
Found-suc i j r rs o (inl h) = inl h
Found-suc i j r rs o (inr (k, at, small, got, is)) = inr (suc k, omega arith, small, got, is)

build_from_finds :
    (i : ℕ) (rs : List Row) (ix : Index) (s e : ℕ)
    → i + length rs ≤ 128
    → s < nstate
    → e < nevent
    → ix.idx s e ≡ 255
    → Found i rs (find_row rs s e) ((build_from i rs ix).idx s e)
unfolding build_from find_row
build_from_finds i [] ix s e fits hs he h = inl (refl, h)
build_from_finds i (r ∷ rs) ix s e fits hs he h = elim (Bool-cases (state_u8 r.state == nstate)) [
  | inl last ↦ rw last (inl (refl, h))
  | inr more ↦ elim (enter_empty ix i r s e h hs he (omega arith)) [
    | inl (es, ee, at) ↦
        let ix' : Index = enter ix i (state_u8 r.state) (event_u8 r.event) in
        let kept : (build_from (suc i) rs ix').idx s e ≡ ix'.idx s e =
          build_from_kept (suc i) rs ix' s e (omega arith) in
        rw (more, ==_of_eq es, ==_of_eq ee) (inr (0, omega arith, omega arith, refl, λ q. cc))
    | inr (miss, at) ↦
        rw (more, miss)
          (Found-suc i _ r rs _ (build_from_finds (suc i) rs _ s e (omega arith) hs he at))
  ]
]

lookup_row_of_Found :
    (tbl : List Row) (o : Option Row) (j : ℕ)
    → Found 0 tbl o j
    → (if is_negative j then none else get_elem? tbl j) ≡ o
lookup_row_of_Found tbl o j (inl (p, q)) = rw (p, q)
lookup_row_of_Found tbl o j (inr (k, at, small, got, is)) =
    let e : j ≡ k = omega arith in rw (e, lt→small k (omega arith)) got

-- For every table of at most 128 rows, the index finds for a state and an event the row that a
-- linear scan of the table finds, and none where the scan finds none.
pub lookup_row-eq-find_row :
    (tbl : List Row) (s e : ℕ)
    → length tbl ≤ 128
    → s < nstate
    → e < nevent
    → lookup_row tbl s e ≡ find_row tbl s e
unfolding lookup_row build_index empty_index
lookup_row-eq-find_row tbl s e fits hs he =
    lookup_row_of_Found tbl _ _ (build_from_finds 0 tbl empty_index s e (omega arith) hs he refl)
