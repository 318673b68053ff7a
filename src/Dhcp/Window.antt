-- ===== src/Dhcp/Window.antt =====
-- The window that dhcp_pool_init_by_user of src/dhcpd/dhcpd.c sets up.
use fastrg_node.Base.{
  ℕ, zero, suc, ◌+◌, ◌-◌, ◌%◌, ◌^◌, ◌≤◌, ◌<◌, ◌≡◌, ◌≢◌, refl, ap, ◌∙◌, List, [], ◌∷◌, Bool, true,
  false, ltb, ◌==◌, if◌then◌else◌, some, get_elem?, length, arith, Bool-cases, inl, inr, ◌⊎◌,
  lt→ltb,
}
use fastrg_node.Dhcp.{
  LanUser, Ccb, Status, ip_is_reserved, reset_entry, reset_entries, stop_timers, window_len,
  max_pool_size, pool_init_by_user,
}

length-stop_timers : (n : ℕ) (es : List LanUser) → length (stop_timers n es) ≡ length es
unfolding stop_timers
length-stop_timers zero es = refl
length-stop_timers (suc n) [] = refl
length-stop_timers (suc n) (e ∷ es) = omega (arith, length-stop_timers n es)

-- The entry at place `k` of a list that begins with the entry `i`.
get_elem?-reset_entries :
    (be : ℕ → ℕ) (start new_len i n : ℕ) (es : List LanUser) (k : ℕ)
    → k < n
    → k < length es
    → (e : LanUser) × (get_elem? (reset_entries be start new_len i n es) k
        ≡ some (reset_entry be start new_len (i + k) e))
      × (get_elem? es k ≡ some e)
unfolding reset_entries
get_elem?-reset_entries be start new_len i zero es k h l = absurd (omega arith)
get_elem?-reset_entries be start new_len i (suc n) [] k h l = absurd (omega arith)
get_elem?-reset_entries be start new_len i (suc n) (e ∷ es) zero h l =
    let z : i + 0 ≡ i = omega arith in (e, rw z refl, refl)
get_elem?-reset_entries be start new_len i (suc n) (e ∷ es) (suc k) h l =
    let (e', eq, at_k) =
      get_elem?-reset_entries be start new_len (i + 1) n es k (omega arith) (omega arith) in
    let z : i + suc k ≡ i + 1 + k = omega arith in (e', rw (z, eq) refl, at_k)

-- The timers of the first `n` users are stopped.
get_elem?-stop_timers :
    (n : ℕ) (es : List LanUser) (i : ℕ) (e : LanUser)
    → get_elem? (stop_timers n es) i ≡ some e
    → (n ≤ i) ⊎ (e.timer ≡ false)
unfolding stop_timers
get_elem?-stop_timers zero es i e h = inl (omega arith)
get_elem?-stop_timers (suc n) [] i e h = ground (arith, h)
get_elem?-stop_timers (suc n) (x ∷ es) zero e h = inr (ground (arith, h))
get_elem?-stop_timers (suc n) (x ∷ es) (suc i) e h = elim (get_elem?-stop_timers n es i e h) [
  | inl le ↦ inl (omega arith)
  | inr off ↦ inr off
]

-- The last octet is 0 or 255, of a network or a broadcast address, and the mark is set; or it is
-- neither, and it is not.
abbrev pub IsMarked : ℕ → Bool → Type 0
IsMarked ip b =
    (((ip % 256 ≡ 0) ⊎ (ip % 256 ≡ 255)) × (b ≡ true))
    ⊎ ((ip % 256 ≢ 0) × (ip % 256 ≢ 255) × (b ≡ false))

-- What an entry of the window is: free, in S_DHCP_INIT, with the address at its place.
abbrev pub IsReset : (ℕ → ℕ) → ℕ → ℕ → LanUser → Type 0
IsReset be start i e =
    (e.ip_addr ≡ be (start + i))
    × IsMarked (start + i) e.reserved
    × (e.used ≡ false)
    × (e.lan_user_used ≡ false)
    × (e.user_mac ≡ 0)
    × (e.mac_addr ≡ 0)
    × (e.state ≡ 1)
    × (e.pool_index ≡ i)

ip_is_reserved-IsMarked : (ip : ℕ) → IsMarked ip (ip_is_reserved ip)
unfolding ip_is_reserved
ip_is_reserved-IsMarked ip = elim (Bool-cases (ip % 256 == 0)) [
  | inl z ↦ inl (inl (ground (arith, z)), ground (arith, z))
  | inr z ↦ elim (Bool-cases (ip % 256 == 255)) [
    | inl b ↦ inl (inr (ground (arith, b)), ground (arith, z, b))
    | inr b ↦ inr (λ k. ground (arith, k, z), λ k. ground (arith, k, b), ground (arith, z, b))
  ]
]

reset_entry-IsReset :
    (be : ℕ → ℕ) (start new_len i : ℕ) (e : LanUser)
    → i < new_len
    → start + i < 2 ^ 32
    → IsReset be start i (reset_entry be start new_len i e)
unfolding reset_entry
reset_entry-IsReset be start new_len i e inside small =
    let z : (start + i) % 2 ^ 32 ≡ start + i = omega arith in
    rw (lt→ltb i new_len inside, z)
      (refl, ip_is_reserved-IsMarked (start + i), refl, refl, refl, refl, refl, refl)

-- The entries of a window that the array has room for.
reset_entries-IsReset :
    (be : ℕ → ℕ) (start new_len n i : ℕ) (es : List LanUser)
    → i < new_len
    → new_len ≤ n
    → i < length es
    → start + i < 2 ^ 32
    → (old_len : ℕ)
    → (e : LanUser) × (get_elem? (reset_entries be start new_len 0 n (stop_timers old_len es)) i
        ≡ some e)
      × IsReset be start i e
      × ((old_len ≤ i) ⊎ (e.timer ≡ false))
unfolding reset_entry
reset_entries-IsReset be start new_len n i es inside rounds room small old_len =
    let (x, eq, at_i) =
      get_elem?-reset_entries be start new_len 0 n (stop_timers old_len es) i (omega arith)
        (omega (arith, length-stop_timers old_len es)) in
    let z : 0 + i ≡ i = omega arith in
    (
      reset_entry be start new_len i x,
      eq ∙ ap (λ k. some (reset_entry be start new_len k x)) z,
      reset_entry-IsReset be start new_len i x inside small,
      get_elem?-stop_timers old_len es i x at_i,
    )

-- The length of a range in order: the whole address space wraps to a window of no entry.
window_len-cases :
    (start end : ℕ)
    → start ≤ end
    → end < 2 ^ 32
    → ((end - start < 2 ^ 32 - 1) × (window_len start end ≡ end - start + 1))
      ⊎ ((start ≡ 0) × (end ≡ 2 ^ 32 - 1) × (window_len start end ≡ 0))
unfolding window_len
window_len-cases start end order small = elim (Bool-cases (ltb (end - start) (2 ^ 32 - 1))) [
  | inl h ↦ inl (ground arith, ground arith)
  | inr h ↦ inr (ground arith, ground arith, ground arith)
]

-- dhcp_pool_init_by_user has set up the window from `start` to `end`, where the window before had
-- `old_len` entries.
abbrev pub Holds : (ℕ → ℕ) → ℕ → ℕ → ℕ → Status × Ccb → Type 0
Holds be old_len start end (status, c) =
    (status ≡ Status.success)
    × (c.pool_start ≡ start)
    × (c.pool_end ≡ end)
    × (c.per_lan_user_pool_len ≡ end - start + 1)
    × ((i : ℕ)
        → i ≤ end - start
        → (e : LanUser) × (get_elem? c.per_lan_user_pool i ≡ some e)
          × IsReset be start i e
          × ((old_len ≤ i) ⊎ (e.timer ≡ false)))

-- dhcp_pool_init_by_user, for a range of 32-bit addresses in order, on the array of 131,072 entries.
-- A range of at most 131,072 addresses becomes the window: its bounds are recorded, its length is that
-- of the range, and each entry of it is free, in S_DHCP_INIT, without a running timer if it stood in
-- the window before, has the address at its place of the range, and is reserved exactly where the last
-- octet of the address is 0 or 255. A longer range is refused and nothing changes, except the whole
-- address space, whose length wraps to 0: the call succeeds and leaves an empty window.
pub pool_init_by_user-IsReset :
    (be : ℕ → ℕ) (c : Ccb) (server_ip ip_start ip_end mask : ℕ)
    → be ip_start ≤ be ip_end
    → be ip_end < 2 ^ 32
    → length c.per_lan_user_pool ≡ 2 ^ 17
    → ((be ip_end - be ip_start < 2 ^ 17)
        × Holds be c.per_lan_user_pool_len
            (be ip_start)
            (be ip_end)
            (pool_init_by_user be c server_ip ip_start ip_end mask))
      ⊎ ((2 ^ 17 ≤ be ip_end - be ip_start)
          × (be ip_end - be ip_start < 2 ^ 32 - 1)
          × (pool_init_by_user be c server_ip ip_start ip_end mask ≡ (Status.error, c)))
      ⊎ ((be ip_start ≡ 0)
          × (be ip_end ≡ 2 ^ 32 - 1)
          × ((pool_init_by_user be c server_ip ip_start ip_end mask).0 ≡ Status.success)
          × ((pool_init_by_user be c server_ip ip_start ip_end mask).1.per_lan_user_pool_len ≡ 0))
unfolding pool_init_by_user
pool_init_by_user-IsReset be c server_ip ip_start ip_end mask order small capacity =
    let start = be ip_start in
    let end = be ip_end in
    let old_len = c.per_lan_user_pool_len in
    elim (window_len-cases start end order small) [
      | inr (z, top, w) ↦
          inr (inr (z, top, rw (pool_init_by_user, w) refl, rw (pool_init_by_user, w) refl))
      | inl (short, w) ↦ elim (Bool-cases (ltb max_pool_size (end - start + 1))) [
        | inl e ↦ inr (inl (ground (arith, e), short, rw (pool_init_by_user, w, e) refl))
        | inr e ↦ inl (
          ground (arith, e),
          rw (pool_init_by_user, w, e)
              (
                refl,
                refl,
                refl,
                refl,
                λ i le.
                    reset_entries-IsReset be start (end - start + 1)
                      (if ltb old_len (end - start + 1) then end - start + 1 else old_len) i
                      c.per_lan_user_pool (omega arith) (ground arith)
                      (ground (arith, capacity, e, le)) (omega arith) old_len,
              ),
        )
      ]
    ]
