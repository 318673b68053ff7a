-- ===== src/Dhcp/Request.antt =====
-- decode_request of src/dhcpd/dhcp_codec.c: which address a DHCP request asks for, and the event.
use Prim.Native.Nat.{bit_and}
use fastrg_node.Base.{
  ℕ, zero, suc, ◌+◌, ◌≤◌, ◌<◌, ◌≡◌, ◌⊎◌, inl, inr, refl, sym, ◌∙◌, subst, Bool, true, false, ◌&&◌,
  ◌||◌, not, leb, ltb, ◌==◌, ==_iff, if◌then◌else◌, Option, none, some, arith, Bool-cases,
}
use fastrg_node.Dhcp.{Ccb, ip_is_reserved, check_pool}

-- How the machine lays out words in memory: rte_be_to_cpu_32, the U32 and the Ethernet address that
-- are copied from a place.
pub record Layout : Type 0 where
  pub be_to_cpu_32 : ℕ → ℕ
  pub word : (ℕ → ℕ) → ℕ → ℕ
  pub ether : (ℕ → ℕ) → ℕ → ℕ

-- The message: the two addresses of its DHCP header, the source address, whether it went to the
-- broadcast address, and the bytes from the options on, of which `field_len` are in the datagram.
pub record Message : Type 0 where
  pub client_ip : ℕ
  pub your_ip : ℕ
  pub source : ℕ
  pub is_broadcast : Bool
  pub field_len : ℕ
  pub byte : ℕ → ℕ

-- ERROR, E_BAD_REQUEST, or the client's address and the address that it asks for.
pub data Decoded : Type 0 where
  malformed : Decoded
  refused : Decoded
  accepted : ℕ → ℕ → Decoded
  out_of_fuel : Decoded

-- The three checks of an address.
unfoldable pub is_servable : Layout → Ccb → ℕ → Bool
is_servable l c ip =
    (bit_and ip c.subnet_mask == bit_and c.dhcp_server_ip c.subnet_mask)
    && (not (ltb (l.be_to_cpu_32 ip) c.pool_start || ltb c.pool_end (l.be_to_cpu_32 ip))
        && not (ip_is_reserved (l.be_to_cpu_32 ip)))

-- What the checks are for: the subnet, the range, and no network or broadcast address.
unfoldable pub Served : Layout → Ccb → ℕ → Type 0
Served l c ip =
    (bit_and ip c.subnet_mask ≡ bit_and c.dhcp_server_ip c.subnet_mask)
    × (c.pool_start ≤ l.be_to_cpu_32 ip)
    × (l.be_to_cpu_32 ip ≤ c.pool_end)
    × (ip_is_reserved (l.be_to_cpu_32 ip) ≡ false)

is_servable-Served : (l : Layout) (c : Ccb) (ip : ℕ) → is_servable l c ip ≡ true → Served l c ip
unfolding is_servable Served
is_servable-Served l c ip h = ground (arith, h)

abbrev pub at_end : Message → ℕ → Bool
at_end m pos = (m.byte pos == 255) || leb m.field_len pos

abbrev pub overruns : Message → ℕ → Bool
overruns m pos = ltb m.field_len (pos + m.byte (pos + 1) + 2)

-- The option of the server's identifier is four bytes long and names this server.
unfoldable pub names_server : Layout → Ccb → Message → ℕ → Bool
names_server l c m pos = (m.byte (pos + 1) == 4) && (l.word m.byte (pos + 2) == c.dhcp_server_ip)

-- The loop for a renewal or a rebinding, which asks for `ip`.
unfoldable pub renew : Layout → Ccb → Message → ℕ → ℕ → ℕ → Decoded
renew l c m ip zero pos = out_of_fuel
renew l c m ip (suc fuel) pos =
    let rest = renew l c m ip fuel (pos + m.byte (pos + 1) + 2) in
    if at_end m pos
    then accepted m.source ip
    else if overruns m pos
    then malformed
    else if m.byte pos == 54
    then (if names_server l c m pos then accepted m.source ip else malformed)
    else if m.is_broadcast
    then accepted m.source ip
    else rest

-- The loop for a selection, with the client's address and the address asked for so far.
unfoldable pub choose : Layout → Ccb → Message → ℕ → ℕ → ℕ → ℕ → Decoded
choose l c m mac ip zero pos = out_of_fuel
choose l c m mac ip (suc fuel) pos =
    let on = pos + m.byte (pos + 1) + 2 in
    let client = choose l c m (l.ether m.byte (pos + 3)) ip fuel on in
    let wish = choose l c m mac (l.word m.byte (pos + 2)) fuel on in
    let rest = choose l c m mac ip fuel on in
    if at_end m pos
    then accepted mac ip
    else if overruns m pos
    then malformed
    else if m.byte pos == 61
    then (if ltb (m.byte (pos + 1)) 7 || not (m.byte (pos + 2) == 1) then malformed else client)
    else if m.byte pos == 50
    then (if not (m.byte (pos + 1) == 4)
        then malformed
        else if is_servable l c (l.word m.byte (pos + 2))
        then wish
        else refused)
    else if m.byte pos == 54
    then (if names_server l c m pos then rest else malformed)
    else rest

-- decode_request up to its call of check_pool; an option takes two bytes or more of the field.
unfoldable pub decode_options : Layout → Ccb → Message → Decoded
decode_options l c m =
    if not (m.client_ip == 0)
    then (if is_servable l c m.client_ip
        then renew l c m m.client_ip (suc m.field_len) 0
        else refused)
    else choose l c m m.source m.your_ip (suc m.field_len) 0

-- DHCP_EVENT_TYPE as far as decode_request has it.
pub data Verdict : Type 0 where
  error : Verdict
  bad_request : Verdict
  good_request : Verdict

abbrev pub checked : Option ℕ × Ccb → Verdict × Ccb
checked (none, c) = (bad_request, c)
checked (some i, c) = (good_request, c)

unfoldable pub judge : Ccb → ℕ → Decoded → Verdict × Ccb
judge c cur malformed = (error, c)
judge c cur refused = (bad_request, c)
judge c cur (accepted mac ip) = checked (check_pool c cur mac)
judge c cur out_of_fuel = (error, c)

-- decode_request, for the user at `cur`.
unfoldable pub decode_request : Layout → Ccb → ℕ → Message → Verdict × Ccb
decode_request l c cur m = judge c cur (decode_options l c m)

-- What the loops give: an end, and an address that was checked or that came with the message.
Asked : Layout → Ccb → ℕ → Decoded → Type 0
Asked l c ip malformed = Unit {0}
Asked l c ip refused = Unit {0}
Asked l c ip (accepted mac ip') = Served l c ip' ⊎ (ip' ≡ ip)
Asked l c ip out_of_fuel = ⊥

malformed-Asked : (l : Layout) (c : Ccb) (ip : ℕ) → Asked l c ip malformed
unfolding Asked
malformed-Asked l c ip = tt

refused-Asked : (l : Layout) (c : Ccb) (ip : ℕ) → Asked l c ip refused
unfolding Asked
refused-Asked l c ip = tt

accepted-Asked : (l : Layout) (c : Ccb) (mac ip : ℕ) → Asked l c ip (accepted mac ip)
unfolding Asked
accepted-Asked l c mac ip = inr refl

-- An option that fits ends within the field.
fits_lem :
    (m : Message) (pos : ℕ) → overruns m pos ≡ false → pos + m.byte (pos + 1) + 2 ≤ m.field_len
fits_lem m pos h = ground (arith, h)

renew-Asked :
    (l : Layout) (c : Ccb) (m : Message) (ip fuel pos : ℕ)
    → pos ≤ m.field_len
    → m.field_len < pos + fuel
    → Asked l c ip (renew l c m ip fuel pos)
unfolding renew Asked
renew-Asked l c m ip zero pos a h = absurd (omega arith)
renew-Asked l c m ip (suc fuel) pos a h = elim (Bool-cases (at_end m pos)) [
  | inl e ↦ rw e (inr refl)
  | inr e ↦ elim (Bool-cases (overruns m pos)) [
    | inl o ↦ rw (e, o) tt
    | inr o ↦ elim (Bool-cases (m.byte pos == 54)) [
      | inl s ↦ elim (Bool-cases (names_server l c m pos)) [
        | inl n ↦ rw (e, o, s, n) (inr refl)
        | inr n ↦ rw (e, o, s, n) tt
      ]
      | inr s ↦ elim (Bool-cases m.is_broadcast) [
        | inl b ↦ rw (e, o, s, b) (inr refl)
        | inr b ↦
            rw (e, o, s, b)
              (renew-Asked l c m ip fuel (pos + m.byte (pos + 1) + 2) (fits_lem m pos o)
                (omega arith))
      ]
    ]
  ]
]

Asked-known :
    (l : Layout) (c : Ccb) (ip wish : ℕ) (d : Decoded)
    → Served l c wish ⊎ (wish ≡ ip)
    → Asked l c wish d
    → Asked l c ip d
unfolding Asked
Asked-known l c ip wish malformed k h = tt
Asked-known l c ip wish refused k h = tt
Asked-known l c ip wish (accepted mac ip') k (inl h) = inl h
Asked-known l c ip wish (accepted mac ip') (inl k) (inr h) =
    inl (subst (λ x. Served l c x) (sym h) k)
Asked-known l c ip wish (accepted mac ip') (inr k) (inr h) = inr (h ∙ k)
Asked-known l c ip wish out_of_fuel k h = h

choose-Asked :
    (l : Layout) (c : Ccb) (m : Message) (mac ip fuel pos : ℕ)
    → pos ≤ m.field_len
    → m.field_len < pos + fuel
    → Asked l c ip (choose l c m mac ip fuel pos)
unfolding choose
choose-Asked l c m mac ip zero pos a h = absurd (omega arith)
choose-Asked l c m mac ip (suc fuel) pos a h = elim (Bool-cases (at_end m pos)) [
  | inl e ↦ rw e (accepted-Asked l c mac ip)
  | inr e ↦ elim (Bool-cases (overruns m pos)) [
    | inl o ↦ rw (e, o) (malformed-Asked l c ip)
    | inr o ↦
        let on = pos + m.byte (pos + 1) + 2 in
        let within = fits_lem m pos o in
        elim (Bool-cases (m.byte pos == 61)) [
          | inl k ↦ elim (Bool-cases (ltb (m.byte (pos + 1)) 7 || not (m.byte (pos + 2) == 1))) [
            | inl bad ↦ rw (e, o, k, bad) (malformed-Asked l c ip)
            | inr ok ↦
                rw (e, o, k, ok)
                  (choose-Asked l c m (l.ether m.byte (pos + 3)) ip fuel on within (omega arith))
          ]
          | inr k ↦ elim (Bool-cases (m.byte pos == 50)) [
            | inl k' ↦ elim (Bool-cases (not (m.byte (pos + 1) == 4))) [
              | inl bad ↦ rw (e, o, k, k', bad) (malformed-Asked l c ip)
              | inr ok ↦ elim (Bool-cases (is_servable l c (l.word m.byte (pos + 2)))) [
                | inr no_ip ↦ rw (e, o, k, k', ok, no_ip) (refused-Asked l c ip)
                | inl ip_ok ↦
                    rw (e, o, k, k', ok, ip_ok)
                      (Asked-known l c ip (l.word m.byte (pos + 2)) _
                        (inl (is_servable-Served l c _ ip_ok))
                        (choose-Asked l c m mac (l.word m.byte (pos + 2)) fuel on within
                          (omega arith)))
              ]
            ]
            | inr k' ↦ elim (Bool-cases (m.byte pos == 54)) [
              | inl s ↦ elim (Bool-cases (names_server l c m pos)) [
                | inl n ↦
                    rw (e, o, k, k', s, n) (choose-Asked l c m mac ip fuel on within (omega arith))
                | inr n ↦ rw (e, o, k, k', s, n) (malformed-Asked l c ip)
              ]
              | inr s ↦ rw (e, o, k, k', s) (choose-Asked l c m mac ip fuel on within (omega arith))
            ]
          ]
        ]
  ]
]

-- The address that is asked for may be served, or it is the your-address of a header without a client
-- address.
unfoldable pub Answers : Layout → Ccb → Message → Decoded → Type 0
Answers l c m malformed = Unit {0}
Answers l c m refused = Unit {0}
Answers l c m (accepted mac ip) = Served l c ip ⊎ ((m.client_ip ≡ 0) × (ip ≡ m.your_ip))
Answers l c m out_of_fuel = ⊥

refused-Answers : (l : Layout) (c : Ccb) (m : Message) → Answers l c m refused
unfolding Answers
refused-Answers l c m = tt

renew-Answers :
    (l : Layout) (c : Ccb) (m : Message) (d : Decoded)
    → Served l c m.client_ip
    → Asked l c m.client_ip d
    → Answers l c m d
unfolding Asked Answers
renew-Answers l c m malformed k h = tt
renew-Answers l c m refused k h = tt
renew-Answers l c m (accepted mac ip) k (inl h) = inl h
renew-Answers l c m (accepted mac ip) k (inr h) = inl (subst (λ x. Served l c x) (sym h) k)
renew-Answers l c m out_of_fuel k h = h

choose-Answers :
    (l : Layout) (c : Ccb) (m : Message) (d : Decoded)
    → m.client_ip ≡ 0
    → Asked l c m.your_ip d
    → Answers l c m d
unfolding Asked Answers
choose-Answers l c m malformed k h = tt
choose-Answers l c m refused k h = tt
choose-Answers l c m (accepted mac ip) k (inl h) = inl h
choose-Answers l c m (accepted mac ip) k (inr h) = inr (k, h)
choose-Answers l c m out_of_fuel k h = h

-- The reading of the options of a request ends, however long they are, and an address that it accepts
-- lies in the subnet and in the range and is not reserved, or the message has no client address and the
-- accepted one is the your-address of its header.
pub decode_options-Answers :
    (l : Layout) (c : Ccb) (m : Message) → Answers l c m (decode_options l c m)
unfolding decode_options
decode_options-Answers l c m = elim (Bool-cases (m.client_ip == 0)) [
  | inl z ↦ rw z (
      choose-Answers l c m _ ((==_iff m.client_ip 0).0 z)
        (choose-Asked l c m m.source m.your_ip (suc m.field_len) 0 (omega arith) (omega arith)))
  | inr z ↦ elim (Bool-cases (is_servable l c m.client_ip)) [
    | inl ok ↦
        rw (z, ok)
          (renew-Answers l c m _ (is_servable-Served l c _ ok)
            (renew-Asked l c m m.client_ip (suc m.field_len) 0 (omega arith) (omega arith)))
    | inr no_ip ↦ rw (z, no_ip) (refused-Answers l c m)
  ]
]
