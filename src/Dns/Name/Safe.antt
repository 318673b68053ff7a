-- ===== src/Dns/Name/Safe.antt =====
-- Bounds and termination of dns_parse_name of src/dnsd/dns_codec.c.
use fastrg_node.Base.{
  ℕ, zero, suc, ◌+◌, ◌-◌, ◌≤◌, ◌<◌, ◌≡◌, refl, List, [], ◌∷◌, ◌++◌, false, leb, ltb, length, arith,
  length-append, length-take, length-drop, take, drop, Bool-cases, inl, inr,
}
use fastrg_node.Dns.{ok, u16, read, read_bytes, Safe, Safe-bind}
use fastrg_node.Dns.Name.{
  Cursor, Round, again, break, follow, append_label, name_round, name_loop, parse_name,
}

pub read_safe : (pkt : List ℕ) (i : ℕ) → i < length pkt → (b : ℕ) × (read pkt i ≡ ok b)
unfolding read
read_safe [] i h = absurd (omega arith)
read_safe (x ∷ xs) zero h = (x, refl)
read_safe (x ∷ xs) (suc i) h = read_safe xs i (omega arith)

pub read_bytes_safe :
    (pkt : List ℕ) (pos n : ℕ)
    → pos + n ≤ length pkt
    → (bs : List ℕ) × (read_bytes pkt pos n ≡ ok bs) × (length bs ≡ n)
unfolding read_bytes
read_bytes_safe pkt pos n h = (
  take n (drop pos pkt),
  ground arith,
  omega (arith, length-take {0} n (drop pos pkt), length-drop {0} pos pkt),
)

-- What holds of the variables at the head of the loop.
pub record IsCursor (pkt : List ℕ) (offset name_max : ℕ) (c : Cursor) : Type 0 where
  pub name_fits : length c.name < name_max
  pub jumps : c.jump_count ≤ 128
  pub behind : c.jumped ≡ false → offset ≤ c.pos
  pub inside : offset ≤ length pkt → c.pos ≤ length pkt
  pub consumed_fits : c.consumed ≤ length pkt - offset

abbrev pub measure : ℕ → Cursor → ℕ
measure name_max c = name_max - length c.name + (128 - c.jump_count)

-- A round keeps these facts, and where the loop goes on it comes nearer to its end.
abbrev pub Keeps : List ℕ → ℕ → ℕ → ℕ → Round → Type 0
Keeps pkt offset name_max m (again c) = IsCursor pkt offset name_max c × (measure name_max c < m)
Keeps pkt offset name_max m (break c) = IsCursor pkt offset name_max c

follow-Keeps :
    (pkt : List ℕ) (offset name_max label_len : ℕ) (c : Cursor)
    → length pkt < 65536
    → IsCursor pkt offset name_max c
    → c.pos < length pkt
    → Safe (Keeps pkt offset name_max (measure name_max c)) (follow pkt offset label_len c)
unfolding follow
follow-Keeps pkt offset name_max label_len c short h lt =
    elim (Bool-cases (ltb (c.pos + 1) (length pkt))) [
      | inr e ↦ rw e tt
      | inl e ↦ let (b, eq) = read_safe pkt (c.pos + 1) (ground arith) in rw (e, eq) (ground arith)
    ]

append_label-Keeps :
    (pkt : List ℕ) (offset name_max label_len : ℕ) (c : Cursor)
    → length pkt < 65536
    → 0 < label_len
    → IsCursor pkt offset name_max c
    → c.pos < length pkt
    → Safe
        (Keeps pkt offset name_max (measure name_max c))
        (append_label pkt offset name_max label_len c)
unfolding append_label
append_label-Keeps pkt offset name_max label_len c short p h lt =
    elim (Bool-cases (leb (u16 (c.pos + 1) + label_len) (length pkt))) [
      | inr e ↦ ground arith
      | inl e ↦
          let (bs, eq, n) = read_bytes_safe pkt (u16 (c.pos + 1)) label_len (ground arith) in
          ground (
            arith,
            eq,
            n,
            length-append {0} c.name (46 ∷ []),
            length-append {0} (c.name ++ (46 ∷ [])) bs,
            length-append {0} c.name bs,
          )
    ]

name_round-Keeps :
    (pkt : List ℕ) (offset name_max : ℕ) (c : Cursor)
    → length pkt < 65536
    → IsCursor pkt offset name_max c
    → Safe (Keeps pkt offset name_max (measure name_max c)) (name_round pkt offset name_max c)
unfolding name_round
name_round-Keeps pkt offset name_max c short h = elim (Bool-cases (ltb c.pos (length pkt))) [
  | inr e ↦ rw e h
  | inl e ↦
      let (b, eq) = read_safe pkt c.pos (ground arith) in
      rw (e, eq)
        (ground (
          arith,
          follow-Keeps pkt offset name_max b c short h,
          append_label-Keeps pkt offset name_max b c short,
        ))
]

name_loop-Safe :
    (fuel : ℕ) (pkt : List ℕ) (offset name_max : ℕ) (c : Cursor)
    → length pkt < 65536
    → measure name_max c < fuel
    → IsCursor pkt offset name_max c
    → Safe (IsCursor pkt offset name_max) (name_loop fuel pkt offset name_max c)
unfolding name_loop
name_loop-Safe zero pkt offset name_max c short m h = absurd (omega arith)
name_loop-Safe (suc fuel) pkt offset name_max c short m h =
    Safe-bind (Keeps pkt offset name_max (measure name_max c)) (IsCursor pkt offset name_max)
      (name_round pkt offset name_max c) _ (name_round-Keeps pkt offset name_max c short h)
      (elim [
        | again c' ↦ λ (k, less). name_loop-Safe fuel pkt offset name_max c' short (omega arith) k
        | break c' ↦ λ k. k
      ])

-- On a packet of at most 65,535 bytes the parser returns, and it neither reads outside the packet
-- nor writes outside the name's buffer of `name_max` bytes: what it has read lies in the packet,
-- and the name with its final zero fits the buffer.
pub parse_name-Safe :
    (pkt : List ℕ) (offset name_max : ℕ)
    → length pkt < 65536
    → Safe
        (λ (consumed, name). (consumed ≤ length pkt - offset) × (length name < name_max))
        (parse_name pkt offset name_max)
unfolding parse_name
parse_name-Safe pkt offset name_max short = elim (Bool-cases (ltb 0 name_max)) [
  | inr e ↦ rw e tt
  | inl e ↦
      let start : Cursor = record {
        consumed = 0;
        pos = offset;
        name = [];
        jumped = false;
        jump_count = 0;
      } in
      rw e (
        Safe-bind (IsCursor pkt offset name_max)
          (λ (consumed, name). (consumed ≤ length pkt - offset) × (length name < name_max))
          (name_loop (name_max + 130) pkt offset name_max start) _
          (name_loop-Safe (name_max + 130) pkt offset name_max start short (omega arith) (record {
            name_fits = ground arith;
            jumps = omega arith;
            behind = λ _. omega arith;
            inside = λ h. h;
            consumed_fits = omega arith;
          }))
          (λ c h. ground (arith, h.name_fits, h.consumed_fits)))
]
