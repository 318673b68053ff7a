-- ===== src/Dns/Name.antt =====
-- dns_parse_name and dns_domain_to_lower of src/dnsd/dns_codec.c.
pub mod Safe
pub mod Encode
use fastrg_node.Base.{
  ℕ, zero, suc, ◌+◌, ◌-◌, ◌*◌, ◌/◌, ◌%◌, List, [], ◌∷◌, ◌++◌, Bool, true, false, ◌&&◌, ◌||◌, not,
  leb, ltb, ◌==◌, if◌then◌else◌, length,
}
use fastrg_node.Dns.{
  Result, ok, rejected, fault, stuck, ◌>>=◌, ◌>>◌, guard, within, u16, read, read_bytes,
}

-- DNS_MAX_DOMAIN_LEN and DNS_MAX_LABEL_LEN.
abbrev pub max_domain_len : ℕ
max_domain_len = 253

abbrev pub max_label_len : ℕ
max_label_len = 63

-- dns_domain_to_lower, for the `tolower` of the C library.
unfoldable pub domain_to_lower : (ℕ → ℕ) → List ℕ → List ℕ
domain_to_lower tolower [] = []
domain_to_lower tolower (c ∷ cs) =
    let rest = domain_to_lower tolower cs in if c == 0 then c ∷ cs else tolower c ∷ rest

-- The variables of dns_parse_name. `name` holds the `out` bytes written to name_buf.
pub record Cursor : Type 0 where
  pub consumed : ℕ
  pub pos : ℕ
  pub name : List ℕ
  pub jumped : Bool
  pub jump_count : ℕ

-- What a round of the loop does: go on, or break.
pub data Round : Type 0 where
  again : Cursor → Round
  break : Cursor → Round

-- A compression pointer at `pos`.
unfoldable pub follow : List ℕ → ℕ → ℕ → Cursor → Result Round
unfolding read
follow pkt offset label_len c = do
  guard (ltb (c.pos + 1) (length pkt))
  low ← read pkt (c.pos + 1)
  let consumed = if c.jumped then c.consumed else u16 (c.pos - offset + 2)
  let ptr = label_len % 64 * 256 + low
  guard (ltb ptr (length pkt))
  let jump_count = c.jump_count + 1
  guard (leb jump_count 128)
  ok (again (record c { consumed = consumed; pos = ptr; jumped = true; jump_count = jump_count }))

-- A label of `label_len` bytes behind `pos`.
unfoldable pub append_label : List ℕ → ℕ → ℕ → ℕ → Cursor → Result Round
unfolding read_bytes
append_label pkt offset name_max label_len c = do
  guard (leb label_len max_label_len)
  let pos = u16 (c.pos + 1)
  guard (leb (pos + label_len) (length pkt))
  let dotted = ltb 0 (length c.name)
  guard (not dotted || ltb (length c.name + 1) name_max)
  let name = if dotted then c.name ++ (46 ∷ []) else c.name
  guard (ltb (length name + label_len) name_max)
  label ← read_bytes pkt pos label_len
  within (leb (length name + label_len) name_max)
  let pos' = u16 (pos + label_len)
  ok (
      again (record c {
        consumed = if c.jumped then c.consumed else u16 (pos' - offset);
        pos = pos';
        name = name ++ label;
      }))

-- One round of the loop.
unfoldable pub name_round : List ℕ → ℕ → ℕ → Cursor → Result Round
unfolding read follow append_label
name_round pkt offset name_max c =
    if ltb c.pos (length pkt)
    then (read pkt c.pos >>= λ label_len.
        if label_len == 0
        then ok (
            break
              (record c { consumed = if c.jumped then c.consumed else u16 (c.pos - offset + 1) }))
        else if label_len / 64 % 4 == 3
        then follow pkt offset label_len c
        else append_label pkt offset name_max label_len c)
    else ok (break c)

unfoldable pub name_loop : ℕ → List ℕ → ℕ → ℕ → Cursor → Result Cursor
unfolding name_round
name_loop zero pkt offset name_max c = stuck
name_loop (suc fuel) pkt offset name_max c =
    name_round pkt offset name_max c
    >>= elim [ again c' ↦ name_loop fuel pkt offset name_max c' | break c' ↦ ok c' ]

-- dns_parse_name: the bytes consumed and the name. A label takes a byte of name_buf at least and there
-- are at most 128 jumps, which bounds the rounds.
unfoldable pub parse_name : List ℕ → ℕ → ℕ → Result (ℕ × List ℕ)
unfolding name_loop
parse_name pkt offset name_max = do
  guard (ltb 0 name_max)
  c ←
      name_loop (name_max + 130) pkt offset name_max
        (record { consumed = 0; pos = offset; name = []; jumped = false; jump_count = 0 })
  within (ltb (length c.name) name_max)
  ok (c.consumed, c.name)
