-- ===== src/Conntrack/Window.antt =====
-- tcp_conntrack_seq_valid_view and tcp_conntrack_seq_update_view of src/pppd/tcp_conntrack.h: the
-- check of sequence numbers on the inbound path, and the baseline it compares with.
use fastrg_node.Base.{
  ℕ, ◌+◌, ◌-◌, ◌%◌, ◌^◌, ◌≤◌, ◌<◌, ◌≡◌, refl, ◌⊎◌, inl, inr, ◌≢◌, ◌↔◌, Bool, true, false, ◌&&◌, not,
  ◌||◌, ltb, ◌==◌, arith, if◌then◌else◌, Bool-cases,
}
use fastrg_node.Base.Int.{pos, negsuc, ltb_ℤ, u32_mod, signed32, sub32}
use fastrg_node.Conntrack.{View, TcpFlags}

-- The fields of struct rte_tcp_hdr that are read, in host order.
pub record TcpHdr : Type 0 where
  pub sent_seq : ℕ
  pub recv_ack : ℕ
  pub rx_win : ℕ
  pub tcp_flags : TcpFlags

-- The field widths.
pub record HdrFits (h : TcpHdr) : Type 0 where
  pub sent_seq : h.sent_seq < u32_mod
  pub recv_ack : h.recv_ack < u32_mod
  pub rx_win : h.rx_win < 2 ^ 16

pub record WindowFits (v : View) : Type 0 where
  pub max_seq_end_lan : v.max_seq_end_lan < u32_mod
  pub max_seq_end_wan : v.max_seq_end_wan < u32_mod
  pub max_ack_lan : v.max_ack_lan < u32_mod
  pub max_ack_wan : v.max_ack_wan < u32_mod
  pub max_win_lan : v.max_win_lan < 2 ^ 16
  pub max_win_wan : v.max_win_wan < 2 ^ 16

-- delta < -(int32_t)0x00FFFFFF || delta > (int32_t)limit, of the int32_t with bit pattern delta.
unfoldable pub outside : ℕ → ℕ → Bool
outside limit delta =
    ltb_ℤ (signed32 delta) (negsuc (0x00FFFFFF - 1)) || ltb_ℤ (pos limit) (signed32 delta)

-- tcp_conntrack_seq_valid_view
unfoldable pub seq_valid : View → TcpHdr → Bool → Bool
seq_valid v h is_reply =
    let peer_max_ack = if is_reply then v.max_ack_lan else v.max_ack_wan in
    let peer_max_seqend = if is_reply then v.max_seq_end_lan else v.max_seq_end_wan in
    if h.tcp_flags.syn
    then true
    else if peer_max_seqend == 0 && peer_max_ack == 0
    then true
    else if outside 0x00FFFFFF (sub32 h.sent_seq peer_max_ack)
    then false
    else if h.tcp_flags.ack && outside 0xFFFF (sub32 h.recv_ack peer_max_seqend)
    then false
    else true

-- The new value of a baseline: seeded where it is zero, and else moved to a later value only.
unfoldable pub advance : ℕ → ℕ → ℕ
advance old new = if old == 0 || ltb_ℤ (pos 0) (signed32 (sub32 new old)) then new else old

-- seq + payload_len + 1 for a SYN or a FIN, in 32 bits.
unfoldable pub seq_end_of : TcpHdr → ℕ → ℕ
seq_end_of h payload_len =
    (h.sent_seq + payload_len + (if h.tcp_flags.syn || h.tcp_flags.fin then 1 else 0)) % u32_mod

pub seq_end_of-lt : (h : TcpHdr) (payload_len : ℕ) → seq_end_of h payload_len < u32_mod
unfolding seq_end_of
seq_end_of-lt h payload_len = omega arith

-- tcp_conntrack_seq_update_view
unfoldable pub seq_update : View → TcpHdr → ℕ → Bool → View
seq_update v h payload_len is_reply =
    if is_reply
    then record v {
      max_seq_end_wan = advance v.max_seq_end_wan (seq_end_of h payload_len);
      max_ack_wan = advance v.max_ack_wan h.recv_ack;
      max_win_wan = h.rx_win;
    }
    else record v {
      max_seq_end_lan = advance v.max_seq_end_lan (seq_end_of h payload_len);
      max_ack_lan = advance v.max_ack_lan h.recv_ack;
      max_win_lan = h.rx_win;
    }

-- `x` is at most `below` before and at most `above` after `base`, on the circle of 32-bit words.
abbrev pub Near : ℕ → ℕ → ℕ → ℕ → Type 0
Near below above base x =
    ((k : ℕ) × (k ≤ above) × (x ≡ (base + k) % u32_mod))
    ⊎ ((k : ℕ) × (k ≤ below) × (base ≡ (x + k) % u32_mod))

outside-Near :
    (limit base x : ℕ)
    → limit < 2 ^ 31
    → base < u32_mod
    → x < u32_mod
    → (outside limit (sub32 x base) ≡ false)
    → Near 0x00FFFFFF limit base x
unfolding outside
outside-Near limit base x hl hb hx h = elim (Bool-cases (ltb (sub32 x base) (2 ^ 31))) [
  | inl p ↦ inl (sub32 x base, ground arith, ground arith)
  | inr p ↦ inr (sub32 base x, ground arith, ground arith)
]

Near-outside :
    (limit base x : ℕ)
    → limit < 2 ^ 31
    → base < u32_mod
    → x < u32_mod
    → Near 0x00FFFFFF limit base x
    → (outside limit (sub32 x base) ≡ false)
unfolding outside
Near-outside limit base x hl hb hx h = ground arith

-- The baseline of the other direction.
abbrev pub peer_ack : View → Bool → ℕ
peer_ack v is_reply = if is_reply then v.max_ack_lan else v.max_ack_wan

abbrev pub peer_seq_end : View → Bool → ℕ
peer_seq_end v is_reply = if is_reply then v.max_seq_end_lan else v.max_seq_end_wan

-- The sequence and the acknowledgement number lie near what the other side has acknowledged and
-- sent.
abbrev pub InWindow : View → TcpHdr → Bool → Type 0
InWindow v h is_reply =
    Near 0x00FFFFFF 0x00FFFFFF (peer_ack v is_reply) h.sent_seq
    × (h.tcp_flags.ack ≡ true → Near 0x00FFFFFF 0xFFFF (peer_seq_end v is_reply) h.recv_ack)

peer_bounds :
    (v : View) (is_reply : Bool)
    → WindowFits v
    → (peer_ack v is_reply < u32_mod) × (peer_seq_end v is_reply < u32_mod)
peer_bounds v true f = (f.max_ack_lan, f.max_seq_end_lan)
peer_bounds v false f = (f.max_ack_wan, f.max_seq_end_wan)

-- The chain of tests, over any meaning of the two window tests.
tests_iff :
    {P Q : Type 0} (syn zero out_seq ack out_ack : Bool)
    → ((out_seq ≡ false) ↔ P)
    → ((out_ack ≡ false) ↔ Q)
    → ((if syn
          then true
          else if zero
          then true
          else if out_seq
          then false
          else if ack && out_ack
          then false
          else true)
        ≡ true)
      ↔ ((syn ≡ true) ⊎ (zero ≡ true) ⊎ (P × (ack ≡ true → Q)))
tests_iff true zero out_seq ack out_ack p q = (λ e. inl refl, λ h. refl)
tests_iff false true out_seq ack out_ack p q = (λ e. inr (inl refl), λ h. refl)
tests_iff false false true ack out_ack p q = (λ e. cc, λ h. ground (arith, p.1))
tests_iff false false false false out_ack p q = (λ e. inr (inr (p.0 refl, λ a. cc)), λ h. refl)
tests_iff false false false true true p q = (λ e. cc, λ h. ground (arith, q.1))
tests_iff false false false true false p q = (λ e. inr (inr (p.0 refl, λ a. q.0 refl)), λ h. refl)

-- A packet passes exactly if it is a SYN, or there is no baseline yet, or its numbers lie in the
-- window around the baseline of the other direction.
pub seq_valid_iff :
    (v : View) (h : TcpHdr) (is_reply : Bool)
    → WindowFits v
    → HdrFits h
    → (seq_valid v h is_reply ≡ true) ↔ (
        (h.tcp_flags.syn ≡ true)
        ⊎ ((peer_seq_end v is_reply == 0 && peer_ack v is_reply == 0) ≡ true)
        ⊎ InWindow v h is_reply)
unfolding seq_valid
seq_valid_iff v h is_reply fv fh =
    let (ha, hs) = peer_bounds v is_reply fv in
    tests_iff h.tcp_flags.syn _ _ h.tcp_flags.ack _
      (
        outside-Near _ _ _ (omega arith) ha fh.sent_seq,
        Near-outside _ _ _ (omega arith) ha fh.sent_seq,
      )
      (
        outside-Near _ _ _ (omega arith) hs fh.recv_ack,
        Near-outside _ _ _ (omega arith) hs fh.recv_ack,
      )

-- A baseline that is set moves forward only, by less than half of the circle.
advance_forward :
    (old new : ℕ)
    → old < u32_mod
    → new < u32_mod
    → old ≢ 0
    → (k : ℕ) × (k < 2 ^ 31) × (advance old new ≡ (old + k) % u32_mod)
unfolding advance
advance_forward old new ho hn nz = elim (Bool-cases (ltb_ℤ (pos 0) (signed32 (sub32 new old)))) [
  | inl later ↦ (sub32 new old, ground arith, ground arith)
  | inr not_later ↦ (0, ground arith, ground arith)
]

-- One baseline before and after a packet that carried `new`: seeded with it, or moved forward by
-- less than half of the circle; and the packet's value is not later than the baseline.
abbrev pub Advanced : ℕ → ℕ → ℕ → Type 0
Advanced old new after =
    ((old ≡ 0 → after ≡ new) × (old ≢ 0 → (k : ℕ) × (k < 2 ^ 31) × (after ≡ (old + k) % u32_mod)))
    × (ltb_ℤ (pos 0) (signed32 (sub32 new after)) ≡ false)
    × (after < u32_mod)

advance-Advanced :
    (old new : ℕ) → old < u32_mod → new < u32_mod → Advanced old new (advance old new)
unfolding advance
advance-Advanced old new ho hn =
    ((λ e. ground arith, λ nz. advance_forward old new ho hn nz), ground arith, ground arith)

-- A packet moves the two baselines of its own direction forward only, keeps them no earlier than
-- its own numbers, the end of its segment, with one more for a SYN or a FIN, and its ACK, records its window, and leaves the other direction alone.
pub seq_update-Advanced :
    (v : View) (h : TcpHdr) (payload_len : ℕ) (is_reply : Bool)
    → WindowFits v
    → HdrFits h
    → let w = seq_update v h payload_len is_reply in
      Advanced
        (peer_seq_end v (not is_reply))
        ((h.sent_seq + payload_len + (if h.tcp_flags.syn || h.tcp_flags.fin then 1 else 0))
          % u32_mod)
        (peer_seq_end w (not is_reply))
      × Advanced (peer_ack v (not is_reply)) h.recv_ack (peer_ack w (not is_reply))
      × ((if is_reply then w.max_win_wan else w.max_win_lan) ≡ h.rx_win)
      × (peer_seq_end w is_reply ≡ peer_seq_end v is_reply)
      × (peer_ack w is_reply ≡ peer_ack v is_reply)
unfolding seq_update seq_end_of
seq_update-Advanced v h payload_len true fv fh = (
  advance-Advanced _ _ fv.max_seq_end_wan (seq_end_of-lt h payload_len),
  advance-Advanced _ _ fv.max_ack_wan fh.recv_ack,
  refl,
  refl,
  refl,
)
seq_update-Advanced v h payload_len false fv fh = (
  advance-Advanced _ _ fv.max_seq_end_lan (seq_end_of-lt h payload_len),
  advance-Advanced _ _ fv.max_ack_lan fh.recv_ack,
  refl,
  refl,
  refl,
)

pub seq_update-WindowFits :
    (v : View) (h : TcpHdr) (payload_len : ℕ) (is_reply : Bool)
    → WindowFits v
    → HdrFits h
    → WindowFits (seq_update v h payload_len is_reply)
unfolding seq_update advance
seq_update-WindowFits v h payload_len is_reply fv fh = ground (arith, seq_end_of-lt h payload_len)
