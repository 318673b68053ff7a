-- ===== src/Conntrack/Path.antt =====
-- The conntrack part of the two packet paths: src/pppd/nat.h (nat_tcp_learning) from the LAN side,
-- and src/dp_codec.h (decaps_tcp) from the WAN side; and sequences of packets of both.
use fastrg_node.Base.{
  ℕ, ◌≡◌, refl, ◌↔◌, List, [], ◌∷◌, Bool, true, false, not, arith, if◌then◌else◌,
}
use fastrg_node.Conntrack.{
  none_state, syn_sent, syn_recv, established, close, View, Clock, deadline, TcpFlags,
}
use fastrg_node.Conntrack.Table.{timeout}
use fastrg_node.Conntrack.Fsm.{fsm_view}
use fastrg_node.Conntrack.Guard.{inbound_valid, inbound_valid-refuses}
use fastrg_node.Conntrack.Window.{
  TcpHdr, HdrFits, WindowFits, seq_valid, seq_update, seq_update-WindowFits,
}
use fastrg_node.Conntrack.Invariant.{IsTracked, SameWindow, fsm_view-IsTracked, fsm_view-Opens}

-- The LAN side is trusted: the state machine and the baselines follow every packet.
unfoldable pub outbound : Clock → View → TcpHdr → ℕ → View
outbound c v h payload_len = seq_update (fsm_view c v h.tcp_flags false).0 h payload_len false

-- Both checks; the second is made only where the first passes.
abbrev pub accepts : View → TcpHdr → Bool
accepts v h = if inbound_valid v.tcp_state h.tcp_flags then seq_valid v h true else false

-- A refused packet is dropped or, with the feature off, passed on unfollowed; else the entry is the
-- one that follows it.
abbrev pub gate : Bool → Bool → View → View → View × Bool
gate ok tcp_conntrack_enabled v followed =
    if not ok then (if tcp_conntrack_enabled then (v, false) else (v, true)) else (followed, true)

-- The entry after a packet from the WAN side, and whether the packet goes on to the LAN.
unfoldable pub inbound : Clock → Bool → View → TcpHdr → ℕ → View × Bool
inbound c tcp_conntrack_enabled v h payload_len =
    gate (accepts v h) tcp_conntrack_enabled v
      (seq_update (fsm_view c v h.tcp_flags true).0 h payload_len true)

pub data Packet : Type 0 where
  from_lan : Clock → TcpHdr → ℕ → Packet
  from_wan : Clock → Bool → TcpHdr → ℕ → Packet

unfoldable pub receive : View → Packet → View
receive v (from_lan c h payload_len) = outbound c v h payload_len
receive v (from_wan c enabled h payload_len) = (inbound c enabled v h payload_len).0

unfoldable pub run : View → List Packet → View
run v [] = v
run v (p ∷ ps) = run (receive v p) ps

abbrev pub PacketFits : Packet → Type 0
PacketFits (from_lan c h payload_len) = HdrFits h
PacketFits (from_wan c enabled h payload_len) = HdrFits h

abbrev pub AllFit : List Packet → Type 0
AllFit [] = Unit {0}
AllFit (p ∷ ps) = PacketFits p × AllFit ps

-- What holds of an entry between packets.
pub record IsEntry (v : View) : Type 0 where
  pub tracked : IsTracked v
  pub window : WindowFits v

seq_update-IsTracked :
    (v : View) (h : TcpHdr) (payload_len : ℕ) (is_reply : Bool)
    → IsTracked v
    → IsTracked (seq_update v h payload_len is_reply)
unfolding seq_update
seq_update-IsTracked v h payload_len true t = t
seq_update-IsTracked v h payload_len false t = t

SameWindow-WindowFits : (v w : View) → SameWindow v w → WindowFits v → WindowFits w
SameWindow-WindowFits v w s f = omega arith

-- A packet that the state machine and the baselines follow.
follow-IsEntry :
    (c : Clock) (v : View) (h : TcpHdr) (payload_len : ℕ) (is_reply : Bool)
    → HdrFits h
    → IsEntry v
    → IsEntry (seq_update (fsm_view c v h.tcp_flags is_reply).0 h payload_len is_reply)
follow-IsEntry c v h payload_len is_reply fits e = record {
  tracked =
      seq_update-IsTracked _ h payload_len is_reply
        (fsm_view-IsTracked c v h.tcp_flags is_reply e.tracked);
  window =
      seq_update-WindowFits _ h payload_len is_reply
        (SameWindow-WindowFits v _ (fsm_view-Opens c v h.tcp_flags is_reply).0 e.window) fits;
}

gated-IsEntry :
    (ok enabled : Bool) (v w : View) → IsEntry v → IsEntry w → IsEntry (gate ok enabled v w).0
gated-IsEntry true enabled v w ev ew = ew
gated-IsEntry false true v w ev ew = ev
gated-IsEntry false false v w ev ew = ev

receive-IsEntry : (v : View) (p : Packet) → PacketFits p → IsEntry v → IsEntry (receive v p)
unfolding receive outbound inbound
receive-IsEntry v (from_lan c h payload_len) fits e = follow-IsEntry c v h payload_len false fits e
receive-IsEntry v (from_wan c enabled h payload_len) fits e =
    gated-IsEntry (accepts v h) enabled v _ e (follow-IsEntry c v h payload_len true fits e)

-- Whatever packets arrive from either side, the FIN mask keeps fitting the state and the baselines
-- keep within their widths.
pub run-IsEntry : (v : View) (ps : List Packet) → AllFit ps → IsEntry v → IsEntry (run v ps)
unfolding run
run-IsEntry v [] fits e = e
run-IsEntry v (p ∷ ps) fits e = run-IsEntry (receive v p) ps fits.1 (receive-IsEntry v p fits.0 e)

-- With the feature on, a packet from the WAN side goes on exactly if both checks pass; with it off
-- it always goes on. The entry changes alike in both modes, and a refused packet leaves it alone.
pub inbound-enforces :
    (c : Clock) (v : View) (h : TcpHdr) (payload_len : ℕ)
    → (((inbound c true v h payload_len).1 ≡ true)
        ↔ ((inbound_valid v.tcp_state h.tcp_flags ≡ true) × (seq_valid v h true ≡ true)))
      × ((inbound c false v h payload_len).1 ≡ true)
      × ((inbound c true v h payload_len).0 ≡ (inbound c false v h payload_len).0)
      × ((inbound c true v h payload_len).1 ≡ false → (inbound c false v h payload_len).0 ≡ v)
unfolding inbound
inbound-enforces c v h payload_len = ground arith

abbrev pub FromWan : List Packet → Type 0
FromWan [] = Unit {0}
FromWan (from_lan c h payload_len ∷ ps) = ⊥
FromWan (from_wan c enabled h payload_len ∷ ps) = FromWan ps

inbound-close :
    (c : Clock) (enabled : Bool) (v : View) (h : TcpHdr) (payload_len : ℕ)
    → v.tcp_state ≡ close
    → (inbound c enabled v h payload_len).0 ≡ v
unfolding inbound
inbound-close c enabled v h payload_len e =
    ground (arith, inbound_valid-refuses v.tcp_state h.tcp_flags)

-- The WAN side alone cannot touch a closed connection, however many packets it sends.
pub run-close : (v : View) (ps : List Packet) → FromWan ps → v.tcp_state ≡ close → run v ps ≡ v
unfolding run receive
run-close v [] w e = refl
run-close v (from_lan c h payload_len ∷ ps) w e = absurd w
run-close v (from_wan c enabled h payload_len ∷ ps) w e =
    rw (inbound-close c enabled v h payload_len e) (run-close v ps w e)

abbrev pub IsSyn : TcpFlags → Type 0
IsSyn f = (f.syn ≡ true) × (f.ack ≡ false) × (f.rst ≡ false)

abbrev pub IsSynAck : TcpFlags → Type 0
IsSynAck f = (f.syn ≡ true) × (f.ack ≡ true) × (f.rst ≡ false)

abbrev pub IsAck : TcpFlags → Type 0
IsAck f = (f.ack ≡ true) × (f.syn ≡ false) × (f.rst ≡ false) × (f.fin ≡ false)

syn_sends :
    (c : Clock) (v : View) (h : TcpHdr) (payload_len : ℕ)
    → v.tcp_state ≡ none_state
    → IsSyn h.tcp_flags
    → (outbound c v h payload_len).tcp_state ≡ syn_sent
unfolding outbound fsm_view seq_update
syn_sends c v h payload_len e f = ground arith

syn_ack_arrives :
    (c : Clock) (enabled : Bool) (v : View) (h : TcpHdr) (payload_len : ℕ)
    → v.tcp_state ≡ syn_sent
    → IsSynAck h.tcp_flags
    → (inbound c enabled v h payload_len).0.tcp_state ≡ syn_recv
unfolding inbound fsm_view seq_update inbound_valid seq_valid
syn_ack_arrives c enabled v h payload_len e f = ground arith

ack_opens :
    (c : Clock) (v : View) (h : TcpHdr) (payload_len : ℕ)
    → v.tcp_state ≡ syn_recv
    → IsAck h.tcp_flags
    → ((outbound c v h payload_len).tcp_state ≡ established)
      × ((outbound c v h payload_len).expire ≡ deadline c (timeout established))
unfolding outbound fsm_view seq_update
ack_opens c v h payload_len e f = ground arith

-- A handshake opens a new connection, whatever its sequence numbers and with the feature on or off,
-- and its deadline is then the one of an established connection.
handshake_opens :
    (v : View) (c1 c2 c3 : Clock) (enabled : Bool) (h1 h2 h3 : TcpHdr) (len1 len2 len3 : ℕ)
    → v.tcp_state ≡ none_state
    → IsSyn h1.tcp_flags
    → IsSynAck h2.tcp_flags
    → IsAck h3.tcp_flags
    → let w =
        run v (from_lan c1 h1 len1 ∷ from_wan c2 enabled h2 len2 ∷ from_lan c3 h3 len3 ∷ []) in
      (w.tcp_state ≡ established) × (w.expire ≡ deadline c3 (timeout established))
unfolding run receive
handshake_opens v c1 c2 c3 enabled h1 h2 h3 len1 len2 len3 e f1 f2 f3 =
    ack_opens c3 _ h3 len3 (syn_ack_arrives c2 enabled _ h2 len2 (syn_sends c1 v h1 len1 e f1) f2)
      f3
