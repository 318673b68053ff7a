-- ===== src/Nat/History.antt =====
-- Sequences of packets from both sides and of scans, over one translation table.
use fastrg_node.Base.{ℕ, refl, inl, inr, List, [], ◌∷◌, Option, none, some, ◌==◌, Bool-cases}
use fastrg_node.Conntrack.{Clock}
use fastrg_node.PortFwd.{Table}
use fastrg_node.Conntrack.Window.{TcpHdr}
use fastrg_node.Nat.{Site, ReverseKey, ForwardKey, Env, IsEnv, State}
use fastrg_node.Nat.Slots.{gc_scan}
use fastrg_node.Nat.Learning.{Packet, Learned, learning, tcp_learning, tracked, reverse_lookup}
use fastrg_node.Nat.Invariant.{put-SameKeys, published, IsNat, IsSettled}
use fastrg_node.Nat.Reclaim.{keep-IsNat}
use fastrg_node.Nat.Trim.{put_live}
use fastrg_node.Nat.Gc.{gc_scan-Kept}
use fastrg_node.Nat.Alloc.{Calm, reverse_lookup-Kept}
use fastrg_node.Nat.Walk.{IsByteOrder, learning-Sound}

-- What a call reads that changes from one call to the next.
pub record Moment : Type 0 where
  pub quiescent : Site → List ℕ → ℕ
  pub clock : Clock
  pub port_fwd_table : Table

-- A packet from the LAN side, with or without the TCP header, one from the WAN side, or a scan.
pub data Call : Type 0 where
  learn : Packet → Call
  learn_tcp : ℕ → ForwardKey → TcpHdr → ℕ → Call
  reply : ReverseKey → Call
  scan : ℕ → Call

module _ {R F : Type 0} (c : Env R F) where
  abbrev pub now : Moment → Env R F
  now m = record c { quiescent = m.quiescent; clock = m.clock; port_fwd_table = m.port_fwd_table }

  unfoldable pub serve : State R F → Moment → Call → State R F
  serve s m (learn p) = (learning (now m) p s).state
  serve s m (learn_tcp mac flow hdr payload_len) =
      (tcp_learning (now m) s mac flow hdr payload_len).state
  serve s m (reply key) = (reverse_lookup (now m) s key).0
  serve s m (scan max_slots) = (gc_scan (now m) s max_slots).0

  unfoldable pub run : State R F → List (Moment × Call) → State R F
  run s [] = s
  run s ((m, call) ∷ calls) = run (serve s m call) calls

  -- A scan, or a learning that makes one, comes at a settled table.
  unfoldable pub Fits : State R F → Call → Type 0
  Fits s (learn p) = Calm c s
  Fits s (learn_tcp mac flow hdr payload_len) = Calm c s
  Fits s (reply key) = Unit {0}
  Fits s (scan max_slots) = IsSettled c s

  unfoldable pub AllFit : State R F → List (Moment × Call) → Type 0
  AllFit s [] = Unit {0}
  AllFit s ((m, call) ∷ calls) = Fits s call × AllFit (serve s m call) calls

  now-IsNat : (m : Moment) (s : State R F) → IsNat c s [] → IsNat (now m) s []
  unfolding published
  now-IsNat m s h = record { owned = h.owned; reverse_ok = h.reverse_ok; forward_ok = h.forward_ok }

  back-IsNat : (m : Moment) (s : State R F) → IsNat (now m) s [] → IsNat c s []
  unfolding published
  back-IsNat m s h = record {
    owned = h.owned;
    reverse_ok = h.reverse_ok;
    forward_ok = h.forward_ok;
  }

  tracked-IsNat :
      (m : Moment) (hdr : TcpHdr) (payload_len : ℕ) (r : Learned R F) (o : Option ℕ)
      → IsNat (now m) r.state []
      → IsNat (now m) (tracked (now m) hdr payload_len r o) []
  unfolding tracked
  tracked-IsNat m hdr payload_len r none h = h
  tracked-IsNat m hdr payload_len r (some i) h = elim (Bool-cases (r.port == 0)) [
    | inl e ↦ rw e h
    | inr e ↦ rw e (
        keep-IsNat (now m) r.state _ [] [] h (λ k. refl) (λ k. refl)
          (put-SameKeys i _ r.state.addr_table
            (record { same_forward = refl; same_reverse = refl }))
          (λ j p. put_live i _ r.state.addr_table (λ live. live) j) (λ j. refl))
  ]

  module _ (laws : IsEnv c) (order : IsByteOrder c.byte_order) where
    now-IsEnv : (m : Moment) → IsEnv (now m)
    now-IsEnv m = record { reverse_laws = laws.reverse_laws; forward_laws = laws.forward_laws }

    serve-IsNat :
        (s : State R F) (m : Moment) (call : Call)
        → Fits s call
        → IsNat c s []
        → IsNat c (serve s m call) []
    unfolding serve Fits tcp_learning
    serve-IsNat s m (learn p) fits h = back-IsNat m _ (
        (learning-Sound (now m) (now-IsEnv m) order p s (now-IsNat m s h)
          (λ e. record { settled = (fits e).settled })).table)
    serve-IsNat s m (learn_tcp mac flow hdr payload_len) fits h = back-IsNat m _ (
        tracked-IsNat m hdr payload_len _ _ (
          (learning-Sound (now m) (now-IsEnv m) order _ s (now-IsNat m s h)
            (λ e. record { settled = (fits e).settled })).table))
    serve-IsNat s m (reply key) fits h =
        back-IsNat m _ ((reverse_lookup-Kept (now m) (now-IsEnv m) s key (now-IsNat m s h)).table)
    serve-IsNat s m (scan max_slots) fits h = back-IsNat m _ (
        (gc_scan-Kept (now m) (now-IsEnv m) [] s max_slots (now-IsNat m s h)
          (record { settled = fits.settled })).table)

    -- Whatever packets and scans come, as long as the table is settled whenever it is scanned, every
    -- slot stays in exactly one place, each reverse key leads to the READY entry that has it, and
    -- each flow of the forward hash to its own published entry.
    pub run-IsNat :
        (s : State R F) (calls : List (Moment × Call))
        → AllFit s calls
        → IsNat c s []
        → IsNat c (run s calls) []
    unfolding run AllFit
    run-IsNat s [] fits h = h
    run-IsNat s ((m, call) ∷ calls) fits h =
        run-IsNat (serve s m call) calls fits.1 (serve-IsNat s m call fits.0 h)
