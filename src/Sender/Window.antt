-- ===== src/Sender/Window.antt =====
-- The effective window, and what the loop over the window sends.
use hybrid_ftp.Base.{
  ℕ, zero, suc, ◌+◌, ◌-◌, ◌%◌, ◌^◌, ◌≤◌, ◌<◌, min, max, ◌≡◌, refl, ap, ◌∙◌, ◌↔◌, Bool, true, false,
  List, [], ◌∷◌, arith, ltb, get_or,
}
use hybrid_ftp.Udp.{Datagram}
use hybrid_ftp.Double.{Double}
use hybrid_ftp.Sender.{
  SenderConfig, SenderState, data_packet, compute_effective_window, fill_window,
}

module _ {D : Type 0} ⦃f : Double D⦄ (cfg : SenderConfig D) where
  -- The bounds of the effective window that do not need the congestion window.
  pub compute_effective_window_bounds :
      (s : SenderState D)
      → (1 ≤ compute_effective_window cfg s)
        × (compute_effective_window cfg s ≤ max 1 s.recv_window)
        × (compute_effective_window cfg s ≤ max 1 cfg.max_window_segments)
  unfolding compute_effective_window
  compute_effective_window_bounds s = ground arith

  -- The effective window is 1 at least. A number of two segments or more fits it just where it fits each
  -- of the three limits: the congestion window, rounded down and no less than 1, the receiver's window
  -- as the sender has stored it, and the configured maximum.
  pub compute_effective_window_greatest :
      (s : SenderState D) (n : ℕ)
      → 2 ≤ n
      → (1 ≤ compute_effective_window cfg s)
        × (n ≤ compute_effective_window cfg s
            ↔ (n ≤ f.to_u32 (f.larger f.one (f.floor s.cwnd)))
              × (n ≤ s.recv_window)
              × (n ≤ cfg.max_window_segments))
  unfolding compute_effective_window
  compute_effective_window_greatest s n h =
      (ground arith, ((λ le. (ground arith, ground arith, ground arith)), (λ limits. ground arith)))

  -- The packets of `count` segments from `seq` on.
  unfoldable pub window_packets : List (List ℕ) → ℕ → ℕ → ℕ → List Datagram
  window_packets segs wnd seq zero = []
  window_packets segs wnd seq (suc count) =
      record { bytes = data_packet wnd seq (get_or segs seq []); peer = cfg.dest }
      ∷ window_packets segs wnd (seq + 1) count

  -- What one more round sends.
  abbrev advance : SenderState D → SenderState D
  advance s = record s {
    total_packets_sent = (s.total_packets_sent + 1) % 2 ^ 32;
    next_seq = (s.next_seq + 1) % 2 ^ 32;
  }

  module _ (segs : List (List ℕ)) (sends : ℕ → Bool) (wnd rounds : ℕ) (s : SenderState D) where
    pub fill_window-full :
        (s.base + wnd) % 2 ^ 32 ≤ s.next_seq
        → fill_window cfg segs sends wnd (suc rounds) s
          ≡ record { sent_all = true; state = s; sent = [] }
    unfolding fill_window
    fill_window-full h =
        let t : ltb s.next_seq ((s.base + wnd) % 2 ^ 32) ≡ false = ground arith in rw t refl

    pub fill_window-failed :
        s.next_seq < (s.base + wnd) % 2 ^ 32
        → sends s.next_seq ≡ false
        → fill_window cfg segs sends wnd (suc rounds) s
          ≡ record { sent_all = false; state = s; sent = [] }
    unfolding fill_window
    fill_window-failed h e =
        let t : ltb s.next_seq ((s.base + wnd) % 2 ^ 32) ≡ true = ground arith in rw (t, e) refl

    pub fill_window-sent :
        s.next_seq < (s.base + wnd) % 2 ^ 32
        → sends s.next_seq ≡ true
        → fill_window cfg segs sends wnd (suc rounds) s
          ≡ record (fill_window cfg segs sends wnd rounds (advance s)) {
            sent =
                record {
                  bytes = data_packet wnd s.next_seq (get_or segs s.next_seq []);
                  peer = cfg.dest;
                }
                ∷ (fill_window cfg segs sends wnd rounds (advance s)).sent;
          }
    unfolding fill_window
    fill_window-sent h e =
        let t : ltb s.next_seq ((s.base + wnd) % 2 ^ 32) ≡ true = ground arith in rw (t, e) refl

  -- Where every `sendTo` goes well, a round sends `count` segments from `next_seq` on, up to the end
  -- of the window or of the data, each once and in order, and moves `next_seq` behind them. `base`
  -- and the window must stay within 32 bits.
  pub fill_window_lem :
      (segs : List (List ℕ)) (wnd rounds count : ℕ) (s : SenderState D)
      → s.base + wnd < 2 ^ 32
      → s.next_seq + rounds < 2 ^ 32
      → count ≡ min rounds (s.base + wnd - s.next_seq)
      → ((fill_window cfg segs (λ _. true) wnd rounds s).sent_all ≡ true)
        × ((fill_window cfg segs (λ _. true) wnd rounds s).sent
            ≡ window_packets segs wnd s.next_seq count)
        × ((fill_window cfg segs (λ _. true) wnd rounds s).state.next_seq ≡ s.next_seq + count)
        × ((fill_window cfg segs (λ _. true) wnd rounds s).state.base ≡ s.base)
  unfolding window_packets
  fill_window_lem segs wnd zero zero s hb hn e =
      unfold fill_window in (refl, refl, omega arith, refl)
  fill_window_lem segs wnd zero (suc count) s hb hn e = absurd (omega arith)
  fill_window_lem segs wnd (suc rounds) zero s hb hn e =
      rw (fill_window-full segs (λ _. true) wnd rounds s (omega arith))
        (refl, refl, omega arith, refl)
  fill_window_lem segs wnd (suc rounds) (suc count) s hb hn e =
      let next : (s.next_seq + 1) % 2 ^ 32 ≡ s.next_seq + 1 = omega arith in
      let ih = fill_window_lem segs wnd rounds count (advance s) hb (omega arith) (omega arith) in
      let tail : (fill_window cfg segs (λ _. true) wnd rounds (advance s)).sent
          ≡ window_packets segs wnd (s.next_seq + 1) count =
        ih.1 ∙ ap (λ i. window_packets segs wnd i count) next in
      rw (fill_window-sent segs (λ _. true) wnd rounds s (omega arith) refl)
        (ih.0, rw tail refl, omega (arith, ih.2), ih.3)
