-- ===== src/Network/Liveness.antt =====
-- A transfer over src/rdt/SlidingWindow.cpp that can always be completed.
use mathlib.Core.Path.{subst}
use hybrid_ftp.Base.{
  ℕ, zero, suc, ◌+◌, ◌-◌, ◌^◌, ◌≤◌, ◌<◌, max, ◌≡◌, inl, inr, some, List, arith, length, All,
}
use hybrid_ftp.Header.{header_size}
use hybrid_ftp.Udp.{Endpoint}
use hybrid_ftp.Receiver.{receive_buffer_size}
use hybrid_ftp.Double.{Double}
use hybrid_ftp.Sender.{SenderConfig, segments}
use hybrid_ftp.Sender.Run.{sending, closing, closing_phase}
use hybrid_ftp.Receiver.Progress.{IsKnown}
use hybrid_ftp.Network.{System, Reach, begin, next, initial}
use hybrid_ftp.Network.Reliability.{segments_fit, reliable_transfer}
use hybrid_ftp.Network.Windows.{IsAt, IsDone, IsAfter, window_passes, fin_passes}

-- Window after window, and then the FIN.
module _ {D : Type 0} ⦃f : Double D⦄ (cfg : SenderConfig D) (window : ℕ) (segs : List (List ℕ))
    (hw : window < 2 ^ 16) (small : length segs + max 1 cfg.max_window_segments < 2 ^ 32)
    (fits : All (λ seg. header_size + length seg ≤ receive_buffer_size) segs) (peer : Endpoint)
    (known : IsKnown peer) where
  completes :
      (fuel a : ℕ) (sys sys' : System D)
      → 0 < cfg.max_retransmit_rounds
      → length segs ≤ a + fuel
      → Reach cfg window segs sys sys'
      → IsAfter cfg segs a sys'
      → (last : System D) × Reach cfg window segs sys last × IsDone last
  unfolding closing_phase
  completes zero a sys sys' pos enough r (inl (g, more)) = absurd (omega arith)
  completes (suc fuel) a sys sys' pos enough r (inl (g, more)) =
      let (later, b, step, lt, after) =
        window_passes cfg window segs hw small fits peer known a sys' g more in
      completes fuel b sys later pos (omega arith) (next r step) after
  completes fuel a sys sys' pos enough r (inr (g, all)) =
      let left : cfg.max_retransmit_rounds ≡ suc (cfg.max_retransmit_rounds - 1) = omega arith in
      let g' : IsAt a (closing (suc (cfg.max_retransmit_rounds - 1))) sys' =
        subst (λ m. IsAt a (closing_phase m) sys') left g in
      let (last, step, done) =
        fin_passes cfg window segs hw small fits peer known (cfg.max_retransmit_rounds - 1) sys'
          (subst (λ b. IsAt b (closing (suc (cfg.max_retransmit_rounds - 1))) sys') all g') in
      (last, next r step, done)

Reach-trans :
    {D : Type 0} ⦃f : Double D⦄ {cfg : SenderConfig D} {window : ℕ} {segs : List (List ℕ)}
    {sys sys' sys'' : System D}
    → Reach cfg window segs sys sys'
    → Reach cfg window segs sys' sys''
    → Reach cfg window segs sys sys''
Reach-trans r begin = r
Reach-trans r (next r' step) = next (Reach-trans r r') step

-- A transfer can always go on to its end. The data is cut by an MSS that is positive and fits the
-- receiver's buffer, the sequence numbers that a window reaches fit 32 bits, `sendData` may try its
-- FIN once at least, and the receiver sees an address and a port that are not empty. Then from every
-- state that the transfer may come to, its beginning included, in which `sendData` is in its first
-- loop, `receiveData` has not returned, and both count the same segments with none in flight, there
-- are rounds after which both have returned true and the receiver's output is the data.
pub transfer_completes :
    {D : Type 0} ⦃f : Double D⦄ (cfg : SenderConfig D) (window : ℕ) (content : List ℕ)
    (segs : List (List ℕ)) (first peer : Endpoint) (sys : System D) (a : ℕ)
    → 0 < cfg.mss
    → header_size + cfg.mss ≤ receive_buffer_size
    → segments cfg.mss content ≡ some segs
    → length segs + max 1 cfg.max_window_segments < 2 ^ 32
    → window < 2 ^ 16
    → 0 < cfg.max_retransmit_rounds
    → IsKnown peer
    → Reach cfg window segs (initial cfg window segs first) sys
    → IsAt a sending sys
    → a < length segs
    → (last : System D) × Reach cfg window segs sys last
      × IsDone last
      × (last.receiver_state.out_data ≡ content)
transfer_completes cfg window content segs first peer sys a pos fits cut small hw tries known r g
      more =
    let in_buffer : All (λ seg. header_size + length seg ≤ receive_buffer_size) segs =
      segments_fit cfg.mss content segs pos fits cut in
    let (last, r', done) =
      completes cfg window segs hw small in_buffer peer known (length segs) a sys sys tries
        (omega arith) begin (inl (g, more)) in
    let delivered =
      reliable_transfer cfg window content segs first last pos fits cut (omega arith) hw
        (Reach-trans r r') in
    (last, r', done, delivered.received_all done.1)
