-- ===== src/Sender/Progress.antt =====
-- What the sender does with the ACK of all that it has sent, and with the from_receiver to its FIN.
use text.Mathlib.Text.{◌==◌ as str_eq}
use text.Mathlib.TextEquality.{eq_iff}
use hybrid_ftp.Base.{
  ℕ, suc, ◌+◌, ◌-◌, ◌^◌, ◌≤◌, ◌<◌, min, ◌≡◌, refl, ap, ◌∙◌, true, false, not, ◌||◌, some, List, [],
  ◌∷◌, arith, ltb, leb, ◌==◌, if◌then◌else◌, length, take_all,
}
use hybrid_ftp.Header.{header_size, set_flag, has_flag}
use hybrid_ftp.Header.Packet.{Reads}
use hybrid_ftp.Udp.{Datagram, received, continue}
use hybrid_ftp.Receiver.{cumulative_ack_num, ack_header, ack_packet, fin_ack_packet}
use hybrid_ftp.Receiver.Rounds.{
  length-ack_packet, length-fin_ack_packet, ack_packet-Reads, fin_ack_packet-Reads,
}
use hybrid_ftp.Double.{Double}
use hybrid_ftp.Sender.{
  ack_buffer_size, SenderConfig, SenderState, SendEvent, fin_packet, segment_count, Filled,
  compute_effective_window, fill_window, slide_window, process_ack, handle_reply, send_round,
}
use hybrid_ftp.Sender.Run.{
  sending, closing, sent_result, after_fin, is_fin_ack, fin_round, phase_after, after_send,
  step_phase, send_step,
}
use hybrid_ftp.Sender.Window.{compute_effective_window_bounds, window_packets, fill_window_lem}

-- A datagram from the endpoint that the sender sends to.
abbrev pub from_receiver : {D : Type 0} → SenderConfig D → List ℕ → Datagram
from_receiver cfg bytes = record { bytes = bytes; peer = cfg.dest }

-- A round in which nothing fails and nothing is cancelled.
abbrev pub good_round : {D : Type 0} → SenderConfig D → List ℕ → SendEvent
good_round cfg bytes = record {
  cancel_before = false;
  sends = λ _. true;
  cancel_after = false;
  reply = some (from_receiver cfg bytes);
}

module _ {D : Type 0} ⦃f : Double D⦄ (cfg : SenderConfig D) (window : ℕ) where
  answer_whole :
      (bytes : List ℕ)
      → length bytes ≤ ack_buffer_size
      → received ack_buffer_size (from_receiver cfg bytes) ≡ bytes
  unfolding received
  answer_whole bytes fits = take_all ack_buffer_size bytes fits

  from_dest : not (cfg.dest.port == cfg.dest.port) || not (str_eq cfg.dest.ip cfg.dest.ip) ≡ false
  from_dest = ground (arith, eq_iff cfg.dest.ip cfg.dest.ip)

  process_ack-valid :
      (n ack : ℕ) (s : SenderState D) (sent : List Datagram)
      → s.base ≤ ack
      → ack < s.next_seq
      → ack < n
      → process_ack cfg n ack s sent ≡ continue (slide_window cfg ack s) sent
  unfolding process_ack
  process_ack-valid n ack s sent after before le = ground arith

  -- A reply that passes every test, up to the branches on its number.
  handle_reply-passed :
      (n ack : ℕ) (s : SenderState D) (sent : List Datagram) (bytes : List ℕ)
      → length bytes ≡ header_size
      → Reads bytes (ack_header ack window) []
      → handle_reply cfg n s sent (some (from_receiver cfg bytes))
        ≡ process_ack cfg n ack (if ltb 0 window then record s { recv_window = window } else s) sent
  unfolding handle_reply has_flag set_flag
  handle_reply-passed n ack s sent bytes size reads =
      let not_short : ltb (length bytes) header_size ≡ false = ground arith in
      rw
        (
          answer_whole bytes (omega (arith, size)),
          not_short,
          reads.passes,
          reads.flags,
          reads.window_size,
          reads.ack_num,
          from_dest,
        )
        refl

  -- The ACK of the first `k` segments moves the window behind them.
  handle_reply-ack :
      (n k : ℕ) (s : SenderState D) (sent : List Datagram)
      → window < 2 ^ 16
      → k < 2 ^ 32
      → s.base < k
      → k ≤ s.next_seq
      → k ≤ n
      → (s' : SenderState D) × (handle_reply cfg n s sent
            (some (from_receiver cfg (ack_packet window k)))
          ≡ continue s' sent)
        × (s'.base ≡ k)
        × (s'.next_seq ≡ s.next_seq)
  unfolding slide_window
  handle_reply-ack n k s sent hw hk after before le =
      let s' : SenderState D = if ltb 0 window then record s { recv_window = window } else s in
      let number : cumulative_ack_num k ≡ k - 1 = unfold cumulative_ack_num in ground arith in
      let passed =
        handle_reply-passed n (cumulative_ack_num k) s sent (ack_packet window k)
          (length-ack_packet window k) (ack_packet-Reads window k hw hk) in
      let valid = process_ack-valid n (k - 1) s' sent (ground arith) (ground arith) (omega arith) in
      (
        slide_window cfg (k - 1) s',
        passed ∙ ap (λ a. process_ack cfg n a s' sent) number ∙ valid,
        omega arith,
        ground arith,
      )

  module _ (segs : List (List ℕ)) (small : length segs < 2 ^ 32) where
    count_eq : segment_count segs ≡ length segs
    unfolding segment_count
    count_eq = omega arith

    send_step-replied :
        (s s' : SenderState D) (bytes : List ℕ) (sent : List Datagram)
        → (filled : Filled D)
        → fill_window cfg segs
            (λ _. true)
            (compute_effective_window cfg s)
            (segment_count segs - s.next_seq)
            s
          ≡ filled
        → filled.sent_all ≡ true
        → handle_reply cfg
            (segment_count segs)
            filled.state
            filled.sent
            (some (from_receiver cfg bytes))
          ≡ continue s' sent
        → send_step cfg segs (record { state = s; phase = sending }) (good_round cfg bytes)
          ≡ (record { state = s'; phase = phase_after cfg segs s' }, sent)
    unfolding send_step step_phase send_round after_send
    send_step-replied s s' bytes sent filled e all replied = rw (e, all, replied) refl

    -- A round that begins with nothing in flight sends the segments of its window, and the ACK of
    -- the last of them moves the window behind them.
    pub send_step-ack :
        (s : SenderState D) (count : ℕ)
        → window < 2 ^ 16
        → s.next_seq ≡ s.base
        → s.base < length segs
        → s.base + compute_effective_window cfg s < 2 ^ 32
        → count ≡ min (length segs - s.base) (compute_effective_window cfg s)
        → (s' : SenderState D) × (send_step cfg segs
              (record { state = s; phase = sending })
              (good_round cfg (ack_packet window (s.base + count)))
            ≡ (
              record { state = s'; phase = phase_after cfg segs s' },
              window_packets cfg segs (compute_effective_window cfg s) s.base count,
            ))
          × (s'.base ≡ s.base + count)
          × (s'.next_seq ≡ s.base + count)
    send_step-ack s count hw idle more room e =
        let wnd : ℕ = compute_effective_window cfg s in
        let bounds = compute_effective_window_bounds cfg s in
        let (all, packets, next, base) =
          fill_window_lem cfg segs wnd (segment_count segs - s.next_seq) count s room
            (omega (arith, count_eq)) (omega (arith, count_eq)) in
        let filled = fill_window cfg segs (λ _. true) wnd (segment_count segs - s.next_seq) s in
        let from_base : filled.sent ≡ window_packets cfg segs wnd s.base count =
          packets ∙ ap (λ i. window_packets cfg segs wnd i count) idle in
        let (s', replied, base', next') =
          handle_reply-ack (segment_count segs) (s.base + count) filled.state filled.sent hw
            (omega arith) (omega (arith, base, bounds)) (omega (arith, next))
            (omega (arith, count_eq)) in
        (
          s',
          send_step-replied s s' (ack_packet window (s.base + count)) filled.sent filled refl all
                replied
              ∙ ap (λ l. (record { state = s'; phase = phase_after cfg segs s' }, l)) from_base,
          base',
          omega (arith, next', next),
        )

    -- An attempt of the FIN loop whose FIN is answered.
    pub send_step-fin_ack :
        (s : SenderState D) (left : ℕ)
        → window < 2 ^ 16
        → send_step cfg segs
            (record { state = s; phase = closing (suc left) })
            (good_round cfg (fin_ack_packet window (length segs)))
          ≡ (
            record { state = s; phase = sent_result true },
            from_receiver cfg (fin_packet (compute_effective_window cfg s) (length segs)) ∷ [],
          )
    unfolding send_step step_phase fin_round after_fin is_fin_ack has_flag set_flag
    send_step-fin_ack s left hw =
        let size = length-fin_ack_packet window (length segs) in
        let reads = fin_ack_packet-Reads window (length segs) hw small in
        let long : leb header_size (length (fin_ack_packet window (length segs))) ≡ true =
          ground arith in
        rw
          (
            count_eq,
            answer_whole (fin_ack_packet window (length segs)) (omega (arith, size)),
            long,
            reads.flags,
          )
          refl
