-- ===== src/Sender/Run.antt =====
-- src/rdt/SlidingWindow.cpp, RDTWindowSender::sendData: its two loops, one behind the other, round by
-- round.
use hybrid_ftp.Base.{
  ℕ, zero, suc, Bool, true, false, ◌&&◌, Option, none, some, List, [], ◌∷◌, ltb, leb, if◌then◌else◌,
  length,
}
use hybrid_ftp.Header.{header_size, flag_ack, flag_fin, has_flag, deserialize_header}
use hybrid_ftp.Udp.{Datagram, received, Outcome, continue, return}
use hybrid_ftp.Double.{Double}
use hybrid_ftp.Sender.{
  ack_buffer_size, SenderConfig, SenderState, SendEvent, fin_packet, segment_count,
  compute_effective_window, send_round,
}

-- Where `sendData` stands: in its first loop, in the FIN loop with some attempts left, or returned.
pub data SendPhase : Type 0 where
  sending : SendPhase
  closing : ℕ → SendPhase
  sent_result : Bool → SendPhase

pub record SenderRun (D : Type 0) : Type 0 where
  pub state : SenderState D
  pub phase : SendPhase

-- The FIN loop's test of `attempt`.
unfoldable pub closing_phase : ℕ → SendPhase
closing_phase zero = sent_result false
closing_phase (suc left) = closing (suc left)

unfoldable pub after_fin : {D : Type 0} → ℕ → Outcome (SenderState D) → SenderRun D × List Datagram
unfolding closing_phase
after_fin left (continue s sent) = (record { state = s; phase = closing_phase left }, sent)
after_fin left (return result s sent) = (record { state = s; phase = sent_result result }, sent)

-- The test of the FIN loop on a reply; it looks at the flags alone.
unfoldable pub is_fin_ack : Option Datagram → Bool
is_fin_ack none = false
is_fin_ack (some d) =
    let packet = received ack_buffer_size d in
    let h = deserialize_header packet in
    leb header_size (length packet) && (has_flag h flag_fin && has_flag h flag_ack)

module _ {D : Type 0} ⦃f : Double D⦄ (cfg : SenderConfig D) where
  -- One attempt of the FIN loop for `n` segments. Whether `sendFIN` succeeds is not looked at.
  unfoldable pub fin_round : ℕ → SenderState D → SendEvent → Outcome (SenderState D)
  unfolding is_fin_ack
  fin_round n s e =
      let fin = fin_packet (compute_effective_window cfg s) n in
      let sent = if e.sends n then record { bytes = fin; peer = cfg.dest } ∷ [] else [] in
      if e.cancel_before
      then return false s []
      else if is_fin_ack e.reply
      then return true s sent
      else continue s sent

  -- The test `base < N` after a round.
  unfoldable pub phase_after : List (List ℕ) → SenderState D → SendPhase
  unfolding closing_phase
  phase_after segs s =
      if ltb s.base (segment_count segs) then sending else closing_phase cfg.max_retransmit_rounds

  unfoldable pub after_send : List (List ℕ) → Outcome (SenderState D) → SenderRun D × List Datagram
  unfolding phase_after
  after_send segs (continue s sent) = (record { state = s; phase = phase_after segs s }, sent)
  after_send segs (return result s sent) = (record { state = s; phase = sent_result result }, sent)

  unfoldable pub step_phase :
      SendPhase → List (List ℕ) → SenderState D → SendEvent → SenderRun D × List Datagram
  unfolding after_send after_fin
  step_phase sending segs s e = after_send segs (send_round cfg segs s e)
  step_phase (closing zero) segs s e = (record { state = s; phase = sent_result false }, [])
  step_phase (closing (suc left)) segs s e = after_fin left (fin_round (segment_count segs) s e)
  step_phase (sent_result result) segs s e = (record { state = s; phase = sent_result result }, [])

  -- One round of `sendData`, in whichever loop it is.
  unfoldable pub send_step : List (List ℕ) → SenderRun D → SendEvent → SenderRun D × List Datagram
  unfolding step_phase
  send_step segs r e = step_phase r.phase segs r.state e

  -- `sendData` on the inputs of its rounds, in order.
  unfoldable pub send_loop : List (List ℕ) → SenderRun D → List SendEvent → SenderRun D
  send_loop segs r [] = r
  send_loop segs r (e ∷ es) = send_loop segs (send_step segs r e).0 es
