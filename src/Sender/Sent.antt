-- ===== src/Sender/Sent.antt =====
-- What a round of `sendData` in src/rdt/SlidingWindow.cpp sends, apart from the reply it waits for.
use hybrid_ftp.Base.{
  ℕ, zero, suc, ◌-◌, ◌≡◌, refl, sym, ◌∙◌, inr, Option, none, some, List, [], arith, if◌then◌else◌,
}
use hybrid_ftp.Udp.{Datagram, Outcome, continue, return}
use hybrid_ftp.Double.{Double}
use hybrid_ftp.Sender.{
  SenderConfig, SenderState, SendEvent, segment_count, compute_effective_window, fill_window,
  timeout_round, process_ack, send_round,
}
use hybrid_ftp.Sender.Run.{
  SendPhase, sending, closing, sent_result, SenderRun, after_fin, fin_round, after_send, step_phase,
  send_step,
}
use hybrid_ftp.Sender.Ends.{Ends, IsReply, send_round-Ends}

-- No property at all.
abbrev Anything : {A : Type 0} → A → Type 0
Anything a = Unit

any-IsReply : (reply : Option Datagram) → IsReply Anything reply
any-IsReply none = tt
any-IsReply (some d) = inr (inr tt)

module _ {D : Type 0} ⦃f : Double D⦄ (cfg : SenderConfig D) where
  -- What a round of the first loop sends.
  round_sent : List (List ℕ) → SenderState D → SendEvent → List Datagram
  round_sent segs s e =
      let wnd = compute_effective_window cfg s in
      if e.cancel_before
      then []
      else (fill_window cfg segs e.sends wnd (segment_count segs - s.next_seq) s).sent

  timeout_round-Ends :
      (s : SenderState D) (sent : List Datagram)
      → Anything s
      → Ends Anything sent (timeout_round cfg s sent)
  unfolding timeout_round
  timeout_round-Ends s sent g = ground arith

  process_ack-Ends :
      (n ack : ℕ) (s : SenderState D) (sent : List Datagram)
      → Anything ack
      → Anything s
      → Ends Anything sent (process_ack cfg n ack s sent)
  unfolding process_ack
  process_ack-Ends n ack s sent q g = ground arith

  after_send-sent :
      {l : List Datagram} (segs : List (List ℕ)) (o : Outcome (SenderState D))
      → Ends Anything l o
      → (after_send cfg segs o).1 ≡ l
  unfolding after_send
  after_send-sent segs (continue s sent) h = h.holds.1
  after_send-sent segs (return result s sent) h = h.holds.1

  send_round-sent :
      (segs : List (List ℕ)) (s : SenderState D) (e : SendEvent)
      → (after_send cfg segs (send_round cfg segs s e)).1 ≡ round_sent segs s e
  unfolding round_sent
  send_round-sent segs s e = after_send-sent segs (send_round cfg segs s e) (
      send_round-Ends cfg Anything Anything timeout_round-Ends (λ _ _ _. tt) segs s e
        (process_ack-Ends (segment_count segs)) (any-IsReply e.reply) tt tt)

  fin_round-sent :
      (left n : ℕ) (s : SenderState D) (e : SendEvent)
      → (after_fin left (fin_round cfg n s e)).1
        ≡ (after_fin left (fin_round cfg n s (record e { reply = none }))).1
  unfolding after_fin fin_round
  fin_round-sent left n s e = ground arith

  step_phase-sent :
      (phase : SendPhase) (segs : List (List ℕ)) (s : SenderState D) (e : SendEvent)
      → (step_phase cfg phase segs s e).1
        ≡ (step_phase cfg phase segs s (record e { reply = none })).1
  unfolding step_phase round_sent
  step_phase-sent sending segs s e =
      send_round-sent segs s e ∙ sym (send_round-sent segs s (record e { reply = none }))
  step_phase-sent (closing zero) segs s e = refl
  step_phase-sent (closing (suc left)) segs s e = fin_round-sent left (segment_count segs) s e
  step_phase-sent (sent_result result) segs s e = refl

  -- What a round sends is settled before its reply comes.
  pub send_step-sent :
      (segs : List (List ℕ)) (r : SenderRun D) (e : SendEvent)
      → (send_step cfg segs r e).1 ≡ (send_step cfg segs r (record e { reply = none })).1
  unfolding send_step
  send_step-sent segs r e = step_phase-sent r.phase segs r.state e
