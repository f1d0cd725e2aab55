-- ===== src/Sender/Steps.antt =====
-- What a step of `sendData` keeps, in each of its two loops and after it has returned.
use hybrid_ftp.Base.{
  ℕ, zero, suc, ◌^◌, ◌≤◌, ◌<◌, ◌≡◌, refl, ap, ◌⊎◌, inl, inr, Bool, true, false, List, [], ◌∷◌,
  arith, ltb, if◌then◌else◌, not_ltb→le, Bool-cases, length, All, All-map,
}
use hybrid_ftp.Udp.{Datagram, Outcome, continue, return}
use hybrid_ftp.Double.{Double}
use hybrid_ftp.Sender.{
  SenderConfig, SenderState, SendEvent, fin_packet, segment_count, compute_effective_window,
  send_round,
}
use hybrid_ftp.Sender.Run.{
  SendPhase, sending, closing, sent_result, SenderRun, closing_phase, after_fin, is_fin_ack,
  fin_round, phase_after, after_send, step_phase, send_step,
}
use hybrid_ftp.Receiver.Accepts.{IsTruePacket}
use hybrid_ftp.Sender.Ends.{Ends}
use hybrid_ftp.Sender.Rounds.{IsOrdered, IsDataPacket, IsTrueReply, send_round-IsOrdered}

-- Once the sender is in its FIN loop, or has returned true, all its segments are acknowledged.
abbrev pub IsClosed : ℕ → ℕ → SendPhase → Type 0
IsClosed n base sending = Unit
IsClosed n base (closing left) = base ≡ n
IsClosed n base (sent_result true) = base ≡ n
IsClosed n base (sent_result false) = Unit

-- What a step of the sender must give.
pub record IsSoundRun {D : Type 0} (segs : List (List ℕ)) (acked : ℕ) (r : SenderRun D)
    (sent : List Datagram) : Type 0 where
  pub ordered : IsOrdered (length segs) acked r.state
  pub closed : IsClosed (length segs) r.state.base r.phase
  pub packets : All (λ (d : Datagram). IsTruePacket segs acked d.bytes) sent

true_packets :
    (segs : List (List ℕ)) (acked : ℕ) (sent : List Datagram)
    → All (λ (d : Datagram). IsDataPacket segs (length segs) d.bytes) sent
    → All (λ (d : Datagram). IsTruePacket segs acked d.bytes) sent
true_packets segs acked sent = All-map (λ d p. inl p) sent

module _ {D : Type 0} ⦃f : Double D⦄ (cfg : SenderConfig D) (segs : List (List ℕ)) (acked : ℕ) where
  closing_phase-IsClosed :
      (left base : ℕ) → base ≡ length segs → IsClosed (length segs) base (closing_phase left)
  unfolding closing_phase
  closing_phase-IsClosed zero base e = tt
  closing_phase-IsClosed (suc left) base e = e

  phase_after-IsClosed :
      (s : SenderState D)
      → segment_count segs ≡ length segs
      → IsOrdered (length segs) acked s
      → IsClosed (length segs) s.base (phase_after cfg segs s)
  unfolding phase_after
  phase_after-IsClosed s count_eq g = elim (Bool-cases (ltb s.base (segment_count segs))) [
    | inl more ↦ rw more tt
    | inr all ↦ rw all (
        closing_phase-IsClosed cfg.max_retransmit_rounds s.base
          (omega (arith, not_ltb→le _ _ all, g, count_eq)))
  ]

  after_send-IsSoundRun :
      (l : List Datagram) (o : Outcome (SenderState D))
      → segment_count segs ≡ length segs
      → All (λ (d : Datagram). IsDataPacket segs (length segs) d.bytes) l
      → Ends (IsOrdered (length segs) acked) l o
      → IsSoundRun segs acked (after_send cfg segs o).0 (after_send cfg segs o).1
  unfolding after_send
  after_send-IsSoundRun l (continue s sent) count_eq packets ends = record {
    ordered = ends.holds.0;
    closed = phase_after-IsClosed s count_eq ends.holds.0;
    packets = rw ends.holds.1 (true_packets segs acked l packets);
  }
  after_send-IsSoundRun l (return result s sent) count_eq packets ends = record {
    ordered = ends.holds.0;
    closed = rw ends.holds.2 tt;
    packets = rw ends.holds.1 (true_packets segs acked l packets);
  }

  -- The FIN loop keeps the state, and its packet is a true one when the receiver has everything.
  after_fin-IsSoundRun :
      (left : ℕ) (s : SenderState D) (l : List Datagram) (o : Outcome (SenderState D))
      → s.base ≡ length segs
      → IsOrdered (length segs) acked s
      → All (λ (d : Datagram). IsTruePacket segs acked d.bytes) l
      → (o ≡ continue s l) ⊎ ((result : Bool) × (o ≡ return result s l))
      → IsSoundRun segs acked (after_fin left o).0 (after_fin left o).1
  unfolding after_fin
  after_fin-IsSoundRun left s l o all g packets (inl e) =
      rw e
        (record { ordered = g; closed = closing_phase-IsClosed left s.base all; packets = packets })
  after_fin-IsSoundRun left s l o all g packets (inr (true, e)) =
      rw e (record { ordered = g; closed = all; packets = packets })
  after_fin-IsSoundRun left s l o all g packets (inr (false, e)) =
      rw e (record { ordered = g; closed = tt; packets = packets })

  fin_round_lem :
      (s : SenderState D) (e : SendEvent)
      → segment_count segs ≡ length segs
      → acked ≡ length segs
      → (l : List Datagram) × All (λ (d : Datagram). IsTruePacket segs acked d.bytes) l
        × ((fin_round cfg (segment_count segs) s e ≡ continue s l)
            ⊎ ((result : Bool) × (fin_round cfg (segment_count segs) s e ≡ return result s l)))
  unfolding fin_round
  fin_round_lem s e count_eq all = elim (Bool-cases e.cancel_before) [
    | inl cancelled ↦ ([], tt, inr (false, rw cancelled refl))
    | inr on ↦ (
      sent,
      sent_true (e.sends (segment_count segs)),
      elim (Bool-cases (is_fin_ack e.reply)) [
        | inl done ↦ inr (true, rw (on, done) refl)
        | inr not_done ↦ inl (rw (on, not_done) refl)
      ],
    )
  ]
    where
      fin : Datagram
      fin = record {
        bytes = fin_packet (compute_effective_window cfg s) (segment_count segs);
        peer = cfg.dest;
      }

      sent : List Datagram
      sent = if e.sends (segment_count segs) then fin ∷ [] else []

      sent_true :
          (b : Bool)
          → All (λ (d : Datagram). IsTruePacket segs acked d.bytes) (if b then fin ∷ [] else [])
      sent_true true = (inr (compute_effective_window cfg s, ap (fin_packet _) count_eq, all), tt)
      sent_true false = tt

  step_phase-IsSoundRun :
      (phase : SendPhase) (s : SenderState D) (e : SendEvent)
      → segment_count segs ≡ length segs
      → acked ≤ length segs
      → IsTrueReply (length segs) acked e.reply
      → IsOrdered (length segs) acked s
      → IsClosed (length segs) s.base phase
      → IsSoundRun segs acked (step_phase cfg phase segs s e).0 (step_phase cfg phase segs s e).1
  unfolding step_phase
  step_phase-IsSoundRun sending s e count_eq le reply g closed =
      let (l, packets, ends) =
        send_round-IsOrdered cfg segs acked s e (rw count_eq reply) (rw count_eq g) in
      after_send-IsSoundRun l (send_round cfg segs s e) count_eq (rw count_eq at packets)
        (rw count_eq at ends)
  step_phase-IsSoundRun (closing zero) s e count_eq le reply g closed = record {
    ordered = g;
    closed = tt;
    packets = tt;
  }
  step_phase-IsSoundRun (closing (suc left)) s e count_eq le reply g closed =
      let (l, packets, ends) = fin_round_lem s e count_eq (omega arith) in
      after_fin-IsSoundRun left s l (fin_round cfg (segment_count segs) s e) closed g packets ends
  step_phase-IsSoundRun (sent_result true) s e count_eq le reply g closed = record {
    ordered = g;
    closed = closed;
    packets = tt;
  }
  step_phase-IsSoundRun (sent_result false) s e count_eq le reply g closed = record {
    ordered = g;
    closed = tt;
    packets = tt;
  }

  -- One step of the sender, in any phase.
  pub send_step-IsSoundRun :
      (r : SenderRun D) (e : SendEvent)
      → length segs < 2 ^ 32
      → acked ≤ length segs
      → IsTrueReply (length segs) acked e.reply
      → IsOrdered (length segs) acked r.state
      → IsClosed (length segs) r.state.base r.phase
      → IsSoundRun segs acked (send_step cfg segs r e).0 (send_step cfg segs r e).1
  unfolding send_step
  send_step-IsSoundRun r e small =
      step_phase-IsSoundRun r.phase r.state e (unfold segment_count in omega arith)
