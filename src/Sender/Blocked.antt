-- ===== src/Sender/Blocked.antt =====
-- A sender of src/rdt/SlidingWindow.cpp whose window is one segment, while every ACK that comes is for
-- a later one: `sendData` passes over an ACK from `nextSeq` on.
use native.Mathlib.Decide.{dec_lt}
use hybrid_ftp.Base.{
  ℕ, zero, suc, ◌+◌, ◌-◌, ◌%◌, ◌^◌, ◌≤◌, ◌<◌, ◌≡◌, refl, ap, ◌⊎◌, inl, inr, Bool, true, false, List,
  arith, ltb, lt→ltb, Bool-cases,
}
use hybrid_ftp.Udp.{Datagram, Outcome, continue, return}
use hybrid_ftp.Double.{Double}
use hybrid_ftp.Sender.{
  SenderConfig, SenderState, SendEvent, segment_count, compute_effective_window, fill_window,
  timeout_round, process_ack, send_round,
}
use hybrid_ftp.Sender.Run.{
  sending, sent_result, SenderRun, phase_after, after_send, step_phase, send_step,
}
use hybrid_ftp.Sender.Window.{fill_window-full, fill_window-failed, fill_window-sent}
use hybrid_ftp.Sender.Ends.{Ends, IsReply, send_round-Ends}

-- After a loss: the window is one segment, the one at `b`.
pub record IsBlocked {D : Type 0} ⦃f : Double D⦄ (b : ℕ) (s : SenderState D) : Type 0 where
  pub base_eq : s.base ≡ b
  pub next_le : s.next_seq ≤ b + 1
  pub cwnd_eq : s.cwnd ≡ f.one

-- The sender is blocked and still in its first loop, or has given up.
pub record IsStuck {D : Type 0} ⦃f : Double D⦄ (b : ℕ) (r : SenderRun D) : Type 0 where
  pub state : IsBlocked b r.state
  pub not_done : (r.phase ≡ sending) ⊎ (r.phase ≡ sent_result false)

-- An ACK for more than one segment from `b` on.
abbrev pub IsLate : ℕ → ℕ → Type 0
IsLate b ack = b + 1 ≤ ack

module _ {D : Type 0} ⦃f : Double D⦄ (cfg : SenderConfig D) (segs : List (List ℕ)) (b : ℕ)
    (one_eq : f.to_u32 (f.larger f.one (f.floor f.one)) ≡ 1) where
  window-IsBlocked : (s : SenderState D) → IsBlocked b s → compute_effective_window cfg s ≡ 1
  unfolding compute_effective_window
  window-IsBlocked s g = rw (g.cwnd_eq, one_eq) (ground arith)

  fill_window-IsBlocked :
      (sends : ℕ → Bool) (rounds : ℕ) (s : SenderState D)
      → b + 1 < 2 ^ 32
      → IsBlocked b s
      → IsBlocked b (fill_window cfg segs sends 1 rounds s).state
  fill_window-IsBlocked sends zero s small g = unfold fill_window in g
  fill_window-IsBlocked sends (suc rounds) s small g =
      elim (dec_lt s.next_seq ((s.base + 1) % 2 ^ 32)) [
        | no full ↦ rw (fill_window-full cfg segs sends 1 rounds s (omega arith)) g
        | yes room ↦ elim (Bool-cases (sends s.next_seq)) [
          | inr failed ↦ rw (fill_window-failed cfg segs sends 1 rounds s room failed) g
          | inl done ↦ rw (fill_window-sent cfg segs sends 1 rounds s room done) (
              fill_window-IsBlocked sends rounds _ small (record {
                base_eq = g.base_eq;
                next_le = omega (arith, g.base_eq);
                cwnd_eq = g.cwnd_eq;
              }))
        ]
      ]

  timeout_round-IsBlocked :
      (s : SenderState D) (sent : List Datagram)
      → IsBlocked b s
      → Ends (IsBlocked b) sent (timeout_round cfg s sent)
  unfolding timeout_round
  timeout_round-IsBlocked s sent g = ground arith

  process_ack-IsBlocked :
      (n ack : ℕ) (s : SenderState D) (sent : List Datagram)
      → IsLate b ack
      → IsBlocked b s
      → Ends (IsBlocked b) sent (process_ack cfg n ack s sent)
  unfolding process_ack
  process_ack-IsBlocked n ack s sent late g = ground arith

  send_round-IsBlocked :
      (s : SenderState D) (e : SendEvent)
      → b + 1 < 2 ^ 32
      → IsReply (IsLate b) e.reply
      → IsBlocked b s
      → (l : List Datagram) × Ends (IsBlocked b) l (send_round cfg segs s e)
  send_round-IsBlocked s e small late g =
      let n = segment_count segs in
      (
        _,
        send_round-Ends cfg (IsBlocked b) (IsLate b) timeout_round-IsBlocked
            (λ window s' g'. record {
              base_eq = g'.base_eq;
              next_le = g'.next_le;
              cwnd_eq = g'.cwnd_eq;
            })
            segs s e (process_ack-IsBlocked n) late g
            (rw (window-IsBlocked s g) (fill_window-IsBlocked e.sends (n - s.next_seq) s small g)),
      )

  after_send-IsStuck :
      (l : List Datagram) (o : Outcome (SenderState D))
      → b < segment_count segs
      → Ends (IsBlocked b) l o
      → IsStuck b (after_send cfg segs o).0
  unfolding after_send phase_after
  after_send-IsStuck l (continue s sent) more ends =
      let on : ltb s.base (segment_count segs) ≡ true =
        lt→ltb _ _ (omega (arith, ends.holds.0.base_eq)) in
      record { state = ends.holds.0; not_done = inl (rw on refl) }
  after_send-IsStuck l (return result s sent) more ends = record {
    state = ends.holds.0;
    not_done = inr (ap sent_result ends.holds.2);
  }

  -- No round brings it further, whatever late ACK comes.
  pub send_step-IsStuck :
      (r : SenderRun D) (e : SendEvent)
      → b < segment_count segs
      → b + 1 < 2 ^ 32
      → IsReply (IsLate b) e.reply
      → IsStuck b r
      → IsStuck b (send_step cfg segs r e).0
  unfolding send_step step_phase
  send_step-IsStuck r e more small late g = elim g.not_done [
    | inl on ↦
        let (l, ends) = send_round-IsBlocked r.state e small late g.state in
        rw on (after_send-IsStuck l (send_round cfg segs r.state e) more ends)
    | inr off ↦ rw off (record { state = g.state; not_done = inr refl })
  ]
