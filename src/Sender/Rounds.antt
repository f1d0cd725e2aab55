-- ===== src/Sender/Rounds.antt =====
-- What every round of the sender keeps, whatever the network and the callback do: the order of `base`
-- and `next_seq`, and that nothing is taken for acknowledged beyond `acked` segments, if every ACK
-- that passes the check is true.
use native.Mathlib.Decide.{dec_lt}
use hybrid_ftp.Base.{
  ℕ, zero, suc, ◌+◌, ◌-◌, ◌%◌, ◌^◌, ◌≤◌, ◌<◌, ◌≡◌, refl, ◌⊎◌, inl, inr, Bool, true, false, Option,
  List, [], arith, if◌then◌else◌, Bool-cases, get_or, All,
}
use hybrid_ftp.Udp.{Datagram}
use hybrid_ftp.Double.{Double}
use hybrid_ftp.Sender.{
  SenderConfig, SenderState, SendEvent, data_packet, segment_count, compute_effective_window,
  fill_window, timeout_round, process_ack, send_round,
}
use hybrid_ftp.Sender.Window.{fill_window-full, fill_window-failed, fill_window-sent}
use hybrid_ftp.Sender.Ends.{Ends, IsReply, send_round-Ends}

-- `n` segments, of which the receiver has `acked`.
pub record IsOrdered {D : Type 0} (n acked : ℕ) (s : SenderState D) : Type 0 where
  pub base_le : s.base ≤ s.next_seq
  pub next_le : s.next_seq ≤ n
  pub acked_le : s.base ≤ acked

-- A datagram that carries one of the segments.
abbrev pub IsDataPacket : List (List ℕ) → ℕ → List ℕ → Type 0
IsDataPacket segs n bytes =
    (i : ℕ) × (w : ℕ) × (i < n) × (bytes ≡ data_packet w i (get_or segs i []))

-- A number that an ACK may carry: of an accepted segment, or of none that exists.
abbrev pub IsTrueAck : ℕ → ℕ → ℕ → Type 0
IsTrueAck n acked ack = (n ≤ ack) ⊎ (ack < acked)

abbrev pub IsTrueReply : ℕ → ℕ → Option Datagram → Type 0
IsTrueReply n acked = IsReply (IsTrueAck n acked)

module _ {D : Type 0} ⦃f : Double D⦄ (cfg : SenderConfig D) (segs : List (List ℕ))
    (n acked : ℕ) where
  pub fill_window-IsOrdered :
      (sends : ℕ → Bool) (wnd rounds : ℕ) (s : SenderState D)
      → n < 2 ^ 32
      → s.next_seq + rounds ≤ n
      → IsOrdered n acked s
      → IsOrdered n acked (fill_window cfg segs sends wnd rounds s).state
        × All
            (λ (d : Datagram). IsDataPacket segs n d.bytes)
            (fill_window cfg segs sends wnd rounds s).sent
  fill_window-IsOrdered sends wnd zero s hn hr g = unfold fill_window in (g, tt)
  fill_window-IsOrdered sends wnd (suc rounds) s hn hr g =
      elim (dec_lt s.next_seq ((s.base + wnd) % 2 ^ 32)) [
        | no full ↦ rw (fill_window-full cfg segs sends wnd rounds s (omega arith)) (g, tt)
        | yes room ↦ elim (Bool-cases (sends s.next_seq)) [
          | inr failed ↦ rw (fill_window-failed cfg segs sends wnd rounds s room failed) (g, tt)
          | inl done ↦
              let ih = fill_window-IsOrdered sends wnd rounds _ hn (omega arith) (omega arith) in
              rw (fill_window-sent cfg segs sends wnd rounds s room done)
                (ih.0, ((s.next_seq, wnd, omega arith, refl), ih.1))
        ]
      ]

  timeout_round-IsOrdered :
      (s : SenderState D) (sent : List Datagram)
      → IsOrdered n acked s
      → Ends (IsOrdered n acked) sent (timeout_round cfg s sent)
  unfolding timeout_round
  timeout_round-IsOrdered s sent g = ground arith

  process_ack-IsOrdered :
      (ack : ℕ) (s : SenderState D) (sent : List Datagram)
      → n < 2 ^ 32
      → IsTrueAck n acked ack
      → IsOrdered n acked s
      → Ends (IsOrdered n acked) sent (process_ack cfg n ack s sent)
  unfolding process_ack
  process_ack-IsOrdered ack s sent hn ha g = ground arith

module _ {D : Type 0} ⦃f : Double D⦄ (cfg : SenderConfig D) (segs : List (List ℕ)) (acked : ℕ) where
  -- What a round of the first loop keeps, and that it sends segments of the data only.
  pub send_round-IsOrdered :
      (s : SenderState D) (e : SendEvent)
      → IsTrueReply (segment_count segs) acked e.reply
      → IsOrdered (segment_count segs) acked s
      → (sent : List Datagram) × All
          (λ (d : Datagram). IsDataPacket segs (segment_count segs) d.bytes)
          sent
        × Ends (IsOrdered (segment_count segs) acked) sent (send_round cfg segs s e)
  send_round-IsOrdered s e hr g =
      let n = segment_count segs in
      let small : n < 2 ^ 32 = unfold segment_count in omega arith in
      let kept =
        fill_window-IsOrdered cfg segs n acked e.sends (compute_effective_window cfg s)
          (n - s.next_seq) s small (omega (arith, g.next_le)) g in
      (
        _,
        sent_packets e.cancel_before _ kept.1,
        send_round-Ends cfg (IsOrdered n acked) (IsTrueAck n acked)
            (timeout_round-IsOrdered cfg segs n acked) (λ window s' g'. omega (arith, g')) segs s e
            (λ ack s' sent q p. process_ack-IsOrdered cfg segs n acked ack s' sent small q p) hr g
            kept.0,
      )
    where
      sent_packets :
          (b : Bool) (l : List Datagram)
          → All (λ (d : Datagram). IsDataPacket segs (segment_count segs) d.bytes) l
          → All
              (λ (d : Datagram). IsDataPacket segs (segment_count segs) d.bytes)
              (if b then [] else l)
      sent_packets true l h = tt
      sent_packets false l h = h
