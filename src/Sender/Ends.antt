-- ===== src/Sender/Ends.antt =====
-- How a round of `sendData` in src/rdt/SlidingWindow.cpp ends, for any property of its state that each
-- of its branches keeps.
use text.Mathlib.Text.{◌==◌ as str_eq}
use hybrid_ftp.Base.{
  ℕ, ◌-◌, ◌<◌, ◌≡◌, refl, ◌⊎◌, inl, inr, Bool, true, false, not, ◌||◌, Option, none, some, List, [],
  arith, ltb, ◌==◌, if◌then◌else◌, not_ltb→le, Bool-cases, length,
}
use hybrid_ftp.Header.{header_size, flag_ack, has_flag, deserialize_header}
use hybrid_ftp.Header.Detection.{passes}
use hybrid_ftp.Udp.{Datagram, received, Outcome, continue, return}
use hybrid_ftp.Double.{Double}
use hybrid_ftp.Sender.{
  ack_buffer_size, SenderConfig, SenderState, SendEvent, segment_count, compute_effective_window,
  fill_window, timeout_round, process_ack, handle_reply, send_round,
}

-- A round ends in a state with a property, having sent `l`, and does not return true.
abbrev pub EndsIn : {S : Type 0} → (S → Type 0) → List Datagram → Outcome S → Type 0
EndsIn P l (continue s sent) = P s × (sent ≡ l)
EndsIn P l (return result s sent) = P s × (sent ≡ l) × (result ≡ false)

pub record Ends {S : Type 0} (P : S → Type 0) (l : List Datagram) (o : Outcome S) : Type 0 where
  pub holds : EndsIn P l o

pub Ends-if :
    {S : Type 0} {P : S → Type 0} {l : List Datagram} (b : Bool) {o o' : Outcome S}
    → (b ≡ true → Ends P l o)
    → (b ≡ false → Ends P l o')
    → Ends P l (if b then o else o')
Ends-if true h h' = h refl
Ends-if false h h' = h' refl

-- A reply that is none, or is too short, or fails the check, or has an ACK number with a property.
abbrev pub IsReply : (ℕ → Type 0) → Option Datagram → Type 0
IsReply Q none = Unit
IsReply Q (some d) =
    (length (received ack_buffer_size d) < header_size)
    ⊎ (passes (received ack_buffer_size d) ≡ false)
    ⊎ Q (deserialize_header (received ack_buffer_size d)).ack_num

-- Which number a reply has that passes the tests on its length and checksum.
IsReply-passed :
    (Q : ℕ → Type 0) (d : Datagram)
    → IsReply Q (some d)
    → ltb (length (received ack_buffer_size d)) header_size ≡ false
    → not (passes (received ack_buffer_size d)) ≡ false
    → Q (deserialize_header (received ack_buffer_size d)).ack_num
IsReply-passed Q d (inl short) long checked = absurd (omega (arith, short, not_ltb→le _ _ long))
IsReply-passed Q d (inr (inl bad)) long checked =
    let wrong : not false ≡ false = rw bad at checked in absurd (cc wrong)
IsReply-passed Q d (inr (inr ack)) long checked = ack

-- A property `P` of the state that each branch of a round keeps, if the replies have a property `Q`.
module _ {D : Type 0} ⦃f : Double D⦄ (cfg : SenderConfig D) (P : SenderState D → Type 0)
    (Q : ℕ → Type 0)
    (timeout_keeps : (s : SenderState D) (sent : List Datagram)
      → P s
      → Ends P sent (timeout_round cfg s sent))
    (window_keeps : (window : ℕ) (s : SenderState D)
      → P s
      → P (record s { recv_window = window })) where
  handle_reply-Ends :
      (n : ℕ) (s : SenderState D) (sent : List Datagram) (reply : Option Datagram)
      → ((ack : ℕ) (s : SenderState D) → Q ack → P s → Ends P sent (process_ack cfg n ack s sent))
      → IsReply Q reply
      → P s
      → Ends P sent (handle_reply cfg n s sent reply)
  unfolding handle_reply
  handle_reply-Ends n s sent none ack_keeps hr g = timeout_keeps s sent g
  handle_reply-Ends n s sent (some d) ack_keeps hr g =
      let h = deserialize_header (received ack_buffer_size d) in
      let same : Ends P sent (continue s sent) = record { holds = (g, refl) } in
      let is_short = ltb (length (received ack_buffer_size d)) header_size in
      let other_port = not (d.peer.port == cfg.dest.port) in
      let other_ip = not (str_eq d.peer.ip cfg.dest.ip) in
      Ends-if is_short (λ _. timeout_keeps s sent g)
        λ long.
          Ends-if (not (passes (received ack_buffer_size d))) (λ _. same)
            λ checked.
              Ends-if (not (has_flag h flag_ack)) (λ _. same)
                λ _.
                  Ends-if (other_port || other_ip) (λ _. same)
                    λ _.
                      ack_keeps h.ack_num _ (IsReply-passed Q d hr long checked)
                        (new_window (ltb 0 h.window_size) h.window_size)
    where
      new_window : (b : Bool) (window : ℕ) → P (if b then record s { recv_window = window } else s)
      new_window true window = window_keeps window s g
      new_window false window = g

  -- A whole round, from what the loop over the window leaves.
  pub send_round-Ends :
      (segs : List (List ℕ)) (s : SenderState D) (e : SendEvent)
      → ((ack : ℕ) (s : SenderState D) (sent : List Datagram)
          → Q ack
          → P s
          → Ends P sent (process_ack cfg (segment_count segs) ack s sent))
      → IsReply Q e.reply
      → P s
      → P
          (fill_window cfg segs e.sends
            (compute_effective_window cfg s)
            (segment_count segs - s.next_seq)
            s).state
      → Ends P
          (if e.cancel_before
            then []
            else (fill_window cfg segs e.sends
                (compute_effective_window cfg s)
                (segment_count segs - s.next_seq)
                s).sent)
          (send_round cfg segs s e)
  unfolding send_round
  send_round-Ends segs s e ack_keeps hr g filled_keeps =
      let n = segment_count segs in
      let filled =
        fill_window cfg segs e.sends (compute_effective_window cfg s) (n - s.next_seq) s in
      let stop : Ends P filled.sent (return false filled.state filled.sent) = record {
        holds = (filled_keeps, refl, refl);
      } in
      elim (Bool-cases e.cancel_before) [
        | inl cancelled ↦ rw cancelled (record { holds = (g, refl, refl) })
        | inr on ↦ rw on (
            Ends-if (not filled.sent_all) (λ _. stop)
              λ _.
                Ends-if e.cancel_after (λ _. stop)
                  λ _.
                    handle_reply-Ends n filled.state filled.sent e.reply
                      (λ ack s' q p. ack_keeps ack s' filled.sent q p) hr filled_keeps)
      ]
