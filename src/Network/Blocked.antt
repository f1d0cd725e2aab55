-- ===== src/Network/Blocked.antt =====
-- A transfer of src/rdt/SlidingWindow.cpp that cannot be completed any more: the receiver has accepted
-- two segments or more past `base`, their ACKs are lost, and the sender has gone back to `base`.
use hybrid_ftp.Base.{
  ℕ, ◌+◌, ◌-◌, ◌^◌, ◌≤◌, ◌<◌, ◌≡◌, refl, ◌≢◌, ◌⊎◌, inl, inr, true, false, Option, some, List, [],
  ◌∷◌, arith, length, All, All-append,
}
use hybrid_ftp.Header.{header_size, deserialize_header}
use hybrid_ftp.Udp.{
  Endpoint, Datagram, received, Outcome, continue, return, Phase, running, returned,
}
use hybrid_ftp.Receiver.{
  receive_buffer_size, ReceiverState, ReceiveEvent, cumulative_ack_num, ack_packet, fin_ack_packet,
  receive_round,
}
use hybrid_ftp.Double.{Double}
use hybrid_ftp.Sender.{ack_buffer_size, SenderConfig, segments, segment_count}
use hybrid_ftp.Sender.Run.{sending, sent_result}
use hybrid_ftp.Receiver.Accepts.{IsAnswer, Round, receive_round-Round}
use hybrid_ftp.Sender.Ends.{IsReply}
use hybrid_ftp.Sender.Blocked.{IsStuck, IsLate, send_step-IsStuck}
use hybrid_ftp.Network.{
  Delivery, timed_out, arrived, cut_off, damaged, System, bytes_of, after_receive, receiver_in,
  receiver_moves, sender_sends, sender_ends, Waits, at_once, meanwhile, Step, sender_step,
  receiver_step, Reach, begin, next, initial,
}
use hybrid_ftp.Network.Arrivals.{All_at, ack_number, fin_ack_number, true_incoming}
use hybrid_ftp.Network.Invariant.{
  IsSound, receiver_moves-IsSound, sender_sends-IsSound, sender_ends-IsSound,
}
use hybrid_ftp.Network.Reliability.{Reach-IsSound, segments_fit}

-- The receiver's answers when it has accepted `b + 2` segments or more.
abbrev IsLateAnswer : ℕ → List (List ℕ) → ℕ → List ℕ → Type 0
IsLateAnswer window segs b bytes =
    ((k : ℕ) × (b + 2 ≤ k) × (k ≤ length segs) × (bytes ≡ ack_packet window k))
    ⊎ (bytes ≡ fin_ack_packet window (length segs))

module _ {D : Type 0} ⦃f : Double D⦄ (cfg : SenderConfig D) (window : ℕ) (segs : List (List ℕ))
    (b : ℕ) (hw : window < 2 ^ 16) (small : length segs < 2 ^ 32)
    (one_eq : f.to_u32 (f.larger f.one (f.floor f.one)) ≡ 1) where
  Delivery-IsReply :
      {channel : List (List ℕ)} {reply : Option Datagram}
      → b + 2 ≤ length segs
      → All (IsLateAnswer window segs b) channel
      → Delivery channel ack_buffer_size reply
      → IsReply (IsLate b) reply
  Delivery-IsReply more late timed_out = tt
  Delivery-IsReply more late (cut_off d short) = inl short
  Delivery-IsReply more late (damaged d bad) = inr (inl bad)
  Delivery-IsReply more late (arrived d i) = inr (inr (late_number (All_at _ i late)))
    where
      late_number :
          IsLateAnswer window segs b d.bytes
          → IsLate b (deserialize_header (received ack_buffer_size d)).ack_num
      late_number (inl (k, far, le, e)) =
          let number = ack_number window k d hw (omega arith) e in
          let value : cumulative_ack_num k ≡ k - 1 = unfold cumulative_ack_num in ground arith in
          omega (arith, number, value)
      late_number (inr e) = omega (arith, fin_ack_number window (length segs) d hw small e)

  record IsLost (sys : System D) : Type 0 where
    sound : IsSound window segs sys
    stuck : IsStuck b sys.sender_run
    far : b + 2 ≤ sys.receiver_state.expected_seq
    late : All (IsLateAnswer window segs b) sys.ack_channel

  late_answers :
      (a : ℕ) (sent : List Datagram)
      → b + 2 ≤ a
      → a ≤ length segs
      → All (λ (d : Datagram). IsAnswer window segs a d.bytes) sent
      → All (IsLateAnswer window segs b) (bytes_of sent)
  late_answers a [] far le answers = tt
  late_answers a (d ∷ sent) far le answers =
      (is_late answers.0, late_answers a sent far le answers.1)
    where
      is_late : IsAnswer window segs a d.bytes → IsLateAnswer window segs b d.bytes
      is_late (inl e) = inl (a, far, le, e)
      is_late (inr e) = inr e

  module _ (sys : System D) (g : IsLost sys) where
    after_receive-IsLost :
        (o : Outcome ReceiverState)
        → Round window segs sys.receiver_state.expected_seq o
        → IsSound window segs (after_receive sys o)
        → IsLost (after_receive sys o)
    unfolding after_receive
    after_receive-IsLost (continue s sent) r sound =
        let (accepted, le, answers) = r.holds in
        let far : b + 2 ≤ s.expected_seq = omega (arith, g.far) in
        record {
          sound = sound;
          stuck = g.stuck;
          far = far;
          late =
              All-append (IsLateAnswer window segs b) (bytes_of sent) sys.ack_channel
                (late_answers s.expected_seq sent far accepted.expected_le answers) g.late;
        }
    after_receive-IsLost (return result s sent) r sound =
        let (accepted, le, answers, _) = r.holds in
        let far : b + 2 ≤ s.expected_seq = omega (arith, g.far) in
        record {
          sound = sound;
          stuck = g.stuck;
          far = far;
          late =
              All-append (IsLateAnswer window segs b) (bytes_of sent) sys.ack_channel
                (late_answers s.expected_seq sent far accepted.expected_le answers) g.late;
        }

    module _ (fits : All (λ seg. header_size + length seg ≤ receive_buffer_size) segs) where
      receiver_moves-IsLost :
          (e : ReceiveEvent)
          → Delivery sys.data_channel receive_buffer_size e.incoming
          → IsLost (receiver_moves window sys e)
      unfolding receiver_moves
      receiver_moves-IsLost e arrival =
          in_phase sys.receiver_phase
            (receiver_moves-IsSound window segs sys g.sound e small fits arrival)
        where
          in_phase :
              (phase : Phase)
              → IsSound window segs (receiver_in phase window sys e)
              → IsLost (receiver_in phase window sys e)
          in_phase running sound =
              unfold receiver_in in
              after_receive-IsLost (receive_round window sys.receiver_state e)
                (receive_round-Round window segs sys.receiver_state e small
                  (true_incoming window segs _ fits g.sound.packets arrival) g.sound.accepted)
                sound
          in_phase (returned result) sound = g

  module _ (fits : All (λ seg. header_size + length seg ≤ receive_buffer_size) segs) where
    Waits-IsLost :
        {start sys : System D} → IsLost start → Waits cfg window segs start sys → IsLost sys
    Waits-IsLost g at_once = g
    Waits-IsLost g (meanwhile w e arrival) =
        receiver_moves-IsLost _ (Waits-IsLost g w) fits e arrival

    Step-IsLost : {sys sys' : System D} → Step cfg window segs sys sys' → IsLost sys → IsLost sys'
    unfolding sender_sends sender_ends
    Step-IsLost (receiver_step sys e arrival) g = receiver_moves-IsLost sys g fits e arrival
    Step-IsLost (sender_step {sys' = mid} sys e w arrival) g =
        let sent : IsLost (sender_sends cfg window segs sys e) = record {
          sound = sender_sends-IsSound window segs sys g.sound cfg e small;
          stuck = g.stuck;
          far = g.far;
          late = g.late;
        } in
        let g' = Waits-IsLost sent w in
        let all : segment_count segs ≡ length segs = unfold segment_count in omega arith in
        let more : b + 2 ≤ length segs = omega (arith, g'.far, g'.sound.accepted.expected_le) in
        record {
          sound = sender_ends-IsSound window segs mid g'.sound cfg e hw small arrival;
          stuck =
              send_step-IsStuck cfg segs b one_eq mid.sender_run e (omega (arith, all, more))
                (omega (arith, more)) (Delivery-IsReply more g'.late arrival) g'.stuck;
          far = g'.far;
          late = g'.late;
        }

    Reach-IsLost : {sys sys' : System D} → IsLost sys → Reach cfg window segs sys sys' → IsLost sys'
    Reach-IsLost g begin = g
    Reach-IsLost g (next r step) = Step-IsLost step (Reach-IsLost g r)

-- A transfer that lost ACKs cannot be completed. A transfer has come to where the sender has gone back
-- to `base` after a loss, with `next_seq` at `base` and `cwnd` at 1, while the receiver has accepted
-- two segments or more from `base` on, and the ACKs sent so far are lost. Then nothing moves `base`
-- any more and `sendData` never returns true, also when every later packet and ACK arrives: it
-- resends one segment and passes over the ACK, which is for a later one. The MSS is positive and fits
-- the receiver's buffer, there are fewer than 2 ^ 32 segments, and a `double` of 1 converts to 1.
pub lost_acks_block :
    {D : Type 0} ⦃f : Double D⦄ (cfg : SenderConfig D) (window : ℕ) (content : List ℕ)
    (segs : List (List ℕ)) (peer : Endpoint) (sys sys' : System D)
    → 0 < cfg.mss
    → header_size + cfg.mss ≤ receive_buffer_size
    → segments cfg.mss content ≡ some segs
    → length segs < 2 ^ 32
    → window < 2 ^ 16
    → f.to_u32 (f.larger f.one (f.floor f.one)) ≡ 1
    → Reach cfg window segs (initial cfg window segs peer) sys
    → sys.sender_run.phase ≡ sending
    → sys.sender_run.state.cwnd ≡ f.one
    → sys.sender_run.state.next_seq ≡ sys.sender_run.state.base
    → sys.sender_run.state.base + 2 ≤ sys.receiver_state.expected_seq
    → Reach cfg window segs (record sys { ack_channel = [] }) sys'
    → (sys'.sender_run.state.base ≡ sys.sender_run.state.base)
      × (sys'.sender_run.phase ≢ sent_result true)
lost_acks_block cfg window content segs peer sys sys' pos fits cut small hw one_eq r on one back far
      later =
    let in_buffer = segments_fit cfg.mss content segs pos fits cut in
    let sound = Reach-IsSound cfg window segs hw small in_buffer r in
    let last =
      Reach-IsLost cfg window segs sys.sender_run.state.base hw small one_eq in_buffer
        (record {
          sound = record {
            ordered = sound.ordered;
            accepted = sound.accepted;
            packets = sound.packets;
            acks = tt;
            closed = sound.closed;
            finished = sound.finished;
          };
          stuck = record {
            state = record { base_eq = refl; next_le = omega (arith, back); cwnd_eq = one };
            not_done = inl on;
          };
          far = far;
          late = tt;
        })
        later in
    (last.stuck.state.base_eq, not_true last.stuck.not_done)
  where
    not_true :
        (sys'.sender_run.phase ≡ sending) ⊎ (sys'.sender_run.phase ≡ sent_result false)
        → sys'.sender_run.phase ≢ sent_result true
    not_true (inl e) h = cc
    not_true (inr e) h = cc
