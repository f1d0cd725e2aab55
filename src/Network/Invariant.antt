-- ===== src/Network/Invariant.antt =====
-- The invariant of the two ends and the channels between them.
use hybrid_ftp.Base.{
  ℕ, ◌+◌, ◌^◌, ◌≤◌, ◌<◌, ◌≡◌, refl, inl, inr, true, none, List, ◌++◌, arith, length, All,
  All-append, All-map,
}
use hybrid_ftp.Header.{header_size}
use hybrid_ftp.Udp.{Datagram, Outcome, continue, return, Phase, running, returned}
use hybrid_ftp.Receiver.{receive_buffer_size, ReceiverState, ReceiveEvent, receive_round}
use hybrid_ftp.Double.{Double}
use hybrid_ftp.Sender.{ack_buffer_size, SenderConfig, SendEvent}
use hybrid_ftp.Receiver.Accepts.{
  HasAccepted, IsAckPacket, IsAnswer, IsTruePacket, Round, receive_round-Round,
}
use hybrid_ftp.Sender.Rounds.{IsOrdered}
use hybrid_ftp.Sender.Steps.{IsClosed, send_step-IsSoundRun}
use hybrid_ftp.Network.{
  Delivery, System, bytes_of, after_receive, receiver_in, receiver_moves, sender_sends, sender_ends,
}
use hybrid_ftp.Network.Arrivals.{All-bytes_of, true_reply, true_incoming}

pub record IsSound {D : Type 0} (window : ℕ) (segs : List (List ℕ)) (sys : System D) : Type 0 where
  pub ordered : IsOrdered (length segs) sys.receiver_state.expected_seq sys.sender_run.state
  pub accepted : HasAccepted segs sys.receiver_state
  pub packets : All (IsTruePacket segs sys.receiver_state.expected_seq) sys.data_channel
  pub acks : All (IsAckPacket window segs sys.receiver_state.expected_seq) sys.ack_channel
  pub closed : IsClosed (length segs) sys.sender_run.state.base sys.sender_run.phase
  pub finished : sys.receiver_phase ≡ returned true → sys.receiver_state.expected_seq ≡ length segs

-- What is true of the channels stays true when the receiver accepts more.
IsTruePacket-later :
    (segs : List (List ℕ)) (a a' : ℕ) (bytes : List ℕ)
    → a ≤ a'
    → a' ≤ length segs
    → IsTruePacket segs a bytes
    → IsTruePacket segs a' bytes
IsTruePacket-later segs a a' bytes le le' (inl p) = inl p
IsTruePacket-later segs a a' bytes le le' (inr (w, e, all)) = inr (w, e, omega arith)

IsAckPacket-later :
    (window : ℕ) (segs : List (List ℕ)) (a a' : ℕ) (bytes : List ℕ)
    → a ≤ a'
    → IsAckPacket window segs a bytes
    → IsAckPacket window segs a' bytes
IsAckPacket-later window segs a a' bytes le (inl (k, lt, e)) = inl (k, omega arith, e)
IsAckPacket-later window segs a a' bytes le (inr e) = inr e

IsAnswer-IsAckPacket :
    (window : ℕ) (segs : List (List ℕ)) (a : ℕ) (bytes : List ℕ)
    → IsAnswer window segs a bytes
    → IsAckPacket window segs a bytes
IsAnswer-IsAckPacket window segs a bytes (inl e) = inl (a, omega arith, e)
IsAnswer-IsAckPacket window segs a bytes (inr e) = inr e

module _ {D : Type 0} (window : ℕ) (segs : List (List ℕ)) (sys : System D)
    (g : IsSound window segs sys) where
  later-IsOrdered :
      (a : ℕ) → sys.receiver_state.expected_seq ≤ a → IsOrdered (length segs) a sys.sender_run.state
  later-IsOrdered a le = omega (arith, g.ordered)

  later_packets :
      (a : ℕ)
      → sys.receiver_state.expected_seq ≤ a
      → a ≤ length segs
      → All (IsTruePacket segs a) sys.data_channel
  later_packets a le le' =
      All-map (λ bytes. IsTruePacket-later segs _ a bytes le le') sys.data_channel g.packets

  later_acks :
      (a : ℕ) (sent : List Datagram)
      → sys.receiver_state.expected_seq ≤ a
      → All (λ (d : Datagram). IsAnswer window segs a d.bytes) sent
      → All (IsAckPacket window segs a) (bytes_of sent ++ sys.ack_channel)
  later_acks a sent le h =
      All-append (IsAckPacket window segs a) (bytes_of sent) sys.ack_channel
        (All-map (IsAnswer-IsAckPacket window segs a) (bytes_of sent)
          (All-bytes_of (IsAnswer window segs a) sent h))
        (All-map (λ bytes. IsAckPacket-later window segs _ a bytes le) sys.ack_channel g.acks)

  after_receive-IsSound :
      (o : Outcome ReceiverState)
      → sys.receiver_phase ≡ running
      → Round window segs sys.receiver_state.expected_seq o
      → IsSound window segs (after_receive sys o)
  unfolding after_receive
  after_receive-IsSound (continue s sent) e r =
      let (accepted, le, acks) = r.holds in
      record {
        ordered = later-IsOrdered s.expected_seq le;
        accepted = accepted;
        packets = later_packets s.expected_seq le accepted.expected_le;
        acks = later_acks s.expected_seq sent le acks;
        closed = g.closed;
        finished = λ h. cc (h, e);
      }
  after_receive-IsSound (return result s sent) e r =
      let (accepted, le, acks, done) = r.holds in
      record {
        ordered = later-IsOrdered s.expected_seq le;
        accepted = accepted;
        packets = later_packets s.expected_seq le accepted.expected_le;
        acks = later_acks s.expected_seq sent le acks;
        closed = g.closed;
        finished = λ h. done (returned_result h);
      }
    where
      returned_result : returned result ≡ returned true → result ≡ true
      returned_result h = cc

  pub receiver_moves-IsSound :
      (e : ReceiveEvent)
      → length segs < 2 ^ 32
      → All (λ seg. header_size + length seg ≤ receive_buffer_size) segs
      → Delivery sys.data_channel receive_buffer_size e.incoming
      → IsSound window segs (receiver_moves window sys e)
  unfolding receiver_moves
  receiver_moves-IsSound e small fits arrival = in_phase sys.receiver_phase refl
    where
      in_phase :
          (phase : Phase)
          → sys.receiver_phase ≡ phase
          → IsSound window segs (receiver_in phase window sys e)
      in_phase running eq = after_receive-IsSound (receive_round window sys.receiver_state e) eq (
          receive_round-Round window segs sys.receiver_state e small
            (true_incoming window segs _ fits g.packets arrival) g.accepted)
      in_phase (returned result) eq = g

  pub sender_sends-IsSound :
      ⦃f : Double D⦄ (cfg : SenderConfig D) (e : SendEvent)
      → length segs < 2 ^ 32
      → IsSound window segs (sender_sends cfg window segs sys e)
  unfolding sender_sends
  sender_sends-IsSound cfg e small =
      let run =
        send_step-IsSoundRun cfg segs sys.receiver_state.expected_seq sys.sender_run
          (record e { reply = none }) small g.accepted.expected_le tt g.ordered g.closed in
      record {
        ordered = g.ordered;
        accepted = g.accepted;
        packets =
            All-append (IsTruePacket segs _) _ sys.data_channel
              (All-bytes_of (IsTruePacket segs _) _ run.packets) g.packets;
        acks = g.acks;
        closed = g.closed;
        finished = g.finished;
      }

  pub sender_ends-IsSound :
      ⦃f : Double D⦄ (cfg : SenderConfig D) (e : SendEvent)
      → window < 2 ^ 16
      → length segs < 2 ^ 32
      → Delivery sys.ack_channel ack_buffer_size e.reply
      → IsSound window segs (sender_ends cfg window segs sys e)
  unfolding sender_ends
  sender_ends-IsSound cfg e hw small arrival =
      let le = g.accepted.expected_le in
      let reply = true_reply window segs _ hw small le g.acks arrival in
      let run =
        send_step-IsSoundRun cfg segs sys.receiver_state.expected_seq sys.sender_run e small le
          reply g.ordered g.closed in
      record {
        ordered = run.ordered;
        accepted = g.accepted;
        packets = g.packets;
        acks = g.acks;
        closed = run.closed;
        finished = g.finished;
      }
