-- ===== src/Receiver/Progress.antt =====
-- What the receiver does with the packet that it waits for, and with the FIN.
use text.Mathlib.Text.{◌==◌ as str_eq}
use hybrid_ftp.Base.{
  ℕ, ◌+◌, ◌%◌, ◌^◌, ◌≤◌, ◌<◌, ◌≡◌, refl, ◌∙◌, true, false, ◌||◌, some, List, [], ◌∷◌, ◌++◌, arith,
  ltb, ◌==◌, length, take_all,
}
use hybrid_ftp.Header.{header_size, set_flag}
use hybrid_ftp.Udp.{Endpoint, received, continue, return}
use hybrid_ftp.Receiver.{
  receive_buffer_size, ReceiverState, ReceiveEvent, ack_packet, fin_ack_packet, send_cumulative_ack,
  accept_segment, receive_packet, receive_incoming, receive_round,
}
use hybrid_ftp.Receiver.Rounds.{receive_packet-data, receive_packet-fin}
use hybrid_ftp.Sender.{data_packet, fin_packet}
use hybrid_ftp.Sender.Segments.{
  data_packet-Reads, length-data_packet, fin_packet-Reads, length-fin_packet,
}

-- An endpoint that the receiver answers.
abbrev pub IsKnown : Endpoint → Type 0
IsKnown peer = (str_eq peer.ip "" || peer.port == 0) ≡ false

-- A round that is not cancelled, in which a datagram comes in.
abbrev pub got_datagram : List ℕ → Endpoint → ReceiveEvent
got_datagram bytes peer = record {
  cancel_before = false;
  incoming = some (record { bytes = bytes; peer = peer });
  cancel_after = false;
}

module _ (window : ℕ) (s : ReceiverState) (peer : Endpoint) where
  -- A datagram that fits the buffer, and has a header.
  receive_round-whole :
      (bytes : List ℕ)
      → header_size ≤ length bytes
      → length bytes ≤ receive_buffer_size
      → receive_round window s (got_datagram bytes peer)
        ≡ receive_packet window (record s { sender = peer }) bytes
  unfolding receive_round receive_incoming received
  receive_round-whole bytes long fits =
      let not_short : ltb (length bytes) header_size ≡ false = ground arith in
      rw (take_all receive_buffer_size bytes fits, not_short) refl

  -- The segment in its turn is accepted and acknowledged.
  pub receive_round-segment :
      (w : ℕ) (content : List ℕ)
      → s.expected_seq + 1 < 2 ^ 32
      → header_size + length content ≤ receive_buffer_size
      → IsKnown peer
      → receive_round window s (got_datagram (data_packet w s.expected_seq content) peer)
        ≡ continue
            (record {
              expected_seq = s.expected_seq + 1;
              out_data = s.out_data ++ content;
              sender = peer;
            })
            (record { bytes = ack_packet window (s.expected_seq + 1); peer = peer } ∷ [])
  unfolding accept_segment send_cumulative_ack set_flag
  receive_round-segment w content small fits known =
      let size = length-data_packet w s.expected_seq content in
      let reads = data_packet-Reads w s.expected_seq content (omega arith) in
      let turn : (s.expected_seq == s.expected_seq) ≡ true = ground arith in
      let next : (s.expected_seq + 1) % 2 ^ 32 ≡ s.expected_seq + 1 = omega arith in
      receive_round-whole (data_packet w s.expected_seq content) (omega (arith, size))
        (omega (arith, size))
      ∙ receive_packet-data window (record s { sender = peer }) reads refl
      ∙ rw (turn, next, known) refl

  -- The FIN ends the function with true.
  pub receive_round-fin :
      (w seq : ℕ)
      → seq < 2 ^ 32
      → receive_round window s (got_datagram (fin_packet w seq) peer)
        ≡ return true
            (record s { sender = peer })
            (record { bytes = fin_ack_packet window seq; peer = peer } ∷ [])
  unfolding set_flag
  receive_round-fin w seq small =
      let size = length-fin_packet w seq in
      receive_round-whole (fin_packet w seq) (omega (arith, size)) (omega (arith, size))
      ∙ receive_packet-fin window (record s { sender = peer }) (fin_packet-Reads w seq small) refl
