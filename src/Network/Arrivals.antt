-- ===== src/Network/Arrivals.antt =====
-- What arrives from a channel is true if all that was sent on it is.
use hybrid_ftp.Base.{
  ℕ, zero, suc, ◌+◌, ◌^◌, ◌≤◌, ◌<◌, ◌≡◌, ap, ◌∙◌, inl, inr, Option, List, [], ◌∷◌, arith, length,
  get_or, All, take_all,
}
use hybrid_ftp.Header.{header_size, set_flag, deserialize_header}
use hybrid_ftp.Udp.{Datagram, received}
use hybrid_ftp.Receiver.{receive_buffer_size, cumulative_ack_num, ack_packet, fin_ack_packet}
use hybrid_ftp.Receiver.Rounds.{
  length-ack_packet, length-fin_ack_packet, ack_packet-Reads, fin_ack_packet-Reads,
}
use hybrid_ftp.Sender.{ack_buffer_size}
use hybrid_ftp.Sender.Segments.{length-data_packet, length-fin_packet}
use hybrid_ftp.Receiver.Accepts.{IsAckPacket, IsTruePacket, IsTrueIncoming}
use hybrid_ftp.Sender.Rounds.{IsTrueAck, IsTrueReply}
use hybrid_ftp.Network.{In, here, there, Delivery, timed_out, arrived, cut_off, damaged, bytes_of}

pub All_at : {A : Type 0} (P : A → Type 0) {a : A} {l : List A} → In a l → All P l → P a
All_at P here h = h.0
All_at P (there i) h = All_at P i h.1

pub All-bytes_of :
    (P : List ℕ → Type 0) (l : List Datagram)
    → All (λ (d : Datagram). P d.bytes) l
    → All P (bytes_of l)
All-bytes_of P [] h = tt
All-bytes_of P (d ∷ ds) h = (h.0, All-bytes_of P ds h.1)

-- A datagram that fits the buffer is received whole.
received_whole : (size : ℕ) (d : Datagram) → length d.bytes ≤ size → received size d ≡ d.bytes
unfolding received
received_whole size d h = take_all size d.bytes h

cumulative_ack_num-IsTrueAck :
    (n accepted k : ℕ) → n < 2 ^ 32 → k ≤ accepted → IsTrueAck n accepted (cumulative_ack_num k)
unfolding cumulative_ack_num
cumulative_ack_num-IsTrueAck n accepted zero hn le = inl (omega arith)
cumulative_ack_num-IsTrueAck n accepted (suc k) hn le = inr (ground arith)

-- Each segment fits the receiver's buffer.
pub segment_fits :
    (segs : List (List ℕ)) (i : ℕ)
    → i < length segs
    → All (λ seg. header_size + length seg ≤ receive_buffer_size) segs
    → header_size + length (get_or segs i []) ≤ receive_buffer_size
segment_fits [] i lt fits = absurd (omega arith)
segment_fits (seg ∷ segs) zero lt fits = fits.0
segment_fits (seg ∷ segs) (suc i) lt fits = segment_fits segs i (omega arith) fits.1

-- The packets of the segments and the FIN fit the receiver's buffer.
true_packet_fits :
    (segs : List (List ℕ)) (accepted : ℕ) (bytes : List ℕ)
    → All (λ seg. header_size + length seg ≤ receive_buffer_size) segs
    → IsTruePacket segs accepted bytes
    → length bytes ≤ receive_buffer_size
true_packet_fits segs accepted bytes fits (inl (i, w, lt, e)) =
    omega
      (arith, ap length e, length-data_packet w i (get_or segs i []), segment_fits segs i lt fits)
true_packet_fits segs accepted bytes fits (inr (w, e, all)) =
    omega (arith, ap length e, length-fin_packet w (length segs))

-- The numbers that the sender reads in the receiver's answers.
pub ack_number :
    (window k : ℕ) (d : Datagram)
    → window < 2 ^ 16
    → k < 2 ^ 32
    → d.bytes ≡ ack_packet window k
    → (deserialize_header (received ack_buffer_size d)).ack_num ≡ cumulative_ack_num k
unfolding set_flag
ack_number window k d hw hk e =
    let whole : received ack_buffer_size d ≡ ack_packet window k =
      received_whole _ d (omega (arith, ap length e, length-ack_packet window k)) ∙ e in
    let reads = ack_packet-Reads window k hw hk in rw whole reads.ack_num

pub fin_ack_number :
    (window seq : ℕ) (d : Datagram)
    → window < 2 ^ 16
    → seq < 2 ^ 32
    → d.bytes ≡ fin_ack_packet window seq
    → (deserialize_header (received ack_buffer_size d)).ack_num ≡ seq
unfolding set_flag
fin_ack_number window seq d hw hs e =
    let whole : received ack_buffer_size d ≡ fin_ack_packet window seq =
      received_whole _ d (omega (arith, ap length e, length-fin_ack_packet window seq)) ∙ e in
    let reads = fin_ack_packet-Reads window seq hw hs in rw whole reads.ack_num

module _ (window : ℕ) (segs : List (List ℕ)) (accepted : ℕ) where
  pub true_reply :
      {channel : List (List ℕ)} {reply : Option Datagram}
      → window < 2 ^ 16
      → length segs < 2 ^ 32
      → accepted ≤ length segs
      → All (IsAckPacket window segs accepted) channel
      → Delivery channel ack_buffer_size reply
      → IsTrueReply (length segs) accepted reply
  true_reply hw hs ha acks timed_out = tt
  true_reply hw hs ha acks (cut_off d short) = inl short
  true_reply hw hs ha acks (damaged d bad) = inr (inl bad)
  true_reply hw hs ha acks (arrived d i) = inr (inr (from_packet (All_at _ i acks)))
    where
      from_packet :
          IsAckPacket window segs accepted d.bytes
          → IsTrueAck
              (length segs)
              accepted
              (deserialize_header (received ack_buffer_size d)).ack_num
      from_packet (inl (k, le, e)) =
          rw (ack_number window k d hw (omega arith) e)
            (cumulative_ack_num-IsTrueAck (length segs) accepted k hs le)
      from_packet (inr e) = inl (omega (arith, fin_ack_number window (length segs) d hw hs e))

  pub true_incoming :
      {channel : List (List ℕ)} {incoming : Option Datagram}
      → All (λ seg. header_size + length seg ≤ receive_buffer_size) segs
      → All (IsTruePacket segs accepted) channel
      → Delivery channel receive_buffer_size incoming
      → IsTrueIncoming segs accepted incoming
  true_incoming fits packets timed_out = tt
  true_incoming fits packets (cut_off d short) = inl short
  true_incoming fits packets (damaged d bad) = inr (inl bad)
  true_incoming fits packets (arrived d i) =
      let p : IsTruePacket segs accepted d.bytes = All_at _ i packets in
      let whole : received receive_buffer_size d ≡ d.bytes =
        received_whole _ d (true_packet_fits segs accepted d.bytes fits p) in
      inr (inr (rw whole p))
