-- ===== src/Network/Packets.antt =====
-- What stands on the network in a transfer of src/rdt/SlidingWindow.cpp: packets in the form that
-- src/rdt/CustomUDPHeader.h gives them.
use mathlib.Core.List.{flatten}
use hybrid_ftp.Base.{
  ℕ, zero, suc, ◌+◌, ◌^◌, ◌≤◌, ◌<◌, ◌≡◌, inl, inr, true, some, List, [], ◌∷◌, arith, IsByte, length,
  get_or, All, All-append, All-append_parts, All-map,
}
use hybrid_ftp.Header.{
  CustomUdpHeader, header_size, set_flag, serialize_header, calculate_checksum, make_packet,
}
use hybrid_ftp.Header.Wire.{serialize_header-IsByte}
use hybrid_ftp.Header.Detection.{passes}
use hybrid_ftp.Udp.{Endpoint}
use hybrid_ftp.Receiver.{
  receive_buffer_size, cumulative_ack_num, ack_header, ack_packet, fin_ack_header, fin_ack_packet,
}
use hybrid_ftp.Receiver.Rounds.{
  length-ack_packet, length-fin_ack_packet, ack_packet-Reads, fin_ack_packet-Reads,
}
use hybrid_ftp.Double.{Double}
use hybrid_ftp.Sender.{
  ack_buffer_size, SenderConfig, segments, data_header, data_packet, fin_header, fin_packet,
}
use hybrid_ftp.Sender.Segments.{
  segments_lem, data_packet-Reads, length-data_packet, fin_packet-Reads, length-fin_packet,
}
use hybrid_ftp.Receiver.Accepts.{IsAckPacket, IsTruePacket}
use hybrid_ftp.Network.{System, Reach, initial}
use hybrid_ftp.Network.Arrivals.{segment_fits}
use hybrid_ftp.Network.Reliability.{Reach-IsSound, segments_fit}

-- A packet is bytes, has a whole header, fits a buffer, and passes the check of its reader.
pub record IsPacket (buffer_size : ℕ) (bytes : List ℕ) : Type 0 where
  pub are_bytes : All IsByte bytes
  pub has_header : header_size ≤ length bytes
  pub fits : length bytes ≤ buffer_size
  pub checked : passes bytes ≡ true

make_packet-bytes :
    (h : CustomUdpHeader) (content : List ℕ)
    → h.flags < 256
    → All IsByte content
    → All IsByte (make_packet h content)
unfolding make_packet
make_packet-bytes h content flags bytes =
    let stamped : CustomUdpHeader = record h { checksum = calculate_checksum h content } in
    All-append IsByte (serialize_header stamped) content (serialize_header-IsByte stamped flags)
      bytes

segment_bytes :
    (segs : List (List ℕ)) (i : ℕ) → All IsByte (flatten segs) → All IsByte (get_or segs i [])
unfolding flatten
segment_bytes [] i h = tt
segment_bytes (seg ∷ segs) zero h = (All-append_parts IsByte seg (flatten segs) h).0
segment_bytes (seg ∷ segs) (suc i) h =
    segment_bytes segs i (All-append_parts IsByte seg (flatten segs) h).1

module _ (window : ℕ) (segs : List (List ℕ)) (accepted : ℕ) (small : length segs < 2 ^ 32) where
  IsTruePacket-IsPacket :
      (bytes : List ℕ)
      → All IsByte (flatten segs)
      → All (λ seg. header_size + length seg ≤ receive_buffer_size) segs
      → IsTruePacket segs accepted bytes
      → IsPacket receive_buffer_size bytes
  unfolding set_flag
  IsTruePacket-IsPacket bytes content fits (inl (i, w, lt, e)) =
      let seg = get_or segs i [] in
      let size = length-data_packet w i seg in
      let room = segment_fits segs i lt fits in
      rw e (record {
        are_bytes =
            unfold data_packet in
            make_packet-bytes (data_header w i (length seg)) seg (omega arith)
              (segment_bytes segs i content);
        has_header = omega (arith, size);
        fits = omega (arith, size, room);
        checked = (data_packet-Reads w i seg (omega arith)).passes;
      })
  IsTruePacket-IsPacket bytes content fits (inr (w, e, _)) =
      let size = length-fin_packet w (length segs) in
      rw e (record {
        are_bytes =
            unfold fin_packet in make_packet-bytes (fin_header w (length segs)) [] (omega arith) tt;
        has_header = omega (arith, size);
        fits = omega (arith, size);
        checked = (fin_packet-Reads w (length segs) small).passes;
      })

  IsAckPacket-IsPacket :
      (bytes : List ℕ)
      → window < 2 ^ 16
      → accepted ≤ length segs
      → IsAckPacket window segs accepted bytes
      → IsPacket ack_buffer_size bytes
  unfolding set_flag
  IsAckPacket-IsPacket bytes hw le (inl (k, kle, e)) =
      let size = length-ack_packet window k in
      rw e (record {
        are_bytes =
            unfold ack_packet in
            make_packet-bytes (ack_header (cumulative_ack_num k) window) [] (omega arith) tt;
        has_header = omega (arith, size);
        fits = omega (arith, size);
        checked = (ack_packet-Reads window k hw (omega arith)).passes;
      })
  IsAckPacket-IsPacket bytes hw le (inr e) =
      let size = length-fin_ack_packet window (length segs) in
      rw e (record {
        are_bytes =
            unfold fin_ack_packet in
            make_packet-bytes (fin_ack_header (length segs) window) [] (omega arith) tt;
        has_header = omega (arith, size);
        fits = omega (arith, size);
        checked = (fin_ack_packet-Reads window (length segs) hw small).passes;
      })

-- What both ends send is well formed. If the data is bytes, cut by an MSS that is positive and fits the
-- receiver's buffer into fewer than 2 ^ 32 segments, then in every state that a transfer comes to, all
-- that the sender and the receiver have sent are packets: bytes with a whole header that fit the
-- buffer of the other end and pass its check.
pub channels-ArePackets :
    {D : Type 0} ⦃f : Double D⦄ (cfg : SenderConfig D) (window : ℕ) (content : List ℕ)
    (segs : List (List ℕ)) (peer : Endpoint) (sys : System D)
    → All IsByte content
    → 0 < cfg.mss
    → header_size + cfg.mss ≤ receive_buffer_size
    → segments cfg.mss content ≡ some segs
    → length segs < 2 ^ 32
    → window < 2 ^ 16
    → Reach cfg window segs (initial cfg window segs peer) sys
    → All (IsPacket receive_buffer_size) sys.data_channel
      × All (IsPacket ack_buffer_size) sys.ack_channel
channels-ArePackets cfg window content segs peer sys bytes pos fits cut small hw r =
    let (segs', found, joined, _, _) = segments_lem cfg.mss content pos in
    let same : segs' ≡ segs = cc (found, cut) in
    let in_buffer = segments_fit cfg.mss content segs pos fits cut in
    let sound = Reach-IsSound cfg window segs hw small in_buffer r in
    let joined' : flatten segs ≡ content = rw same at joined in
    let bytes' : All IsByte (flatten segs) = rw joined' bytes in
    let a = sys.receiver_state.expected_seq in
    (
      All-map (λ p. IsTruePacket-IsPacket window segs a small p bytes' in_buffer) sys.data_channel
          sound.packets,
      All-map (λ p. IsAckPacket-IsPacket window segs a small p hw sound.accepted.expected_le)
          sys.ack_channel sound.acks,
    )
