-- ===== src/Header/Packet.antt =====
-- What a reader finds in a packet that a sender has made.
use hybrid_ftp.Base.{ℕ, ◌+◌, ◌≡◌, ap, true, List, arith, length, drop, length-append}
use hybrid_ftp.Header.{
  CustomUdpHeader, IsValid, header_size, serialize_header, deserialize_header, calculate_checksum,
  verify_checksum, make_packet,
}
use hybrid_ftp.Header.Wire.{length-serialize_header}
use hybrid_ftp.Header.Checksum.{verify-make_packet}

pub length-make_packet :
    (h : CustomUdpHeader) (content : List ℕ)
    → length (make_packet h content) ≡ header_size + length content
unfolding make_packet
length-make_packet h content =
    let stamped : CustomUdpHeader = record h { checksum = calculate_checksum h content } in
    omega (arith, length-append (serialize_header stamped) content, length-serialize_header stamped)

pub record Reads (packet : List ℕ) (h : CustomUdpHeader) (content : List ℕ) : Type 0 where
  pub seq_num : (deserialize_header packet).seq_num ≡ h.seq_num
  pub ack_num : (deserialize_header packet).ack_num ≡ h.ack_num
  pub window_size : (deserialize_header packet).window_size ≡ h.window_size
  pub flags : (deserialize_header packet).flags ≡ h.flags
  pub payload : drop header_size packet ≡ content
  pub passes : verify_checksum (deserialize_header packet) (drop header_size packet) ≡ true

pub make_packet-Reads :
    (h : CustomUdpHeader) (content : List ℕ) → IsValid h → Reads (make_packet h content) h content
make_packet-Reads h content v =
    let (back, behind, passed) = verify-make_packet h content v in
    record {
      seq_num = ap (λ (k : CustomUdpHeader). k.seq_num) back;
      ack_num = ap (λ (k : CustomUdpHeader). k.ack_num) back;
      window_size = ap (λ (k : CustomUdpHeader). k.window_size) back;
      flags = ap (λ (k : CustomUdpHeader). k.flags) back;
      payload = behind;
      passes = rw behind passed;
    }
