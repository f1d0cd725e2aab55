-- ===== src/Receiver/Rounds.antt =====
-- What the packets of the protocol are to the functions that read them, and what the receiver does
-- with each kind.
use hybrid_ftp.Base.{
  ℕ, ◌^◌, ◌<◌, ◌≡◌, refl, true, false, List, [], ◌∷◌, arith, ◌==◌, if◌then◌else◌, length,
}
use hybrid_ftp.Header.{
  CustomUdpHeader, IsValid, header_size, flag_data, flag_fin, set_flag, has_flag,
}
use hybrid_ftp.Header.Detection.{passes}
use hybrid_ftp.Header.Packet.{length-make_packet, Reads, make_packet-Reads}
use hybrid_ftp.Udp.{continue, return}
use hybrid_ftp.Receiver.{
  ReceiverState, cumulative_ack_num, ack_header, ack_packet, fin_ack_header, fin_ack_packet,
  send_cumulative_ack, accept_segment, receive_packet,
}

ack_header-IsValid :
    (ack window : ℕ) → ack < 2 ^ 32 → window < 2 ^ 16 → IsValid (ack_header ack window)
unfolding set_flag
ack_header-IsValid ack window ha hw = omega arith

fin_ack_header-IsValid :
    (seq window : ℕ) → seq < 2 ^ 32 → window < 2 ^ 16 → IsValid (fin_ack_header seq window)
unfolding set_flag
fin_ack_header-IsValid seq window hs hw = omega arith

pub length-ack_packet : (window expected : ℕ) → length (ack_packet window expected) ≡ header_size
length-ack_packet window expected = unfold ack_packet in length-make_packet _ []

pub length-fin_ack_packet : (window seq : ℕ) → length (fin_ack_packet window seq) ≡ header_size
length-fin_ack_packet window seq = unfold fin_ack_packet in length-make_packet _ []

pub cumulative_ack_num-lt :
    (expected : ℕ) → expected < 2 ^ 32 → cumulative_ack_num expected < 2 ^ 32
unfolding cumulative_ack_num
cumulative_ack_num-lt expected h = ground arith

pub ack_packet-Reads :
    (window expected : ℕ)
    → window < 2 ^ 16
    → expected < 2 ^ 32
    → Reads (ack_packet window expected) (ack_header (cumulative_ack_num expected) window) []
ack_packet-Reads window expected hw he =
    unfold ack_packet in
    make_packet-Reads _ [] (ack_header-IsValid _ window (cumulative_ack_num-lt expected he) hw)

pub fin_ack_packet-Reads :
    (window seq : ℕ)
    → window < 2 ^ 16
    → seq < 2 ^ 32
    → Reads (fin_ack_packet window seq) (fin_ack_header seq window) []
fin_ack_packet-Reads window seq hw hs =
    unfold fin_ack_packet in make_packet-Reads _ [] (fin_ack_header-IsValid seq window hs hw)

module _ (window : ℕ) (s : ReceiverState) where
  -- A packet that fails the check is answered by the ACK of what was accepted.
  pub receive_packet-damaged :
      (packet : List ℕ)
      → passes packet ≡ false
      → receive_packet window s packet ≡ continue s (send_cumulative_ack window s)
  unfolding receive_packet
  receive_packet-damaged packet bad = rw bad refl

  pub receive_packet-data :
      {packet : List ℕ} {h : CustomUdpHeader} {content : List ℕ}
      → Reads packet h content
      → h.flags ≡ flag_data
      → receive_packet window s packet ≡ (
          if h.seq_num == s.expected_seq
          then continue
              (accept_segment window s content)
              (send_cumulative_ack window (accept_segment window s content))
          else continue s (send_cumulative_ack window s))
  unfolding receive_packet has_flag
  receive_packet-data r flags = rw (r.passes, r.flags, flags, r.payload, r.seq_num) refl

  pub receive_packet-fin :
      {packet : List ℕ} {h : CustomUdpHeader} {content : List ℕ}
      → Reads packet h content
      → h.flags ≡ flag_fin
      → receive_packet window s packet
        ≡ return true s (record { bytes = fin_ack_packet window h.seq_num; peer = s.sender } ∷ [])
  unfolding receive_packet has_flag
  receive_packet-fin r flags = rw (r.passes, r.flags, flags, r.seq_num) refl
