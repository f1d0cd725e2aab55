-- ===== src/StopWait.antt =====
-- src/rdt/ReliableTransfer.cpp: `RDTSender::sendPacket` and `RDTReceiver::receivePacket`, which send
-- and receive one packet at a time.
pub mod Repeats
use hybrid_ftp.Base.{
  ℕ, ◌+◌, ◌%◌, ◌^◌, Bool, true, false, not, ◌&&◌, Option, none, some, List, [], ◌∷◌, ltb, leb, ◌==◌,
  if◌then◌else◌, length, drop,
}
use hybrid_ftp.Header.{
  header_size, empty_header, flag_ack, flag_data, set_flag, has_flag, deserialize_header,
  verify_checksum, make_packet,
}
use hybrid_ftp.Udp.{Datagram, received}
use hybrid_ftp.Receiver.{u32_max, ack_header}

-- `ackBuf` of `sendPacket` and `recvBuf` of `receivePacket`
abbrev pub wait_ack_size : ℕ
wait_ack_size = header_size + 64

abbrev pub wait_buffer_size : ℕ
wait_buffer_size = header_size + 4096

-- The packet of `sendPacket`: sequence number 0 and window 1.
pub wait_packet : List ℕ → List ℕ
wait_packet payload =
    make_packet
      (set_flag (record empty_header { payload_len = length payload % 2 ^ 16; window_size = 1 })
        flag_data)
      payload

-- The tests on a reply.
pub is_wait_ack : Option Datagram → Bool
is_wait_ack none = false
is_wait_ack (some d) =
    let packet = received wait_ack_size d in
    let h = deserialize_header packet in
    leb header_size (length packet)
    && (has_flag h flag_ack && (h.ack_num == 0 && verify_checksum h (drop header_size packet)))

-- One attempt: whether `sendTo` succeeds, and what `recvFrom` returns behind it.
pub record Attempt : Type 0 where
  pub sends : Bool
  pub reply : Option Datagram

-- The loop from an attempt on, with the retries so far; the list holds all the attempts that are left.
pub send_packet_loop : ℕ → ℕ → List Attempt → Bool × ℕ
unfolding is_wait_ack
send_packet_loop attempt retries [] = (false, retries)
send_packet_loop attempt retries (a ∷ rest) =
    let unsent = send_packet_loop (attempt + 1) attempt rest in
    let unanswered = send_packet_loop (attempt + 1) (attempt + 1) rest in
    if not a.sends then unsent else if is_wait_ack a.reply then (true, retries) else unanswered

-- `sendPacket`: what it returns, and `retryCount_`.
pub send_packet : List Attempt → Bool × ℕ
unfolding send_packet_loop
send_packet attempts = send_packet_loop 0 0 attempts

pub record WaitReceiver : Type 0 where
  pub expected_seq : ℕ
  pub last_ack_sent : ℕ

pub wait_start : WaitReceiver
wait_start = record { expected_seq = 0; last_ack_sent = u32_max }

-- `sendRawAck`
pub raw_ack : ℕ → ℕ → Datagram → Datagram
raw_ack ack window d = record { bytes = make_packet (ack_header ack window) []; peer = d.peer }

-- What `receivePacket` returns, the data it assigns, the receiver behind it and what it sends.
pub record WaitReceived : Type 0 where
  pub result : Bool
  pub data_out : Option (List ℕ)
  pub state : WaitReceiver
  pub acks : List Datagram

pub receive_datagram : ℕ → WaitReceiver → Option Datagram → WaitReceived
unfolding raw_ack
receive_datagram window s none = record { result = false; data_out = none; state = s; acks = [] }
receive_datagram window s (some d) =
    let packet = received wait_buffer_size d in
    let h = deserialize_header packet in
    let payload = drop header_size packet in
    if ltb (length packet) header_size
    then record { result = false; data_out = none; state = s; acks = [] }
    else if not (verify_checksum h payload)
    then record { result = false; data_out = none; state = s; acks = [] }
    else if h.seq_num == s.expected_seq
    then record {
      result = true;
      data_out = some payload;
      state = record { expected_seq = (s.expected_seq + 1) % 2 ^ 32; last_ack_sent = h.seq_num };
      acks = raw_ack h.seq_num window d ∷ [];
    }
    else record {
      result = false;
      data_out = none;
      state = s;
      acks = if s.last_ack_sent == u32_max then [] else raw_ack s.last_ack_sent window d ∷ [];
    }
