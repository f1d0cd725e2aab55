-- ===== src/StopWait/Repeats.antt =====
-- What two packets that are sent one after the other come to.
use hybrid_ftp.Base.{
  ℕ, ◌+◌, ◌%◌, ◌^◌, ◌≤◌, ◌<◌, ◌≡◌, refl, true, false, none, some, List, [], ◌∷◌, arith, ltb, leb,
  length, take, take_all,
}
use hybrid_ftp.Header.{header_size, empty_header, flag_data, set_flag, has_flag, make_packet}
use hybrid_ftp.Header.Packet.{length-make_packet, Reads, make_packet-Reads}
use hybrid_ftp.Udp.{Endpoint, Datagram, received}
use hybrid_ftp.Receiver.{ack_header}
use hybrid_ftp.StopWait.{
  wait_ack_size, wait_buffer_size, wait_packet, is_wait_ack, WaitReceiver, wait_start, raw_ack,
  receive_datagram,
}

wait_packet-Reads :
    (payload : List ℕ)
    → Reads
        (wait_packet payload)
        (set_flag
          (record empty_header { payload_len = length payload % 2 ^ 16; window_size = 1 })
          flag_data)
        payload
unfolding wait_packet
wait_packet-Reads payload = make_packet-Reads _ payload (unfold set_flag in omega arith)

length-wait_packet :
    (payload : List ℕ) → length (wait_packet payload) ≡ header_size + length payload
unfolding wait_packet
length-wait_packet payload = length-make_packet _ payload

-- The packet in the buffer of `receivePacket`.
whole_packet :
    (payload : List ℕ) (peer : Endpoint)
    → length payload ≤ 4096
    → received wait_buffer_size (record { bytes = wait_packet payload; peer = peer })
      ≡ wait_packet payload
unfolding received
whole_packet payload peer h =
    take_all wait_buffer_size (wait_packet payload) (omega (arith, length-wait_packet payload))

-- A packet on its way.
abbrev pub carried : List ℕ → Endpoint → Datagram
carried payload peer = record { bytes = wait_packet payload; peer = peer }

module _ (window : ℕ) (payload : List ℕ) (peer : Endpoint) (h : length payload ≤ 4096) where
  receive_first : receive_datagram window wait_start (some (carried payload peer)) ≡ record {
    result = true;
    data_out = some payload;
    state = record { expected_seq = 1; last_ack_sent = 0 };
    acks = raw_ack 0 window (carried payload peer) ∷ [];
  }
  unfolding receive_datagram wait_start set_flag
  receive_first =
      let r = wait_packet-Reads payload in
      let long : ltb (length (wait_packet payload)) header_size ≡ false =
        ground (arith, length-wait_packet payload) in
      rw (whole_packet payload peer h, long, r.passes, r.seq_num, r.payload) refl

  receive_second :
      receive_datagram window
        (record { expected_seq = 1; last_ack_sent = 0 })
        (some (carried payload peer))
      ≡ record {
        result = false;
        data_out = none;
        state = record { expected_seq = 1; last_ack_sent = 0 };
        acks = raw_ack 0 window (carried payload peer) ∷ [];
      }
  unfolding receive_datagram set_flag
  receive_second =
      let r = wait_packet-Reads payload in
      let long : ltb (length (wait_packet payload)) header_size ≡ false =
        ground (arith, length-wait_packet payload) in
      rw (whole_packet payload peer h, long, r.passes, r.seq_num) refl

-- The reply of `receivePacket` is one that `sendPacket` takes for its ACK.
raw_ack-is_wait_ack :
    (window : ℕ) (d : Datagram) (peer : Endpoint)
    → window < 2 ^ 16
    → is_wait_ack (some (record { bytes = (raw_ack 0 window d).bytes; peer = peer })) ≡ true
unfolding is_wait_ack raw_ack received set_flag has_flag
raw_ack-is_wait_ack window d peer hw =
    let packet : List ℕ = make_packet (ack_header 0 window) [] in
    let r : Reads packet (ack_header 0 window) [] = make_packet-Reads _ [] (omega arith) in
    let size : length packet ≡ header_size = length-make_packet (ack_header 0 window) [] in
    let whole : take wait_ack_size packet ≡ packet = take_all wait_ack_size packet (omega arith) in
    let long : leb header_size (length packet) ≡ true = ground arith in
    rw (whole, long, r.passes, r.flags, r.ack_num) refl

-- Two packets that `sendPacket` makes reach one receiver, one after the other: the data of the first
-- is handed over, the data of the second is not, since its sequence number is 0 again. Each is
-- answered by the same ACK, which `sendPacket` accepts, from whatever endpoint.
pub second_packet_lost :
    (window : ℕ) (first second : List ℕ) (peer from : Endpoint)
    → window < 2 ^ 16
    → length first ≤ 4096
    → length second ≤ 4096
    → (s : WaitReceiver) × (d : Datagram) × (receive_datagram window wait_start
          (some (carried first peer))
        ≡ record { result = true; data_out = some first; state = s; acks = d ∷ [] })
      × (receive_datagram window s (some (carried second peer))
          ≡ record { result = false; data_out = none; state = s; acks = d ∷ [] })
      × (is_wait_ack (some (record { bytes = d.bytes; peer = from })) ≡ true)
unfolding raw_ack
second_packet_lost window first second peer from hw h1 h2 = (
  record { expected_seq = 1; last_ack_sent = 0 },
  raw_ack 0 window (carried first peer),
  receive_first window first peer h1,
  receive_second window second peer h2,
  raw_ack-is_wait_ack window (carried first peer) from hw,
)
