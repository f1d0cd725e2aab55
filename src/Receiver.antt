-- ===== src/Receiver.antt =====
-- src/rdt/SlidingWindow.cpp, RDTWindowReceiver: the Go-Back-N receiver. Each round of its loop takes
-- what the cancellation callback says at its two calls, and what `recvFrom` returns.
pub mod Rounds
pub mod Accepts
pub mod Progress
use text.Mathlib.Text.{◌==◌ as str_eq}
use hybrid_ftp.Base.{
  ℕ, ◌+◌, ◌-◌, ◌%◌, ◌^◌, Bool, true, false, not, ◌||◌, Option, none, some, List, [], ◌∷◌, ◌++◌, ltb,
  ◌==◌, if◌then◌else◌, length, drop,
}
use hybrid_ftp.Header.{
  CustomUdpHeader, header_size, empty_header, flag_ack, flag_data, flag_fin, set_flag, has_flag,
  deserialize_header, verify_checksum, make_packet,
}
use hybrid_ftp.Udp.{
  Endpoint, Datagram, received, Outcome, continue, return, Phase, running, returned,
}

-- `recvBuf` of `receiveData`
abbrev pub receive_buffer_size : ℕ
receive_buffer_size = header_size + 1500 + 64

abbrev pub u32_max : ℕ
u32_max = 2 ^ 32 - 1

-- The fields of the object and the out-parameters of `receiveData`.
pub record ReceiverState : Type 0 where
  pub expected_seq : ℕ
  pub out_data : List ℕ
  pub sender : Endpoint

pub record ReceiveEvent : Type 0 where
  pub cancel_before : Bool
  -- `none`: `recvFrom` failed, or its time ran out
  pub incoming : Option Datagram
  pub cancel_after : Bool

-- `UINT32_MAX` while nothing was accepted.
unfoldable pub cumulative_ack_num : ℕ → ℕ
cumulative_ack_num expected = if expected == 0 then u32_max else expected - 1

abbrev pub ack_header : ℕ → ℕ → CustomUdpHeader
ack_header ack window =
    set_flag (record empty_header { ack_num = ack; window_size = window }) flag_ack

unfoldable pub ack_packet : ℕ → ℕ → List ℕ
ack_packet window expected = make_packet (ack_header (cumulative_ack_num expected) window) []

abbrev pub fin_ack_header : ℕ → ℕ → CustomUdpHeader
fin_ack_header seq window =
    set_flag (set_flag (record empty_header { ack_num = seq; window_size = window }) flag_fin)
      flag_ack

unfoldable pub fin_ack_packet : ℕ → ℕ → List ℕ
fin_ack_packet window seq = make_packet (fin_ack_header seq window) []

-- Nothing is sent before a sender is known.
unfoldable pub send_cumulative_ack : ℕ → ReceiverState → List Datagram
send_cumulative_ack window s =
    if str_eq s.sender.ip "" || s.sender.port == 0
    then []
    else record { bytes = ack_packet window s.expected_seq; peer = s.sender } ∷ []

-- A data segment in its turn.
pub accept_segment : ℕ → ReceiverState → List ℕ → ReceiverState
accept_segment window s payload = record s {
  out_data = s.out_data ++ payload;
  expected_seq = (s.expected_seq + 1) % 2 ^ 32;
}

-- The round from `deserializeHeader` on.
unfoldable pub receive_packet : ℕ → ReceiverState → List ℕ → Outcome ReceiverState
unfolding accept_segment
receive_packet window s packet =
    let h = deserialize_header packet in
    let payload = drop header_size packet in
    let s' = accept_segment window s payload in
    if not (verify_checksum h payload)
    then continue s (send_cumulative_ack window s)
    else if has_flag h flag_fin
    then return true s (record { bytes = fin_ack_packet window h.seq_num; peer = s.sender } ∷ [])
    else if not (has_flag h flag_data)
    then continue s []
    else if h.seq_num == s.expected_seq
    then continue s' (send_cumulative_ack window s')
    else continue s (send_cumulative_ack window s)

-- The round from `recvFrom` on. A failed `recvFrom` leaves the sender's endpoint as it was.
unfoldable pub receive_incoming : ℕ → ReceiverState → Bool → Option Datagram → Outcome ReceiverState
receive_incoming window s cancel none =
    if cancel then return false s [] else continue s (send_cumulative_ack window s)
receive_incoming window s cancel (some d) =
    let s' = record s { sender = d.peer } in
    let packet = received receive_buffer_size d in
    if cancel
    then return false s' []
    else if ltb (length packet) header_size
    then continue s' (send_cumulative_ack window s')
    else receive_packet window s' packet

unfoldable pub receive_round : ℕ → ReceiverState → ReceiveEvent → Outcome ReceiverState
receive_round window s e =
    if e.cancel_before
    then return false s []
    else receive_incoming window s e.cancel_after e.incoming

-- `receiveData` begins by clearing its output and counting from 0.
abbrev pub start_receiver : Endpoint → ReceiverState
start_receiver sender = record { expected_seq = 0; out_data = []; sender = sender }

-- `receiveData` on the inputs of its rounds, in order: `running` when it waits for more of them.
unfoldable pub receive_loop : ℕ → ReceiverState → List ReceiveEvent → ReceiverState × Phase
receive_loop window s [] = (s, running)
receive_loop window s (e ∷ es) = elim (receive_round window s e) [
  | continue s' sent ↦ receive_loop window s' es
  | return result s' sent ↦ (s', returned result)
]
