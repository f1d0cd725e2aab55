-- ===== src/Examples/Progress.antt =====
-- Transfers that go on to their end, and one that cannot, at concrete inputs.
use hybrid_ftp.Base.{ℕ, ◌+◌, ◌≤◌, ◌≡◌, refl, ◌≢◌, true, false, some, [], ◌∷◌, arith}
use hybrid_ftp.Header.{
  set_flag, has_flag, serialize_header, deserialize_header, add_word, checksum_loop,
  internet_checksum, calculate_checksum, verify_checksum, make_packet,
}
use hybrid_ftp.Udp.{Datagram, received}
use hybrid_ftp.Receiver.{
  ReceiveEvent, cumulative_ack_num, ack_packet, send_cumulative_ack, receive_packet,
  receive_incoming, receive_round,
}
use hybrid_ftp.Sender.{
  data_packet, segment_count, compute_effective_window, fill_window, timeout_round, handle_reply,
  send_round,
}
use hybrid_ftp.Sender.Run.{sending, sent_result, send_step}
use hybrid_ftp.Network.{
  In, here, there, timed_out, arrived, System, receiver_moves, sender_sends, sender_ends, at_once,
  meanwhile, sender_step, Reach, begin, next, initial,
}
use hybrid_ftp.Network.Windows.{IsDone}
use hybrid_ftp.Network.Liveness.{transfer_completes}
use hybrid_ftp.Network.Blocked.{lost_acks_block}
use hybrid_ftp.Examples.Transfer.{
  whole_numbers, client, config, content, cut, segments-cut, send_event, first_packet,
  receive_event,
}

abbrev at_start : System ℕ
at_start = initial ⦃f = whole_numbers⦄ config 64 cut client

transfer_completes_example :
    (last : System ℕ) × Reach config 64 cut at_start last
    × IsDone last
    × (last.receiver_state.out_data ≡ content)
transfer_completes_example =
    transfer_completes config 64 content cut client client at_start 0 (omega arith) (omega arith)
      segments-cut (omega arith) (omega arith) (omega arith) refl begin
      (record {
        phase_eq = refl;
        base_eq = refl;
        next_eq = refl;
        expected = refl;
        running_now = refl;
      })
      (omega arith)

-- Both segments are delivered and both ACKs are lost.
abbrev second_packet : Datagram
second_packet = record { bytes = data_packet 2 1 (13 ∷ []); peer = client }

abbrev second_event : ReceiveEvent
second_event = record { cancel_before = false; incoming = some second_packet; cancel_after = false }

abbrev both_sent : System ℕ
both_sent = sender_sends ⦃f = whole_numbers⦄ config 64 cut at_start send_event

abbrev one_accepted : System ℕ
one_accepted = receiver_moves 64 both_sent receive_event

abbrev both_accepted : System ℕ
both_accepted = receiver_moves 64 one_accepted second_event

abbrev gone_back : System ℕ
gone_back = sender_ends ⦃f = whole_numbers⦄ config 64 cut both_accepted send_event

first-In : In first_packet.bytes both_sent.data_channel
unfolding sender_sends send_step send_round fill_window segment_count compute_effective_window
    handle_reply timeout_round
first-In = here

second-In : In second_packet.bytes one_accepted.data_channel
unfolding sender_sends sender_ends receiver_moves send_step send_round fill_window segment_count
    compute_effective_window handle_reply timeout_round receive_round receive_incoming
    receive_packet make_packet received data_packet serialize_header verify_checksum
    deserialize_header calculate_checksum internet_checksum checksum_loop add_word set_flag has_flag
    send_cumulative_ack ack_packet cumulative_ack_num
second-In = there here

Reach-gone_back : Reach config 64 cut at_start gone_back
Reach-gone_back = next begin (
    sender_step at_start send_event
      (meanwhile (meanwhile at_once receive_event (arrived first_packet first-In)) second_event
        (arrived second_packet second-In))
      timed_out)

gone_back-sending : gone_back.sender_run.phase ≡ sending
unfolding sender_sends sender_ends receiver_moves send_step send_round fill_window segment_count
    compute_effective_window handle_reply timeout_round receive_round receive_incoming
    receive_packet make_packet received data_packet serialize_header verify_checksum
    deserialize_header calculate_checksum internet_checksum checksum_loop add_word set_flag has_flag
    send_cumulative_ack ack_packet cumulative_ack_num
gone_back-sending = refl

gone_back-cwnd : gone_back.sender_run.state.cwnd ≡ 1
unfolding sender_sends sender_ends receiver_moves send_step send_round fill_window segment_count
    compute_effective_window handle_reply timeout_round receive_round receive_incoming
    receive_packet make_packet received data_packet serialize_header verify_checksum
    deserialize_header calculate_checksum internet_checksum checksum_loop add_word set_flag has_flag
    send_cumulative_ack ack_packet cumulative_ack_num
gone_back-cwnd = refl

gone_back-back : gone_back.sender_run.state.next_seq ≡ gone_back.sender_run.state.base
unfolding sender_sends sender_ends receiver_moves send_step send_round fill_window segment_count
    compute_effective_window handle_reply timeout_round receive_round receive_incoming
    receive_packet make_packet received data_packet serialize_header verify_checksum
    deserialize_header calculate_checksum internet_checksum checksum_loop add_word set_flag has_flag
    send_cumulative_ack ack_packet cumulative_ack_num
gone_back-back = refl

gone_back-far : gone_back.sender_run.state.base + 2 ≤ gone_back.receiver_state.expected_seq
unfolding sender_sends sender_ends receiver_moves send_step send_round fill_window segment_count
    compute_effective_window handle_reply timeout_round receive_round receive_incoming
    receive_packet make_packet received data_packet serialize_header verify_checksum
    deserialize_header calculate_checksum internet_checksum checksum_loop add_word set_flag has_flag
    send_cumulative_ack ack_packet cumulative_ack_num
gone_back-far = omega arith

abbrev acks_lost : System ℕ
acks_lost = record gone_back { ack_channel = [] }

lost_acks_block_example :
    (acks_lost.sender_run.state.base ≡ gone_back.sender_run.state.base)
    × (acks_lost.sender_run.phase ≢ sent_result true)
lost_acks_block_example =
    lost_acks_block config 64 content cut client gone_back acks_lost (omega arith) (omega arith)
      segments-cut (omega arith) (omega arith) refl Reach-gone_back gone_back-sending gone_back-cwnd
      gone_back-back gone_back-far begin
