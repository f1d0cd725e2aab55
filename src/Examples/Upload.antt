-- ===== src/Examples/Upload.antt =====
-- An upload at a concrete input, from the client's sender to the server's store, and a free name.
use hybrid_ftp.Base.{ℕ, ◌≤◌, ◌≡◌, refl, true, false, some, List, [], ◌∷◌, arith}
use hybrid_ftp.Codec.{encode}
use hybrid_ftp.Header.{
  set_flag, has_flag, serialize_header, deserialize_header, add_word, checksum_loop,
  internet_checksum, calculate_checksum, verify_checksum, make_packet,
}
use hybrid_ftp.Udp.{Datagram, received, returned}
use hybrid_ftp.Receiver.{
  ReceiveEvent, cumulative_ack_num, ack_packet, fin_ack_packet, send_cumulative_ack, receive_packet,
  receive_incoming, receive_round,
}
use hybrid_ftp.Sender.{
  SendEvent, segments_loop, at_least_one, segments, data_packet, fin_packet, segment_count,
  compute_effective_window, fill_window, timeout_round, grow_cwnd, process_ack, handle_reply,
  send_round,
}
use hybrid_ftp.Sender.Run.{fin_round, send_step}
use hybrid_ftp.Network.{
  In, here, arrived, System, receiver_moves, sender_sends, sender_ends, at_once, meanwhile,
  sender_step, Reach, begin, next, initial,
}
use hybrid_ftp.Text.{text}
use hybrid_ftp.Path.{same_path, is_path_inside_root}
use hybrid_ftp.Path.Unique.{candidate, is_taken, generate_unique_filename}
use hybrid_ftp.Path.FreeName.{IsFirstFree, generate_unique_lem}
use hybrid_ftp.Session.{mode_passive, SessionState, CommandEvent}
use hybrid_ftp.Session.Upload.{stor_command}
use hybrid_ftp.EndToEnd.{IsStored, upload_stores}
use hybrid_ftp.Examples.Transfer.{whole_numbers, client, server, config}
use hybrid_ftp.Examples.Storage.{directories, store, manager, event, ready}

abbrev pub note : List ℕ
note = 7 ∷ []

abbrev pub pieces : List (List ℕ)
pieces = (7 ∷ []) ∷ []

abbrev pub ack_event : Datagram → SendEvent
ack_event d = record {
  cancel_before = false;
  sends = λ n. true;
  cancel_after = false;
  reply = some d;
}

abbrev pub got_event : Datagram → ReceiveEvent
got_event d = record { cancel_before = false; incoming = some d; cancel_after = false }

-- The only segment, its ACK and the FIN.
abbrev pub segment : Datagram
segment = record { bytes = data_packet 2 0 (7 ∷ []); peer = client }

abbrev pub ack : Datagram
ack = record { bytes = ack_packet 64 1; peer = server }

abbrev pub fin : Datagram
fin = record { bytes = fin_packet 3 1; peer = client }

abbrev pub start : System ℕ
start = initial ⦃f = whole_numbers⦄ config 64 pieces client

abbrev pub fin_ack : Datagram
fin_ack = record { bytes = fin_ack_packet 64 1; peer = server }

-- Two rounds of the sender, each fin_answered by the receiver before it ends.
abbrev pub sent_once : System ℕ
sent_once = sender_sends ⦃f = whole_numbers⦄ config 64 pieces start (ack_event ack)

abbrev pub accepted : System ℕ
accepted = receiver_moves 64 sent_once (got_event segment)

abbrev pub acknowledged : System ℕ
acknowledged = sender_ends ⦃f = whole_numbers⦄ config 64 pieces accepted (ack_event ack)

abbrev pub closed_by : System ℕ
closed_by = sender_sends ⦃f = whole_numbers⦄ config 64 pieces acknowledged (ack_event fin_ack)

abbrev pub fin_answered : System ℕ
fin_answered = receiver_moves 64 closed_by (got_event fin)

abbrev pub finished : System ℕ
finished = sender_ends ⦃f = whole_numbers⦄ config 64 pieces fin_answered (ack_event fin_ack)

segment-In : In segment.bytes sent_once.data_channel
unfolding sender_sends send_step send_round fill_window segment_count compute_effective_window
    handle_reply timeout_round
segment-In = here

pub finished-returned : finished.receiver_phase ≡ returned true
unfolding sender_sends sender_ends receiver_moves send_step send_round fill_window segment_count
    compute_effective_window handle_reply timeout_round receive_round receive_incoming
    receive_packet make_packet fin_packet received data_packet serialize_header verify_checksum
    deserialize_header calculate_checksum internet_checksum checksum_loop add_word set_flag has_flag
finished-returned = refl

ack-In : In ack.bytes accepted.ack_channel
unfolding sender_sends sender_ends receiver_moves send_step send_round fill_window segment_count
    compute_effective_window handle_reply timeout_round receive_round receive_incoming
    receive_packet make_packet fin_packet received data_packet serialize_header verify_checksum
    deserialize_header calculate_checksum internet_checksum checksum_loop add_word set_flag has_flag
    send_cumulative_ack
ack-In = here

fin-In : In fin.bytes closed_by.data_channel
unfolding sender_sends sender_ends receiver_moves send_step send_round fill_window segment_count
    compute_effective_window handle_reply timeout_round receive_round receive_incoming
    receive_packet make_packet fin_packet received data_packet serialize_header verify_checksum
    deserialize_header calculate_checksum internet_checksum checksum_loop add_word set_flag has_flag
    ack_packet process_ack grow_cwnd cumulative_ack_num fin_round
fin-In = here

fin_ack-In : In fin_ack.bytes fin_answered.ack_channel
unfolding sender_sends sender_ends receiver_moves send_step send_round fill_window segment_count
    compute_effective_window handle_reply timeout_round receive_round receive_incoming
    receive_packet make_packet fin_packet received data_packet serialize_header verify_checksum
    deserialize_header calculate_checksum internet_checksum checksum_loop add_word set_flag has_flag
    ack_packet process_ack grow_cwnd cumulative_ack_num fin_round
fin_ack-In = here

pub Reach-finished : Reach config 64 pieces start finished
Reach-finished =
    next
      (next begin (
        sender_step start (ack_event ack)
          (meanwhile at_once (got_event segment) (arrived segment segment-In))
          (arrived ack ack-In)))
      (sender_step acknowledged (ack_event fin_ack)
        (meanwhile at_once (got_event fin) (arrived fin fin-In)) (arrived fin_ack fin_ack-In))

-- The session behind PASV, and what the system answers to its STOR.
abbrev pub listening : SessionState
listening = record ready { data_mode = mode_passive; passive_socket = some 40000 }

abbrev arrival : CommandEvent
arrival = record event { uploaded = some finished.receiver_state.out_data }

pub segments-note : segments 2 (encode note listening.transfer_mode) ≡ some pieces
unfolding segments segments_loop at_least_one encode
segments-note = refl

pub note-inside : is_path_inside_root listening.path_manager (text "note") ≡ true
unfolding is_path_inside_root
note-inside = refl

upload_stores_example :
    IsStored ⦃fs = directories⦄ arrival store listening
      (text "note")
      note
      false
      (stor_command arrival store listening false (text "note"))
upload_stores_example =
    upload_stores config 64 note pieces client finished arrival store listening 110 (text "ote")
      false 40000 (omega arith) (omega arith) segments-note (omega arith) (omega arith)
      Reach-finished finished-returned refl refl refl note-inside

-- "docs" is taken and the name behind it is not.
second_free : is_taken store manager (text "docs") (candidate (text "docs") 1) ≡ false
unfolding is_taken candidate same_path
second_free = refl

generate_unique_lem_example :
    (j : ℕ) × (j ≤ 1)
    × (generate_unique_filename store manager (text "docs") 10 ≡ some (candidate (text "docs") j))
    × IsFirstFree store manager (text "docs") 0 j
generate_unique_lem_example =
    generate_unique_lem store manager (text "docs") 10 1 (omega arith) second_free
