-- ===== src/Examples/Programs.antt =====
-- The wrappers of the transfer, and the programs around it, at concrete inputs.
use hybrid_ftp.Base.{
  ℕ, String, ◌≡◌, refl, false, Option, none, some, List, [], ◌∷◌, arith, take, All,
}
use hybrid_ftp.Header.{
  set_flag, has_flag, serialize_header, deserialize_header, add_word, checksum_loop,
  internet_checksum, calculate_checksum, verify_checksum, make_packet,
}
use hybrid_ftp.Udp.{no_endpoint, Datagram, received}
use hybrid_ftp.Udp.Socket.{udp_socket, close_descriptor, open_socket, close_sock, close_socket}
use hybrid_ftp.Udp.Descriptors.{
  open_call, close_call, call_socket, call_all, OpensClosed, descriptors_returned,
}
use hybrid_ftp.Receiver.{
  receive_buffer_size, ReceiveEvent, cumulative_ack_num, ack_packet, send_cumulative_ack,
  receive_packet, receive_incoming, receive_round,
}
use hybrid_ftp.Sender.{
  ack_buffer_size, SenderConfig, SendEvent, segments_loop, at_least_one, segments, data_packet,
  segment_count, compute_effective_window, fill_window, timeout_round, handle_reply, send_round,
}
use hybrid_ftp.Sender.Run.{send_step}
use hybrid_ftp.Network.{
  In, here, timed_out, arrived, System, receiver_moves, sender_sends, sender_ends, at_once,
  meanwhile, sender_step, receiver_step, Reach, begin, next, initial,
}
use hybrid_ftp.Network.Runs.{Runs}
use hybrid_ftp.Network.Packets.{IsPacket, channels-ArePackets}
use hybrid_ftp.Rdt.{
  RdtSender, rdt_sender, rdt_receiver, OpenedFile, OutputFile, read_whole, window_settings,
}
use hybrid_ftp.Rdt.Stats.{set_mss}
use hybrid_ftp.Rdt.Files.{CopiesFile, file_copied}
use hybrid_ftp.Programs.{NumberText, DoubleText, argument_at, client_config, server_window}
use hybrid_ftp.Programs.Copy.{CopiesBetween, programs_copy}
use hybrid_ftp.Examples.Transfer.{whole_numbers, client, server}
use hybrid_ftp.Examples.Upload.{pieces, ack_event, got_event}

-- One byte, from a sender with its default settings but for the MSS.
abbrev own_sender : RdtSender ℕ
own_sender = set_mss (rdt_sender ⦃f = whole_numbers⦄ server) 2

abbrev note_file : Option OpenedFile
note_file = some (record { file_size = 1; content_read = some (7 ∷ []) })

abbrev own_settings : SenderConfig ℕ
own_settings = window_settings ⦃f = whole_numbers⦄ own_sender

abbrev wrapped : System ℕ
wrapped = initial ⦃f = whole_numbers⦄ own_settings 8 pieces no_endpoint

-- Its only segment, and the ACK.
abbrev only_segment : Datagram
only_segment = record { bytes = data_packet 1 0 (7 ∷ []); peer = client }

abbrev only_ack : Datagram
only_ack = record { bytes = ack_packet 8 1; peer = server }

abbrev segment_sent : System ℕ
segment_sent = sender_sends ⦃f = whole_numbers⦄ own_settings 8 pieces wrapped (ack_event only_ack)

abbrev segment_taken : System ℕ
segment_taken = receiver_moves 8 segment_sent (got_event only_segment)

abbrev segment_done : System ℕ
segment_done =
    sender_ends ⦃f = whole_numbers⦄ own_settings 8 pieces segment_taken (ack_event only_ack)

only_segment-In : In only_segment.bytes segment_sent.data_channel
unfolding sender_sends send_step send_round fill_window segment_count compute_effective_window
    window_settings set_mss rdt_sender handle_reply timeout_round
only_segment-In = here

only_ack-In : In only_ack.bytes segment_taken.ack_channel
unfolding sender_sends sender_ends receiver_moves send_step send_round fill_window segment_count
    compute_effective_window window_settings set_mss rdt_sender handle_reply timeout_round
    receive_round receive_incoming receive_packet make_packet received data_packet serialize_header
    verify_checksum deserialize_header calculate_checksum internet_checksum checksum_loop add_word
    set_flag has_flag send_cumulative_ack ack_packet cumulative_ack_num
only_ack-In = here

Reach-segment_done : Reach own_settings 8 pieces wrapped segment_done
Reach-segment_done = next begin (
    sender_step wrapped (ack_event only_ack)
      (meanwhile at_once (got_event only_segment) (arrived only_segment only_segment-In))
      (arrived only_ack only_ack-In))

note_file-read : read_whole note_file ≡ some (7 ∷ [])
unfolding read_whole
note_file-read = refl

note-cut : segments own_sender.mss (7 ∷ []) ≡ some pieces
unfolding set_mss rdt_sender segments segments_loop at_least_one
note-cut = refl

own_sender-mss : own_sender.mss ≡ 2
unfolding set_mss rdt_sender
own_sender-mss = refl

own_settings-mss : own_settings.mss ≡ 2
unfolding set_mss rdt_sender window_settings
own_settings-mss = refl

own_settings-cut : segments own_settings.mss (7 ∷ []) ≡ some pieces
unfolding set_mss rdt_sender window_settings segments segments_loop at_least_one
own_settings-cut = refl

file_copied_example :
    (sends : List SendEvent) × (receives : List ReceiveEvent) × Runs own_settings 8 pieces
      no_endpoint segment_done sends receives
    × CopiesFile own_sender
        (record rdt_receiver { adv_window = 8 })
        note_file
        (7 ∷ [])
        sends
        receives
file_copied_example =
    file_copied own_sender (record rdt_receiver { adv_window = 8 }) note_file (7 ∷ []) pieces
      segment_done note_file-read (omega (arith, own_sender-mss)) (omega (arith, own_sender-mss))
      note-cut (omega arith) (omega arith) Reach-segment_done

channels-ArePackets_example :
    All (IsPacket receive_buffer_size) segment_done.data_channel
    × All (IsPacket ack_buffer_size) segment_done.ack_channel
channels-ArePackets_example =
    channels-ArePackets own_settings 8 (7 ∷ []) pieces no_endpoint segment_done (omega arith)
      (omega (arith, own_settings-mss)) (omega (arith, own_settings-mss)) own_settings-cut
      (omega arith) (omega arith) Reach-segment_done

-- An object that is opened, closed and opened again, where the system refuses the second time.
opened_twice :
    OpensClosed (udp_socket (3 ∷ 4 ∷ [])) (open_call (some 5) ∷ close_call ∷ open_call none ∷ [])
unfolding OpensClosed call_socket open_socket close_socket close_sock close_descriptor udp_socket
opened_twice = (refl, (refl, tt))

descriptors_returned_example :
    close_socket
      (call_all (udp_socket (3 ∷ 4 ∷ [])) (open_call (some 5) ∷ close_call ∷ open_call none ∷ []))
    ≡ udp_socket (3 ∷ 4 ∷ [])
descriptors_returned_example =
    descriptors_returned (3 ∷ 4 ∷ []) (open_call (some 5) ∷ close_call ∷ open_call none ∷ [])
      opened_twice

-- The programs with no arguments, where every text stands for one number.
instance abbrev pub fixed_numbers : NumberText
fixed_numbers = record { to_u16 = λ t. 9001; to_size = λ t. 2; to_u32 = λ t. 32 }

instance abbrev pub fixed_doubles : DoubleText ℕ
fixed_doubles = record { to_double = λ t. 1 }

abbrev own_files : String → Option OpenedFile
own_files path = note_file

-- Each file can be opened, and keeps four bytes at most.
abbrev own_outputs : String → Option OutputFile
own_outputs path = some (λ bytes. take 4 bytes)

abbrev program_settings : SenderConfig ℕ
program_settings = client_config ⦃f = whole_numbers⦄ ⦃t = fixed_numbers⦄ ⦃w = fixed_doubles⦄ []

abbrev program_window : ℕ
program_window = server_window ⦃t = fixed_numbers⦄ []

program_settings-mss : program_settings.mss ≡ 1024
unfolding client_config argument_at
program_settings-mss = refl

program_settings-cut : segments program_settings.mss (7 ∷ []) ≡ some pieces
unfolding client_config argument_at segments segments_loop at_least_one
program_settings-cut = refl

program_window-value : program_window ≡ 8
unfolding server_window argument_at
program_window-value = refl

abbrev programs_start : System ℕ
programs_start = initial ⦃f = whole_numbers⦄ program_settings program_window pieces no_endpoint

abbrev nothing_yet : ReceiveEvent
nothing_yet = record { cancel_before = false; incoming = none; cancel_after = false }

programs_copy_example :
    (sends : List SendEvent) × (receives : List ReceiveEvent) × Runs program_settings program_window
      pieces no_endpoint
      (receiver_moves program_window programs_start nothing_yet)
      sends
      receives
    × CopiesBetween ℕ [] [] own_files own_outputs (7 ∷ []) sends receives
programs_copy_example =
    programs_copy ℕ [] [] own_files own_outputs (7 ∷ []) pieces
      (receiver_moves program_window programs_start nothing_yet) note_file-read
      (omega (arith, program_settings-mss)) (omega (arith, program_settings-mss))
      program_settings-cut (omega arith) (omega (arith, program_window-value))
      (next begin (receiver_step programs_start nothing_yet timed_out))
