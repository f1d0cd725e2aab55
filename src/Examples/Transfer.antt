-- ===== src/Examples/Transfer.antt =====
-- A transfer at concrete inputs, with natural numbers in the place of the doubles.
use mathlib.Core.List.{flatten}
use hybrid_ftp.Base.{
  ℕ, ◌+◌, ◌/◌, ◌%◌, ◌^◌, ◌≤◌, ◌<◌, min, max, ◌≡◌, refl, ◌↔◌, true, false, none, some, List, [], ◌∷◌,
  arith, ltb, length, All,
}
use hybrid_ftp.Udp.{Endpoint, Datagram}
use hybrid_ftp.Receiver.{ReceiveEvent}
use hybrid_ftp.StopWait.{is_wait_ack, WaitReceiver, wait_start, receive_datagram}
use hybrid_ftp.StopWait.Repeats.{carried, second_packet_lost}
use hybrid_ftp.Double.{Double}
use hybrid_ftp.Sender.{
  SenderConfig, SenderState, SendEvent, segments_loop, at_least_one, segments, data_packet,
  segment_count, start_sender, compute_effective_window, fill_window, timeout_round, handle_reply,
  send_round,
}
use hybrid_ftp.Sender.Run.{send_step}
use hybrid_ftp.Sender.Segments.{segments_lem, segments_loop_zero}
use hybrid_ftp.Sender.Window.{compute_effective_window_greatest, window_packets, fill_window_lem}
use hybrid_ftp.Network.{
  In, here, timed_out, arrived, System, receiver_moves, sender_sends, sender_ends, at_once,
  meanwhile, sender_step, Reach, begin, next, initial,
}
use hybrid_ftp.Network.Reliability.{Delivers, reliable_transfer}

instance abbrev pub whole_numbers : Double ℕ
whole_numbers = record {
  one = 1;
  two = 2;
  add = λ a b. a + b;
  divide = λ a b. a / b;
  larger = max;
  smaller = min;
  floor = λ a. a;
  less = ltb;
  to_u32 = λ a. a % 2 ^ 32;
  of_u32 = λ a. a;
}

abbrev pub client : Endpoint
client = record { ip = "10.0.0.1"; port = 4000 }

abbrev pub server : Endpoint
server = record { ip = "10.0.0.2"; port = 5000 }

abbrev pub config : SenderConfig ℕ
config = record {
  dest = server;
  mss = 2;
  initial_cwnd = 2;
  initial_ssthresh = 64;
  max_window_segments = 64;
  max_retransmit_rounds = 10;
}

abbrev pub content : List ℕ
content = 11 ∷ 12 ∷ 13 ∷ []

abbrev pub cut : List (List ℕ)
cut = (11 ∷ 12 ∷ []) ∷ (13 ∷ []) ∷ []

pub segments-cut : segments 2 content ≡ some cut
unfolding segments segments_loop at_least_one
segments-cut = refl

abbrev pub send_event : SendEvent
send_event = record { cancel_before = false; sends = λ n. true; cancel_after = false; reply = none }

-- The first segment, as the sender puts it on the network.
abbrev pub first_packet : Datagram
first_packet = record { bytes = data_packet 2 0 (11 ∷ 12 ∷ []); peer = client }

abbrev pub receive_event : ReceiveEvent
receive_event = record { cancel_before = false; incoming = some first_packet; cancel_after = false }

abbrev with_packet : System ℕ
with_packet = sender_sends config 64 cut (initial config 64 cut client) send_event

abbrev with_both : System ℕ
with_both = receiver_moves 64 with_packet receive_event

first_packet-In : In first_packet.bytes with_packet.data_channel
unfolding sender_sends send_step send_round fill_window segment_count compute_effective_window
    handle_reply timeout_round
first_packet-In = here

-- The round in which the receiver accepts the segment, and whose ACK is lost.
abbrev round_lost : System ℕ
round_lost = sender_ends config 64 cut with_both send_event

Reach-lost : Reach config 64 cut (initial config 64 cut client) round_lost
Reach-lost = next begin (
    sender_step (initial config 64 cut client) send_event
      (meanwhile at_once receive_event (arrived first_packet first_packet-In)) timed_out)

reliable_transfer_example : Delivers content round_lost
reliable_transfer_example =
    reliable_transfer config 64 content cut client round_lost (omega arith) (omega arith)
      segments-cut (omega arith) (omega arith) Reach-lost

segments_lem_example :
    (segs : List (List ℕ)) × (segments 2 content ≡ some segs)
    × (flatten segs ≡ content)
    × (0 < length segs)
    × All (λ seg. length seg ≤ 2) segs
segments_lem_example = segments_lem 2 content (omega arith)

segments_loop_zero_example : segments_loop 1000 0 (11 ∷ 12 ∷ []) ≡ none
segments_loop_zero_example = segments_loop_zero 1000 11 (12 ∷ [])

abbrev grown : SenderState ℕ
grown = record (start_sender config) { cwnd = 5; recv_window = 4 }

compute_effective_window_greatest_example :
    (1 ≤ compute_effective_window config grown)
    × (3 ≤ compute_effective_window config grown ↔ (3 ≤ 5) × (3 ≤ 4) × (3 ≤ 64))
compute_effective_window_greatest_example =
    compute_effective_window_greatest config grown 3 (omega arith)

fill_window_lem_example :
    ((fill_window config cut (λ n. true) 2 2 (start_sender config)).sent_all ≡ true)
    × ((fill_window config cut (λ n. true) 2 2 (start_sender config)).sent
        ≡ window_packets config cut 2 0 2)
    × ((fill_window config cut (λ n. true) 2 2 (start_sender config)).state.next_seq ≡ 2)
    × ((fill_window config cut (λ n. true) 2 2 (start_sender config)).state.base ≡ 0)
fill_window_lem_example =
    fill_window_lem config cut 2 2 2 (start_sender config) (omega arith) (omega arith) (omega arith)

second_packet_lost_example :
    (s : WaitReceiver) × (d : Datagram) × (receive_datagram 64 wait_start
        (some (carried (1 ∷ []) client))
      ≡ record { result = true; data_out = some (1 ∷ []); state = s; acks = d ∷ [] })
    × (receive_datagram 64 s (some (carried (2 ∷ []) client))
        ≡ record { result = false; data_out = none; state = s; acks = d ∷ [] })
    × (is_wait_ack (some (record { bytes = d.bytes; peer = server })) ≡ true)
second_packet_lost_example =
    second_packet_lost 64 (1 ∷ []) (2 ∷ []) client server (omega arith) (omega arith) (omega arith)
