-- ===== src/Programs.antt =====
-- src/rdt/FileTransferClient.cpp and src/rdt/FileTransferServer.cpp: the two programs that send and
-- receive one file. Their sockets are taken to be created and bound. What they print is left out, but
-- for the sum of the bytes.
pub mod Sum
pub mod Copy
pub mod Entries
pub mod Commands
use hybrid_ftp.Base.{
  ℕ, ◌+◌, ◌%◌, ◌^◌, String, true, false, Option, none, some, List, [], ◌∷◌, get_elem?,
}
use hybrid_ftp.Udp.{no_endpoint, Phase, running, returned}
use hybrid_ftp.Receiver.{ReceiveEvent, start_receiver, receive_loop}
use hybrid_ftp.Double.{Double}
use hybrid_ftp.Sender.{SenderConfig, SendEvent, segments, start_sender}
use hybrid_ftp.Sender.Run.{SendPhase, sending, closing, sent_result, send_loop}
use hybrid_ftp.Rdt.{OpenedFile, OutputFile, read_whole}

-- What the C library makes of an argument: `atoi`, with the cast that follows, and `atof`.
pub record NumberText : Type 0 where
  pub to_u16 : String → ℕ
  pub to_size : String → ℕ
  pub to_u32 : String → ℕ

pub record DoubleText (D : Type 0) : Type 0 where
  pub to_double : String → D

-- The argument at a place, counted behind the program's name, in the place of a value.
unfoldable pub argument_at {ℓ} : {A : Type ℓ} → (String → A) → List String → ℕ → A → A
argument_at convert args i value = elim (get_elem? args i) [ none ↦ value | some t ↦ convert t ]

pub own_text : String → String
own_text t = t

-- `simpleSum`
pub sum_loop : ℕ → List ℕ → ℕ
sum_loop sum [] = sum
sum_loop sum (b ∷ bs) = sum_loop ((sum + b) % 2 ^ 32) bs

pub simple_sum : List ℕ → ℕ
unfolding sum_loop
simple_sum bytes = sum_loop 0 bytes

-- What a program comes to: its exit code, `none` while it runs, and the sum that it prints of the
-- bytes it has.
pub record ClientExit : Type 0 where
  pub exit_code : Option ℕ
  pub printed_sum : Option ℕ

pub client_file : List String → String
unfolding argument_at own_text
client_file args = argument_at own_text args 2 "test_send.bin"

pub exit_of : SendPhase → Option ℕ
exit_of sending = none
exit_of (closing left) = none
exit_of (sent_result true) = some 0
exit_of (sent_result false) = some 1

module _ {D : Type 0} ⦃f : Double D⦄ ⦃t : NumberText⦄ ⦃w : DoubleText D⦄ where
  -- The sender that the client's `main` sets up: its timeout is 500 ms, and it tries 20 rounds.
  unfoldable pub client_config : List String → SenderConfig D
  unfolding argument_at own_text
  client_config args = record {
    dest = record {
      ip = argument_at own_text args 0 "127.0.0.1";
      port = argument_at t.to_u16 args 1 9001;
    };
    mss = argument_at t.to_size args 3 1024;
    initial_cwnd = argument_at w.to_double args 4 f.one;
    initial_ssthresh = argument_at w.to_double args 5 (f.of_u32 8);
    max_window_segments = argument_at t.to_u32 args 6 32;
    max_retransmit_rounds = 20;
  }

  pub client_sends : SenderConfig D → Option (List (List ℕ)) → List ℕ → List SendEvent → ClientExit
  unfolding exit_of simple_sum
  client_sends cfg none content es = record {
    exit_code = none;
    printed_sum = some (simple_sum content);
  }
  client_sends cfg (some segs) content es = record {
    exit_code =
        exit_of
          (send_loop cfg segs (record { state = start_sender cfg; phase = sending }) es).phase;
    printed_sum = some (simple_sum content);
  }

  pub client_with : SenderConfig D → Option (List ℕ) → List SendEvent → ClientExit
  unfolding client_sends
  client_with cfg none es = record { exit_code = some 1; printed_sum = none }
  client_with cfg (some content) es = client_sends cfg (segments cfg.mss content) content es

-- The client's `main` on its arguments, the files that it may open, and the rounds of `sendData`; `D`
-- is the type of the doubles.
pub file_client :
    (D : Type 0) ⦃f : Double D⦄ ⦃t : NumberText⦄ ⦃w : DoubleText D⦄
    → List String
    → (String → Option OpenedFile)
    → List SendEvent
    → ClientExit
unfolding client_with client_config client_file
file_client D args files es =
    client_with (client_config {D = D} args) (read_whole (files (client_file args))) es

-- What the server comes to: its exit code, its output file with what it holds, and the sum that it
-- prints.
pub record ServerExit : Type 0 where
  pub exit_code : Option ℕ
  pub output : Option (String × List ℕ)
  pub printed_sum : Option ℕ

module _ ⦃t : NumberText⦄ where
  unfoldable pub receiver_port : List String → ℕ
  unfolding argument_at
  receiver_port args = argument_at t.to_u16 args 0 9001

  pub server_output : List String → String
  unfolding argument_at own_text
  server_output args = argument_at own_text args 1 "received_output.bin"

  unfoldable pub server_window : List String → ℕ
  unfolding argument_at
  server_window args = argument_at t.to_u16 args 2 8

-- Neither `write` nor `close` is asked whether it went well.
pub server_received : String → Option OutputFile → List ℕ → Phase → ServerExit
unfolding simple_sum
server_received path opening buffer running = record {
  exit_code = none;
  output = none;
  printed_sum = none;
}
server_received path opening buffer (returned false) = record {
  exit_code = some 1;
  output = none;
  printed_sum = none;
}
server_received path none buffer (returned true) = record {
  exit_code = some 1;
  output = none;
  printed_sum = none;
}
server_received path (some keeps) buffer (returned true) = record {
  exit_code = some 0;
  output = some (path, keeps buffer);
  printed_sum = some (simple_sum buffer);
}

-- The server's `main` on its arguments, the files that it may open to write, and the rounds of
-- `receiveData`.
pub file_server :
    ⦃t : NumberText⦄ → List String → (String → Option OutputFile) → List ReceiveEvent → ServerExit
unfolding server_received server_output server_window
file_server args outputs es =
    let path = server_output args in
    let (s, phase) = receive_loop (server_window args) (start_receiver no_endpoint) es in
    server_received path (outputs path) s.out_data phase
