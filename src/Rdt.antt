-- ===== src/Rdt.antt =====
-- src/rdt/ReliableTransfer.h and src/rdt/ReliableTransfer.cpp: the classes that the session and the
-- client use, `RDTSender` and `RDTReceiver`, with their settings, and what they hand to the sliding
-- window. A file is what the system gives when it is opened.
pub mod Files
pub mod Stats
use hybrid_ftp.Base.{ℕ, Bool, true, false, Option, none, some, List, [], ltb, if◌then◌else◌}
use hybrid_ftp.Udp.{Endpoint, no_endpoint, Phase, running, returned}
use hybrid_ftp.Receiver.{u32_max, ReceiveEvent, start_receiver, receive_loop}
use hybrid_ftp.Double.{Double}
use hybrid_ftp.Sender.{SenderConfig, SenderState, SendEvent, segments, start_sender}
use hybrid_ftp.Sender.Run.{SendPhase, sending, closing, sent_result, send_loop}

-- `RDT_CHUNK_SIZE`
abbrev pub rdt_chunk_size : ℕ
rdt_chunk_size = 1024

-- The fields of an `RDTSender`.
pub record RdtSender (D : Type 0) : Type 0 where
  pub dest : Endpoint
  pub mss : ℕ
  pub timeout_ms : ℕ
  pub max_retries : ℕ
  pub init_cwnd : D
  pub init_ssthresh : D
  pub max_win_segs : ℕ
  pub last_cwnd : D
  pub last_timeouts : ℕ
  pub last_segs_sent : ℕ
  pub retry_count : ℕ

-- The fields of an `RDTReceiver`.
pub record RdtReceiver : Type 0 where
  pub timeout_ms : ℕ
  pub adv_window : ℕ
  pub expected_seq : ℕ
  pub last_ack_sent : ℕ

-- The constructors, with the initial values of the fields.
unfoldable pub rdt_sender : {D : Type 0} ⦃f : Double D⦄ → Endpoint → RdtSender D
rdt_sender ⦃f⦄ dest = record {
  dest = dest;
  mss = rdt_chunk_size;
  timeout_ms = 500;
  max_retries = 16;
  init_cwnd = f.one;
  init_ssthresh = f.of_u32 8;
  max_win_segs = 32;
  last_cwnd = f.one;
  last_timeouts = 0;
  last_segs_sent = 0;
  retry_count = 0;
}

unfoldable pub rdt_receiver : RdtReceiver
rdt_receiver = record {
  timeout_ms = 5000;
  adv_window = 8;
  expected_seq = 0;
  last_ack_sent = u32_max;
}

-- What a call comes to: `none` while it has not returned.
pub record Called (S : Type 0) : Type 0 where
  pub result : Option Bool
  pub object : S

-- What the system gives when a file is opened: its size, and its bytes if reading them goes well.
pub record OpenedFile : Type 0 where
  pub file_size : ℕ
  pub content_read : Option (List ℕ)

-- A file that was opened to write: what it holds, once it is closed, of the bytes that are written to
-- it. A file that the system writes in full keeps them as they are, one on a full disk a part.
abbrev pub OutputFile : Type 0
OutputFile = List ℕ → List ℕ

-- A file read as a whole, where a file of no bytes is not read; `none`: it cannot be opened, or
-- reading it fails.
unfoldable pub read_whole : Option OpenedFile → Option (List ℕ)
read_whole none = none
read_whole (some file) = if ltb 0 file.file_size then file.content_read else some []

module _ {D : Type 0} ⦃f : Double D⦄ where
  -- The settings that `runWindowSender` hands on.
  unfoldable pub window_settings : RdtSender D → SenderConfig D
  window_settings o = record {
    dest = o.dest;
    mss = o.mss;
    initial_cwnd = o.init_cwnd;
    initial_ssthresh = o.init_ssthresh;
    max_window_segments = o.max_win_segs;
    max_retransmit_rounds = o.max_retries;
  }

  -- The statistics that it keeps once `sendData` has returned.
  pub save_stats : RdtSender D → SenderState D → RdtSender D
  save_stats o s = record o {
    last_cwnd = s.cwnd;
    last_timeouts = s.total_timeouts;
    last_segs_sent = s.total_packets_sent;
  }

  pub after_send_data : RdtSender D → SenderState D → SendPhase → Called (RdtSender D)
  unfolding save_stats
  after_send_data o s sending = record { result = none; object = o }
  after_send_data o s (closing left) = record { result = none; object = o }
  after_send_data o s (sent_result b) = record { result = some b; object = save_stats o s }

  -- `sendData` on segments that the loop over the data has cut.
  pub send_segments : RdtSender D → Option (List (List ℕ)) → List SendEvent → Called (RdtSender D)
  unfolding window_settings after_send_data
  send_segments o none es = record { result = none; object = o }
  send_segments o (some segs) es =
      let cfg = window_settings o in
      let run = send_loop cfg segs (record { state = start_sender cfg; phase = sending }) es in
      after_send_data o run.state run.phase

  pub run_window_sender : RdtSender D → List ℕ → List SendEvent → Called (RdtSender D)
  unfolding send_segments
  run_window_sender o content es = send_segments o (segments o.mss content) es

  unfoldable pub send_buffer : RdtSender D → List ℕ → List SendEvent → Called (RdtSender D)
  unfolding run_window_sender
  send_buffer o content es = run_window_sender o content es

  pub send_whole : RdtSender D → Option (List ℕ) → List SendEvent → Called (RdtSender D)
  unfolding run_window_sender
  send_whole o none es = record { result = some false; object = o }
  send_whole o (some content) es = run_window_sender o content es

  pub rdt_send_file : RdtSender D → Option OpenedFile → List SendEvent → Called (RdtSender D)
  unfolding send_whole read_whole
  rdt_send_file o file es = send_whole o (read_whole file) es

-- `receiveBuffer`: the buffer, and what is returned.
pub receive_buffer : RdtReceiver → List ReceiveEvent → List ℕ × Phase
receive_buffer r es =
    let (s, phase) = receive_loop r.adv_window (start_receiver no_endpoint) es in
    (s.out_data, phase)

-- What is returned, and what the output file holds, where it was opened.
pub record ReceivedFile : Type 0 where
  pub result : Option Bool
  pub stored : Option (List ℕ)

-- Neither `write` nor `close` is asked whether it went well.
pub write_received : List ℕ → Option OutputFile → Phase → ReceivedFile
write_received content opening running = record { result = none; stored = none }
write_received content opening (returned false) = record { result = some false; stored = none }
write_received content (some keeps) (returned true) = record {
  result = some true;
  stored = some (keeps content);
}
write_received content none (returned true) = record { result = some false; stored = none }

-- `receiveFile`; the output file is `none` where it cannot be opened.
pub rdt_receive_file : RdtReceiver → Option OutputFile → List ReceiveEvent → ReceivedFile
unfolding receive_buffer write_received
rdt_receive_file r opening es =
    let (content, phase) = receive_buffer r es in write_received content opening phase
