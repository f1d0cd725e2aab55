-- ===== src/Programs/Copy.antt =====
-- One file that the two programs send and receive.
use hybrid_ftp.Base.{
  ℕ, ◌+◌, ◌^◌, ◌≤◌, ◌<◌, String, ◌≡◌, refl, sym, ap, ◌∙◌, true, false, Option, none, some, List,
  length,
}
use hybrid_ftp.Header.{header_size}
use hybrid_ftp.Udp.{no_endpoint, Phase, running, returned}
use hybrid_ftp.Receiver.{receive_buffer_size, ReceiveEvent, start_receiver, receive_loop}
use hybrid_ftp.Double.{Double}
use hybrid_ftp.Sender.{SendEvent, segments, start_sender}
use hybrid_ftp.Sender.Run.{SendPhase, sending, closing, sent_result, send_loop}
use hybrid_ftp.Network.{System, Reach, initial}
use hybrid_ftp.Network.Reliability.{reliable_transfer}
use hybrid_ftp.Network.Runs.{Runs, Reach-Runs}
use hybrid_ftp.Rdt.{OpenedFile, OutputFile, read_whole}
use hybrid_ftp.Programs.{
  NumberText, DoubleText, simple_sum, client_file, exit_of, client_config, client_sends,
  client_with, file_client, server_output, server_window, server_received, file_server,
}

-- What the exit codes, the output file and the two printed sums tell.
pub record CopiesBetween (D : Type 0) ⦃f : Double D⦄ ⦃t : NumberText⦄ ⦃w : DoubleText D⦄
    (client_args server_args : List String) (files : String → Option OpenedFile)
    (outputs : String → Option OutputFile) (content : List ℕ) (sends : List SendEvent)
    (receives : List ReceiveEvent) : Type 0 where
  -- The receiving program exits with 0 only after it has handed the file to its output file, which
  -- could be opened, and which holds what it keeps of that.
  pub copied :
      (file_server server_args outputs receives).exit_code ≡ some 0
      → (keeps : OutputFile) × (outputs (server_output server_args) ≡ some keeps)
        × ((file_server server_args outputs receives).output
            ≡ some (server_output server_args, keeps content))
  -- Both then print the same sum.
  pub same_sums :
      (file_server server_args outputs receives).exit_code ≡ some 0
      → (file_server server_args outputs receives).printed_sum
        ≡ (file_client D client_args files sends).printed_sum
  -- Where the sending program exits with 0, the other has received all of the file.
  pub arrived_all :
      (file_client D client_args files sends).exit_code ≡ some 0
      → (receive_loop (server_window server_args) (start_receiver no_endpoint) receives).0.out_data
        ≡ content

exit_zero :
    (path : String) (opening : Option OutputFile) (out content : List ℕ) (phase : Phase)
    → (phase ≡ returned true → out ≡ content)
    → (server_received path opening out phase).exit_code ≡ some 0
    → (keeps : OutputFile) × (opening ≡ some keeps)
      × (server_received path opening out phase ≡ record {
        exit_code = some 0;
        output = some (path, keeps content);
        printed_sum = some (simple_sum content);
      })
unfolding server_received
exit_zero path opening out content running h e = absurd (cc e)
exit_zero path opening out content (returned false) h e = absurd (cc e)
exit_zero path none out content (returned true) h e = absurd (cc e)
exit_zero path (some keeps) out content (returned true) h e = (keeps, refl, rw (h refl) refl)

exit_of-done : (phase : SendPhase) → exit_of phase ≡ some 0 → phase ≡ sent_result true
unfolding exit_of
exit_of-done sending e = absurd (cc e)
exit_of-done (closing left) e = absurd (cc e)
exit_of-done (sent_result true) e = refl
exit_of-done (sent_result false) e = absurd (cc e)

-- The client on a file that can be read, and that its MSS cuts.
file_client_lem :
    (D : Type 0) ⦃f : Double D⦄ ⦃t : NumberText⦄ ⦃w : DoubleText D⦄ (args : List String)
    (files : String → Option OpenedFile) (content : List ℕ) (segs : List (List ℕ))
    (es : List SendEvent)
    → read_whole (files (client_file args)) ≡ some content
    → segments (client_config {D = D} args).mss content ≡ some segs
    → file_client D args files es ≡ record {
      exit_code =
          exit_of
            (send_loop
              (client_config args)
              segs
              (record { state = start_sender (client_config {D = D} args); phase = sending })
              es).phase;
      printed_sum = some (simple_sum content);
    }
unfolding file_client client_with client_sends
file_client_lem D args files content segs es whole cut = rw (whole, cut) refl

-- What the client reads is what the server hands to its output file. The client can read its file, its
-- MSS is positive and fits the receiver's buffer, the file has fewer than 2 ^ 32 segments, and the cast
-- of the server's window gives 16 bits. Whatever the network does, there are inputs of the rounds of
-- both programs that bring them to where the transfer stands, and on these: where the server exits
-- with 0, its output file could be opened and holds what the system keeps of exactly the bytes that the
-- client has read, so exactly these bytes if it writes them in full, which the server does not look at;
-- both programs then print the same sum; and where the client exits with 0 the server has received all
-- of the bytes.
pub programs_copy :
    (D : Type 0) ⦃f : Double D⦄ ⦃t : NumberText⦄ ⦃w : DoubleText D⦄
    (client_args server_args : List String) (files : String → Option OpenedFile)
    (outputs : String → Option OutputFile) (content : List ℕ) (segs : List (List ℕ))
    (sys : System D)
    → read_whole (files (client_file client_args)) ≡ some content
    → 0 < (client_config {D = D} client_args).mss
    → header_size + (client_config {D = D} client_args).mss ≤ receive_buffer_size
    → segments (client_config {D = D} client_args).mss content ≡ some segs
    → length segs < 2 ^ 32
    → server_window server_args < 2 ^ 16
    → Reach
        (client_config client_args)
        (server_window server_args)
        segs
        (initial (client_config client_args) (server_window server_args) segs no_endpoint)
        sys
    → (sends : List SendEvent) × (receives : List ReceiveEvent) × Runs
        (client_config client_args)
        (server_window server_args)
        segs
        no_endpoint
        sys
        sends
        receives
      × CopiesBetween D client_args server_args files outputs content sends receives
unfolding file_server
programs_copy D client_args server_args files outputs content segs sys whole pos fits cut small hw
      run =
    let cfg = client_config {D = D} client_args in
    let window = server_window server_args in
    let path = server_output server_args in
    let delivered =
      reliable_transfer cfg window content segs no_endpoint sys pos fits cut small hw run in
    let (sends, receives, g) = Reach-Runs cfg window segs no_endpoint run in
    let end = receive_loop window (start_receiver no_endpoint) receives in
    let out : end.0.out_data ≡ sys.receiver_state.out_data = ap (λ p. p.0.out_data) g.receiver_eq in
    let phase : end.1 ≡ sys.receiver_phase = ap (λ p. p.1) g.receiver_eq in
    let client = file_client_lem D client_args files content segs sends whole cut in
    let server =
      exit_zero path (outputs path) end.0.out_data content end.1
        (λ e. out ∙ delivered.received_all (sym phase ∙ e)) in
    (
      sends,
      receives,
      g,
      record {
        copied =
            λ e. let (keeps, opened, same) = server e in (keeps, opened, ap (λ r. r.output) same);
        same_sums = λ e.
            let (keeps, opened, same) = server e in
            ap (λ r. r.printed_sum) same ∙ sym (ap (λ r. r.printed_sum) client);
        arrived_all = λ e.
            let done = exit_of-done _ (sym (ap (λ r. r.exit_code) client) ∙ e) in
            out ∙ delivered.sent_all (sym (ap (λ run. run.phase) g.sender_eq) ∙ done);
      },
    )
