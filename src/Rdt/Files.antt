-- ===== src/Rdt/Files.antt =====
-- A file that `RDTSender::sendFile` sends and `RDTReceiver::receiveFile` writes.
use hybrid_ftp.Base.{
  ℕ, ◌+◌, ◌^◌, ◌≤◌, ◌<◌, ◌≡◌, refl, sym, ap, ◌∙◌, ◌≢◌, true, false, Option, none, some, List,
  length,
}
use hybrid_ftp.Header.{header_size}
use hybrid_ftp.Udp.{no_endpoint, Phase, running, returned}
use hybrid_ftp.Receiver.{receive_buffer_size, ReceiveEvent}
use hybrid_ftp.Double.{Double}
use hybrid_ftp.Sender.{SenderState, SendEvent, segments, start_sender}
use hybrid_ftp.Sender.Run.{SendPhase, sending, closing, sent_result, send_loop}
use hybrid_ftp.Network.{System, Reach, initial}
use hybrid_ftp.Network.Reliability.{reliable_transfer}
use hybrid_ftp.Network.Runs.{Runs, Reach-Runs}
use hybrid_ftp.Rdt.{
  RdtSender, RdtReceiver, OpenedFile, OutputFile, read_whole, window_settings, after_send_data,
  send_segments, run_window_sender, send_whole, rdt_send_file, receive_buffer, write_received,
  rdt_receive_file,
}

-- What the two functions make of the rounds of one transfer of `content`.
pub record CopiesFile {D : Type 0} ⦃f : Double D⦄ (o : RdtSender D) (r : RdtReceiver)
    (file : Option OpenedFile) (content : List ℕ) (sends : List SendEvent)
    (receives : List ReceiveEvent) : Type 0 where
  -- The receiver's function returns true only where it has handed the whole content to the file. Then
  -- the file holds what it keeps of that, which is the content where the system writes it in full.
  pub written :
      (keeps : OutputFile)
      → (rdt_receive_file r (some keeps) receives).result ≡ some true
      → (rdt_receive_file r (some keeps) receives).stored ≡ some (keeps content)
  -- Whether the file keeps it does not show in what is returned.
  pub unnoticed :
      (keeps keeps' : OutputFile)
      → (rdt_receive_file r (some keeps) receives).result
        ≡ (rdt_receive_file r (some keeps') receives).result
  -- It does not return true where the output file cannot be opened.
  pub unopened :
      ((rdt_receive_file r none receives).result ≢ some true)
      × ((rdt_receive_file r none receives).stored ≡ none)
  -- When the sender's returns true, the receiver has the whole content.
  pub sent :
      (rdt_send_file o file sends).result ≡ some true → (receive_buffer r receives).0 ≡ content

write_received-written :
    (content out : List ℕ) (keeps : OutputFile) (phase : Phase)
    → (phase ≡ returned true → out ≡ content)
    → (write_received out (some keeps) phase).result ≡ some true
    → (write_received out (some keeps) phase).stored ≡ some (keeps content)
unfolding write_received
write_received-written content out keeps running h e = cc
write_received-written content out keeps (returned true) h e = ap (λ c. some (keeps c)) (h refl)
write_received-written content out keeps (returned false) h e = cc

write_received-unnoticed :
    (out : List ℕ) (keeps keeps' : OutputFile) (phase : Phase)
    → (write_received out (some keeps) phase).result
      ≡ (write_received out (some keeps') phase).result
unfolding write_received
write_received-unnoticed out keeps keeps' running = refl
write_received-unnoticed out keeps keeps' (returned true) = refl
write_received-unnoticed out keeps keeps' (returned false) = refl

write_received-unopened :
    (out : List ℕ) (phase : Phase)
    → ((write_received out none phase).result ≢ some true)
      × ((write_received out none phase).stored ≡ none)
unfolding write_received
write_received-unopened out running = ((λ e. cc), refl)
write_received-unopened out (returned true) = ((λ e. cc), refl)
write_received-unopened out (returned false) = ((λ e. cc), refl)

module _ {D : Type 0} ⦃f : Double D⦄ (o : RdtSender D) where
  after_send_data-done :
      (s : SenderState D) (phase : SendPhase)
      → (after_send_data o s phase).result ≡ some true
      → phase ≡ sent_result true
  unfolding after_send_data
  after_send_data-done s sending e = cc
  after_send_data-done s (closing left) e = cc
  after_send_data-done s (sent_result b) e = cc

  -- A call that returns true has run `sendData` to its end.
  rdt_send_file-done :
      (file : Option OpenedFile) (content : List ℕ) (segs : List (List ℕ)) (es : List SendEvent)
      → read_whole file ≡ some content
      → segments o.mss content ≡ some segs
      → (rdt_send_file o file es).result ≡ some true
      → (send_loop
          (window_settings o)
          segs
          (record { state = start_sender (window_settings o); phase = sending })
          es).phase
        ≡ sent_result true
  rdt_send_file-done file content segs es whole cut e =
      let same : rdt_send_file o file es ≡ send_segments o (some segs) es =
        unfold rdt_send_file send_whole run_window_sender in rw (whole, cut) refl in
      let ended : (send_segments o (some segs) es).result ≡ some true =
        sym (ap (λ c. c.result) same) ∙ e in
      let cfg = window_settings o in
      let run = send_loop cfg segs (record { state = start_sender cfg; phase = sending }) es in
      after_send_data-done run.state run.phase (unfold send_segments in ended)

-- What `sendFile` reads is what `receiveFile` hands to its file, with the settings of both objects. The
-- file that is sent can be read, the MSS is positive and fits the receiver's buffer, there are fewer
-- than 2 ^ 32 segments, and the advertised window has 16 bits. Whatever the network does, there are
-- inputs of the rounds of both sides that bring them to where the transfer stands, and on these:
-- where `receiveFile` returns true, its file holds what the system keeps of exactly the bytes that were
-- read, so exactly these bytes if it writes them in full; whether it does makes no difference to what
-- is returned; where the file cannot be opened, nothing is written and true is not returned; and where
-- `sendFile` returns true, the receiver's buffer is these bytes.
pub file_copied :
    {D : Type 0} ⦃f : Double D⦄ (o : RdtSender D) (r : RdtReceiver) (file : Option OpenedFile)
    (content : List ℕ) (segs : List (List ℕ)) (sys : System D)
    → read_whole file ≡ some content
    → 0 < o.mss
    → header_size + o.mss ≤ receive_buffer_size
    → segments o.mss content ≡ some segs
    → length segs < 2 ^ 32
    → r.adv_window < 2 ^ 16
    → Reach
        (window_settings o)
        r.adv_window
        segs
        (initial (window_settings o) r.adv_window segs no_endpoint)
        sys
    → (sends : List SendEvent) × (receives : List ReceiveEvent) × Runs
        (window_settings o)
        r.adv_window
        segs
        no_endpoint
        sys
        sends
        receives
      × CopiesFile o r file content sends receives
unfolding window_settings receive_buffer rdt_receive_file
file_copied o r file content segs sys whole pos fits cut small hw run =
    let cfg = window_settings o in
    let delivered =
      reliable_transfer cfg r.adv_window content segs no_endpoint sys pos fits cut small hw run in
    let (sends, receives, g) = Reach-Runs cfg r.adv_window segs no_endpoint run in
    let out : (receive_buffer r receives).0 ≡ sys.receiver_state.out_data =
      ap (λ p. p.0.out_data) g.receiver_eq in
    (
      sends,
      receives,
      g,
      record {
        written = λ keeps.
            write_received-written content (receive_buffer r receives).0 keeps
              (receive_buffer r receives).1
              (λ e. out ∙ delivered.received_all (sym (ap (λ p. p.1) g.receiver_eq) ∙ e));
        unnoticed = λ keeps keeps'.
            write_received-unnoticed (receive_buffer r receives).0 keeps keeps'
              (receive_buffer r receives).1;
        unopened =
            write_received-unopened (receive_buffer r receives).0 (receive_buffer r receives).1;
        sent = λ e.
            let done = rdt_send_file-done o file content segs sends whole cut e in
            out ∙ delivered.sent_all (sym (ap (λ run. run.phase) g.sender_eq) ∙ done);
      },
    )
