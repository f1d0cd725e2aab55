-- ===== src/EndToEnd/Download.antt =====
-- RETR of src/server/Session.cpp and of src/client/ClientCLI.cpp, with the transfer between them.
use hybrid_ftp.Base.{
  ℕ, ◌+◌, ◌^◌, ◌≤◌, ◌<◌, ◌≡◌, refl, sym, ap, ◌∙◌, true, false, Option, none, some, List, [], ◌∷◌,
  ◌++◌, arith, ltb, length,
}
use hybrid_ftp.Codec.{TransferMode, encode}
use hybrid_ftp.Codec.RoundTrip.{decode-encode}
use hybrid_ftp.Header.{header_size}
use hybrid_ftp.Udp.{Endpoint, returned}
use hybrid_ftp.Receiver.{receive_buffer_size}
use hybrid_ftp.Double.{Double}
use hybrid_ftp.Sender.{SenderConfig, segments}
use hybrid_ftp.Network.{System, Reach, initial}
use hybrid_ftp.Network.Reliability.{reliable_transfer}
use hybrid_ftp.Rdt.{OutputFile}
use hybrid_ftp.Text.{Text, text}
use hybrid_ftp.Path.{FileSystem, init, resolve_path, is_path_inside_root}
use hybrid_ftp.Path.Listing.{get_file_size}
use hybrid_ftp.FileHandler.{read_binary_file}
use hybrid_ftp.Session.{
  mode_passive, SessionState, Knock, CommandEvent, Handled, reply_line, answer,
}
use hybrid_ftp.Session.Channel.{close_passive, Channel}
use hybrid_ftp.Session.Download.{
  ending, opening_download, say, send_file, retr_passive, retr_over, refuse_file, retr_at,
  retr_command,
}
use hybrid_ftp.Session.Loop.{Recv, without_return}
use hybrid_ftp.EndToEnd.{channel_ready}
use hybrid_ftp.Client.{ClientState, ClientEvent, starts}
use hybrid_ftp.Client.Replies.{recv_line, is_multi_line, recv_reply}
use hybrid_ftp.Client.Transfers.{Target, Aimed, aims, aim, abort_noted, with_socket}
use hybrid_ftp.Client.Downloads.{receive_with, save_file, download_over, retr_aimed, handle_retr}
use hybrid_ftp.Client.Lines.{arriving, all_arriving}

module _ {F : Type 0} ⦃fs : FileSystem F⦄ (e : CommandEvent) (f : F) (s : SessionState) where
  -- The file that a name stands for, as RETR reads it: the directory that holds it is made first.
  unfoldable pub file_of : Text → Option (List ℕ)
  file_of name =
      let p = resolve_path s.path_manager name in fs.read_file (fs.create_directories f (init p)) p

  not_refused :
      (bad : Text) (c : ℕ) (name : Text) (n : ℕ)
      → is_path_inside_root s.path_manager (c ∷ name) ≡ true
      → get_file_size f s.path_manager (c ∷ name) ≡ some n
      → refuse_file e f s bad (c ∷ name) ≡ none
  unfolding refuse_file
  not_refused bad c name n inside found = rw (refuse_file, inside, found) refl

  -- RETR over a passive channel whose client has knocked, for a file that can be read.
  abbrev pub DownloadsTo : F → Knock → List ℕ → Handled F → Type 0
  DownloadsTo f' k content h =
      h
      ≡ say f' (close_passive s) (ending e)
          (record { ip = k.ip; port = k.port; buffer = encode content s.transfer_mode } ∷ [])

  passive_downloads :
      (f' : F) (ko : Option Knock) (co : Option (List ℕ)) (k : Knock) (content : List ℕ)
      → ko ≡ some k
      → co ≡ some content
      → header_size ≤ k.size
      → DownloadsTo f' k content (retr_passive f' e s ko co)
  unfolding retr_passive send_file
  passive_downloads f' ko co k content knocked readable long =
      let large : ltb k.size header_size ≡ false = ground arith in
      rw (knocked, readable, large) refl

  retr_downloads :
      (c : ℕ) (name : Text) (n own : ℕ) (k : Knock) (content : List ℕ)
      → s.data_mode ≡ mode_passive
      → s.passive_socket ≡ some own
      → is_path_inside_root s.path_manager (c ∷ name) ≡ true
      → get_file_size f s.path_manager (c ∷ name) ≡ some n
      → e.knock ≡ some k
      → header_size ≤ k.size
      → file_of (c ∷ name) ≡ some content
      → DownloadsTo
          (fs.create_directories f (init (resolve_path s.path_manager (c ∷ name))))
          k
          content
          (retr_command e f s (c ∷ name))
  unfolding retr_command retr_at retr_over read_binary_file file_of
  retr_downloads c name n own k content passive socket inside found knocked long readable =
      let p = resolve_path s.path_manager (c ∷ name) in
      ap (λ (o : Option Text). retr_at e f s (c ∷ name) o)
        (not_refused (reply_line "550 File not found or access denied.") c name n inside found)
      ∙ ap (λ (ch : Channel). retr_over e f s p ch) (channel_ready e s own passive socket)
      ∙ passive_downloads (fs.create_directories f (init p)) e.knock (file_of (c ∷ name)) k content
          knocked readable long

-- The first reply of a download, as the client reads it.
reads_opening :
    (lines : ℕ) (rest : List Recv)
    → (recv_reply lines (arriving opening_download ++ rest)).0
      ≡ text "150 Opening data connection for file download."
unfolding recv_reply recv_line is_multi_line without_return
reads_opening lines rest = refl

over_saves :
    (c : ClientState) (ce : ClientEvent) (t : Target) (line asked failure local : Text)
    (content : List ℕ) (keeps : OutputFile)
    → ce.answers line ≡ text "150 Opening data connection for file download."
    → ce.downloaded ≡ some (encode content c.client_mode)
    → ce.output_file ≡ some keeps
    → (download_over c ce t line asked failure
        (λ opening a d. save_file ce opening local a d)).written
      ≡ record { name = local; bytes = keeps content } ∷ []
unfolding download_over receive_with save_file abort_noted starts
over_saves c ce t line asked failure local content keeps opening got creates =
    rw (opening, got, decode-encode content c.client_mode c.client_type, creates) refl

-- What the client writes when it receives the encoding of some content in its own mode.
retr_saves :
    (c : ClientState) (ce : ClientEvent) (remote local : Text) (t : Target) (content : List ℕ)
    (keeps : OutputFile)
    → aim c ce (text "Error: Cannot parse PASV reply: " ++ ce.answers (text "PASV")) ≡ aims t
    → ce.socket_error ≡ none
    → ce.answers (text "RETR " ++ remote) ≡ text "150 Opening data connection for file download."
    → ce.downloaded ≡ some (encode content c.client_mode)
    → ce.output_file ≡ some keeps
    → (handle_retr c ce remote local).written ≡ record { name = local; bytes = keeps content } ∷ []
unfolding handle_retr retr_aimed with_socket
retr_saves c ce remote local t content keeps aimed socket opening got creates =
    let line = text "RETR " ++ remote in
    let failure = text "\nError: RDT receive failed" in
    let over =
      download_over c ce t line (text "RETR") failure
        (λ opening a d. save_file ce opening local a d) in
    ap (λ (a : Aimed). (retr_aimed c ce remote local a).written) aimed
    ∙ ap (λ (o : Option Text). (with_socket c t.is_active (text "PASV" ∷ []) o over).written) socket
    ∙ over_saves c ce t line (text "RETR") failure local content keeps opening got creates

-- A download from a passive server, from the server's file to the client's. The server is in passive
-- mode with an open socket and has been knocked at by a datagram of a header's length at least, and the
-- name is one of a file inside the root that it can read. Then RETR gives its sender one buffer, for the
-- address that knocked: the file's content, encoded. Further, a sender transfers this buffer over any
-- network, by an MSS that is positive and fits the receiver's buffer, in fewer than 2 ^ 32 segments and
-- with an advertised window of 16 bits, and the client's receiver returns true with what it has. The client is in the same mode as the session,
-- it has an endpoint from its PASV or its active socket, its UDP socket opens, the answer to its RETR
-- is what it reads of the replies of this RETR, and it can create its local file. Then it hands exactly
-- the content of the server's file to the local file, which holds what the system keeps of it.
pub download_saves :
    {D F : Type 0} ⦃d : Double D⦄ ⦃fs : FileSystem F⦄ (cfg : SenderConfig D) (window : ℕ)
    (content : List ℕ) (segs : List (List ℕ)) (peer : Endpoint) (sys : System D) (e : CommandEvent)
    (f : F) (s : SessionState) (c : ℕ) (name : Text) (n own : ℕ) (k : Knock) (client : ClientState)
    (ce : ClientEvent) (local : Text) (t : Target) (lines : ℕ) (keeps : OutputFile)
    → s.data_mode ≡ mode_passive
    → s.passive_socket ≡ some own
    → is_path_inside_root s.path_manager (c ∷ name) ≡ true
    → get_file_size f s.path_manager (c ∷ name) ≡ some n
    → e.knock ≡ some k
    → header_size ≤ k.size
    → file_of e f s (c ∷ name) ≡ some content
    → 0 < cfg.mss
    → header_size + cfg.mss ≤ receive_buffer_size
    → segments cfg.mss (encode content s.transfer_mode) ≡ some segs
    → length segs < 2 ^ 32
    → window < 2 ^ 16
    → Reach cfg window segs (initial cfg window segs peer) sys
    → sys.receiver_phase ≡ returned true
    → ce.downloaded ≡ some sys.receiver_state.out_data
    → client.client_mode ≡ s.transfer_mode
    → aim client ce (text "Error: Cannot parse PASV reply: " ++ ce.answers (text "PASV")) ≡ aims t
    → ce.socket_error ≡ none
    → ce.answers (text "RETR " ++ c ∷ name)
      ≡ (recv_reply lines (all_arriving (retr_command e f s (c ∷ name)).replies)).0
    → ce.output_file ≡ some keeps
    → ((retr_command e f s (c ∷ name)).sent
        ≡ record { ip = k.ip; port = k.port; buffer = encode content s.transfer_mode } ∷ [])
      × ((handle_retr client ce (c ∷ name) local).written
          ≡ record { name = local; bytes = keeps content } ∷ [])
unfolding say
download_saves {F = F} cfg window content segs peer sys e f s c name n own k client ce local t lines
      keeps passive socket inside found knocked long readable pos fits cut small hw run done got
      agree aimed opens answer creates =
    let delivered =
      reliable_transfer cfg window (encode content s.transfer_mode) segs peer sys pos fits cut small
        hw run in
    let whole : ce.downloaded ≡ some (encode content client.client_mode) =
      got
      ∙ ap some (delivered.received_all done)
      ∙ ap (λ (m : TransferMode). some (encode content m)) (sym agree) in
    let served =
      retr_downloads e f s c name n own k content passive socket inside found knocked long
        readable in
    let opening : ce.answers (text "RETR " ++ c ∷ name)
        ≡ text "150 Opening data connection for file download." =
      answer
      ∙ ap (λ (h : Handled F). (recv_reply lines (all_arriving h.replies)).0) served
      ∙ reads_opening lines (all_arriving (ending e)) in
    (
      ap (λ (h : Handled F). h.sent) served,
      retr_saves client ce (c ∷ name) local t content keeps aimed opens opening whole creates,
    )
