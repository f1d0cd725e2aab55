-- ===== src/EndToEnd.antt =====
-- A command of src/server/Session.cpp that transfers a file, together with the transfer of
-- src/rdt/SlidingWindow.cpp and the encoding of src/common/TransferModeCodec.cpp.
pub mod Download
use hybrid_ftp.Base.{
  ℕ, ◌+◌, ◌^◌, ◌≤◌, ◌<◌, ◌≡◌, refl, ap, ◌∙◌, ◌⊎◌, inl, inr, Bool, true, false, Option, some, List,
  [], ◌∷◌, if◌then◌else◌, length,
}
use hybrid_ftp.Codec.{TransferType, ascii, binary, ok, encode}
use hybrid_ftp.Codec.RoundTrip.{decode-encode}
use hybrid_ftp.Header.{header_size}
use hybrid_ftp.Udp.{Endpoint, returned}
use hybrid_ftp.Receiver.{receive_buffer_size}
use hybrid_ftp.Double.{Double}
use hybrid_ftp.Sender.{SenderConfig, segments}
use hybrid_ftp.Network.{System, Reach, initial}
use hybrid_ftp.Network.Reliability.{reliable_transfer}
use hybrid_ftp.Text.{Text}
use hybrid_ftp.Path.{FileSystem, init, resolve_path, is_path_inside_root}
use hybrid_ftp.FileHandler.{write_binary_file, write_text_file}
use hybrid_ftp.Session.{mode_passive, SessionState, CommandEvent, Handled, reply_line}
use hybrid_ftp.Session.Channel.{close_passive, passive_channel, open_passive, open_data_channel}
use hybrid_ftp.Session.Upload.{
  opening_upload, finish_upload, write_upload, store_decoded, store_received, receive_into,
  receive_checked, receive_file, stor_command,
}

TransferType-cases : (t : TransferType) → (t ≡ ascii) ⊎ (t ≡ binary)
TransferType-cases ascii = inl refl
TransferType-cases binary = inr refl

module _ {F : Type 0} ⦃fs : FileSystem F⦄ (e : CommandEvent) (f : F) (s : SessionState) where
  -- What is written for `content`, and whether that goes well.
  pub stored_files : Text → List ℕ → Bool → F × Bool
  stored_files name content append =
      let p = resolve_path s.path_manager name in
      fs.write_file (fs.create_directories f (init p)) p content append

  -- The upload has written `content`, and its last reply tells whether that went well.
  pub IsStored : Text → List ℕ → Bool → Handled F → Type 0
  IsStored name content append h =
      (h.files ≡ (stored_files name content append).0)
      × (h.replies
          ≡ reply_line "150 Opening data connection for file upload."
            ∷ (if (stored_files name content append).1
                then reply_line "226 Transfer complete."
                else reply_line "551 Failed to write file.")
            ∷ [])

  written-IsStored :
      (s' : SessionState) (name : Text) (content : List ℕ) (append : Bool)
      → IsStored name content append (
          store_decoded
            (fs.create_directories f (init (resolve_path s.path_manager name)))
            s
            s'
            (resolve_path s.path_manager name)
            append
            (opening_upload false)
            (ok content))
  unfolding IsStored stored_files store_decoded finish_upload write_upload write_binary_file
      write_text_file
  written-IsStored s' name content append = elim (TransferType-cases s.transfer_type) [
    | inl as_text ↦ rw as_text (refl, refl)
    | inr as_image ↦ rw as_image (refl, refl)
  ]

  received-IsStored :
      (s' : SessionState) (name : Text) (content : List ℕ) (append : Bool) (o : Option (List ℕ))
      → o ≡ some (encode content s.transfer_mode)
      → IsStored name content append (
          store_received e
            (fs.create_directories f (init (resolve_path s.path_manager name)))
            s
            s'
            (resolve_path s.path_manager name)
            append
            (opening_upload false)
            o)
  unfolding store_received
  received-IsStored s' name content append o h =
      rw (h, decode-encode content s.transfer_mode s.transfer_type)
        (written-IsStored s' name content append)

  passive-IsStored :
      (name : Text) (content : List ℕ) (append : Bool)
      → is_path_inside_root s.path_manager name ≡ true
      → e.uploaded ≡ some (encode content s.transfer_mode)
      → IsStored name content append (receive_file e f s name append false passive_channel)
  unfolding receive_file receive_checked receive_into
  passive-IsStored name content append inside got =
      rw inside (received-IsStored (close_passive s) name content append e.uploaded got)

pub channel_ready :
    (e : CommandEvent) (s : SessionState) (own : ℕ)
    → s.data_mode ≡ mode_passive
    → s.passive_socket ≡ some own
    → open_data_channel e s ≡ passive_channel
unfolding open_data_channel open_passive
channel_ready e s own passive socket = rw (passive, socket) refl

-- An upload to a passive server, from the client's file to the server's. The client's sender transfers
-- the encoding of `content` over any network, in the session's mode, and the server's receiver returns
-- true with what it has. Then STOR and APPE write exactly `content`, in the session's type, to the
-- path that the name resolves to, which is inside the root, and reply 226 if that went well, and 551
-- if not.
pub upload_stores :
    {D F : Type 0} ⦃d : Double D⦄ ⦃fs : FileSystem F⦄ (cfg : SenderConfig D) (window : ℕ)
    (content : List ℕ) (segs : List (List ℕ)) (peer : Endpoint) (sys : System D) (e : CommandEvent)
    (f : F) (s : SessionState) (c : ℕ) (name : Text) (append : Bool) (own : ℕ)
    → 0 < cfg.mss
    → header_size + cfg.mss ≤ receive_buffer_size
    → segments cfg.mss (encode content s.transfer_mode) ≡ some segs
    → length segs < 2 ^ 32
    → window < 2 ^ 16
    → Reach cfg window segs (initial cfg window segs peer) sys
    → sys.receiver_phase ≡ returned true
    → e.uploaded ≡ some sys.receiver_state.out_data
    → s.data_mode ≡ mode_passive
    → s.passive_socket ≡ some own
    → is_path_inside_root s.path_manager (c ∷ name) ≡ true
    → IsStored e f s (c ∷ name) content append (stor_command e f s append (c ∷ name))
unfolding stor_command
upload_stores cfg window content segs peer sys e f s c name append own pos fits cut small hw run
      done got passive socket inside =
    let delivered =
      reliable_transfer cfg window (encode content s.transfer_mode) segs peer sys pos fits cut small
        hw run in
    let whole : e.uploaded ≡ some (encode content s.transfer_mode) =
      got ∙ ap some (delivered.received_all done) in
    let ready : open_data_channel e s ≡ passive_channel = channel_ready e s own passive socket in
    rw ready (passive-IsStored e f s (c ∷ name) content append inside whole)
