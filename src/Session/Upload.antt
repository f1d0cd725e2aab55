-- ===== src/Session/Upload.antt =====
-- src/server/Session.cpp, `handle_command`: STOR, STOU and APPE with `receiveFileOverDataChannel`.
use hybrid_ftp.Base.{
  ℕ, Bool, true, false, not, Option, none, some, List, [], ◌∷◌, ◌++◌, if◌then◌else◌,
}
use hybrid_ftp.Codec.{TransferType, ascii, binary, Decoded, ok, fail, stuck, decode}
use hybrid_ftp.Text.{Text, text, is_empty}
use hybrid_ftp.Path.{FilePath, FileSystem, init, resolve_path, is_path_inside_root}
use hybrid_ftp.Path.Listing.{new_line}
use hybrid_ftp.Path.Unique.{generate_unique_filename}
use hybrid_ftp.FileHandler.{write_binary_file, write_text_file}
use hybrid_ftp.Session.{SessionState, CommandEvent, Handled, reply_line, answer}
use hybrid_ftp.Session.Channel.{
  close_passive, Channel, no_channel, passive_channel, active_channel, open_data_channel,
}

abbrev pub opening_upload : Bool → List Text
opening_upload true = []
opening_upload false = reply_line "150 Opening data connection for file upload." ∷ []

-- The end of an upload: the files, the session and the replies.
unfoldable pub finish_upload : {F : Type 0} → F → SessionState → List Text → Handled F
finish_upload f s replies = record {
  files = f;
  session = s;
  replies = replies;
  sent = [];
  quits = false;
}

pub refused_upload : CommandEvent → List Text
refused_upload e =
    reply_line "426 Connection closed; transfer aborted."
    ∷ (if e.aborted then reply_line "226 Abort successful." ∷ [] else [])

module _ {F : Type 0} ⦃fs : FileSystem F⦄ where
  -- The file is written as bytes for TYPE I and as text for TYPE A.
  unfoldable pub write_upload : TransferType → F → FilePath → List ℕ → Bool → F × Bool
  unfolding write_binary_file write_text_file
  write_upload binary f p bytes append = write_binary_file f p bytes append
  write_upload ascii f p bytes append = write_text_file f p bytes append

  unfoldable pub store_decoded :
      F → SessionState → SessionState → FilePath → Bool → List Text → Decoded → Handled F
  unfolding write_upload finish_upload
  store_decoded f s s' p append opening (ok bytes) =
      let result = write_upload s.transfer_type f p bytes append in
      finish_upload result.0 s' (
        opening
        ++ (if result.1
            then reply_line "226 Transfer complete."
            else reply_line "551 Failed to write file.")
          ∷ [])
  store_decoded f s s' p append opening (fail error output) =
      finish_upload f s' (opening ++ reply_line "551 Invalid transfer mode encoding." ∷ [])
  -- The decoder of the model never runs out of its fuel.
  store_decoded f s s' p append opening stuck =
      finish_upload f s' (opening ++ reply_line "551 Invalid transfer mode encoding." ∷ [])

  -- What `receiveBuffer` left is decoded and written; `s'` is the session behind the transfer.
  unfoldable pub store_received :
      CommandEvent
      → F
      → SessionState
      → SessionState
      → FilePath
      → Bool
      → List Text
      → Option (List ℕ)
      → Handled F
  unfolding store_decoded finish_upload refused_upload decode
  store_received e f s s' p append opening none = finish_upload f s' (opening ++ refused_upload e)
  store_received e f s s' p append opening (some buffer) =
      store_decoded f s s' p append opening (decode buffer s.transfer_mode s.transfer_type)

  -- The upload once the channel is open and the path is accepted.
  unfoldable pub receive_into :
      CommandEvent → F → SessionState → FilePath → Bool → List Text → Channel → Handled F
  unfolding store_received finish_upload close_passive answer
  receive_into e f s p append opening (no_channel r) = answer f s r
  receive_into e f s p append opening passive_channel =
      store_received e f s (close_passive s) p append opening e.uploaded
  receive_into e f s p append opening (active_channel ip n) =
      if e.knock_sent
      then store_received e f s s p append opening e.uploaded
      else finish_upload f s (opening ++ reply_line "425 Cannot reach active data endpoint." ∷ [])

  -- The test of the path, with the channel open.
  unfoldable pub receive_checked :
      CommandEvent → F → SessionState → Text → Bool → Bool → Channel → Handled F
  unfolding answer receive_into is_path_inside_root resolve_path
  receive_checked e f s name append skip channel =
      let p = resolve_path s.path_manager name in
      if not (is_path_inside_root s.path_manager name)
      then answer f s (reply_line "550 Access denied.")
      else receive_into e (fs.create_directories f (init p)) s p append (opening_upload skip)
          channel

  -- `receiveFileOverDataChannel`
  unfoldable pub receive_file :
      CommandEvent → F → SessionState → Text → Bool → Bool → Channel → Handled F
  unfolding answer receive_checked
  receive_file e f s name append skip (no_channel r) = answer f s r
  receive_file e f s name append skip passive_channel =
      receive_checked e f s name append skip passive_channel
  receive_file e f s name append skip (active_channel ip n) =
      receive_checked e f s name append skip (active_channel ip n)

module _ {F : Type 0} ⦃fs : FileSystem F⦄ (e : CommandEvent) (f : F) (s : SessionState) where
  unfoldable pub stor_command : Bool → Text → Handled F
  unfolding answer receive_file open_data_channel
  stor_command append a =
      if is_empty a
      then answer f s (reply_line "501 Missing filename.")
      else receive_file e f s a append false (open_data_channel e s)

  unfoldable pub stou_at : Option Text → Option (Handled F)
  unfolding receive_file open_data_channel
  stou_at none = none
  stou_at (some name) =
      let h = receive_file e f s name false true (open_data_channel e s) in
      some (record h { replies = (text "125 FILE: " ++ name ++ new_line) ∷ h.replies })

  -- `none`: the search for a free name has not ended within the rounds of the model.
  unfoldable pub stou_command : Text → Option (Handled F)
  unfolding stou_at generate_unique_filename
  stou_command a = stou_at (
      generate_unique_filename f s.path_manager (if is_empty a then text "upload" else a)
        e.unique_rounds)
