-- ===== src/Session/Download.antt =====
-- src/server/Session.cpp, `handle_command`: RETR and HASH, which read a file.
use hybrid_ftp.Base.{ℕ, false, not, Option, none, some, List, [], ◌∷◌, ◌++◌, ltb, if◌then◌else◌}
use hybrid_ftp.Codec.{encode}
use hybrid_ftp.Header.{header_size}
use hybrid_ftp.Text.{Text, text, is_empty}
use hybrid_ftp.Path.{FilePath, FileSystem, init, resolve_path, is_path_inside_root}
use hybrid_ftp.Path.Listing.{new_line, get_file_size}
use hybrid_ftp.FileHandler.{read_binary_file, compute_sha256_from_file}
use hybrid_ftp.Session.{SessionState, Knock, CommandEvent, Outgoing, Handled, reply_line, answer}
use hybrid_ftp.Session.Channel.{
  close_passive, Channel, no_channel, passive_channel, active_channel, open_data_channel,
}

-- The replies behind a transfer.
pub ending : CommandEvent → List Text
ending e =
    if e.aborted
    then reply_line "426 Connection closed; transfer aborted."
      ∷ reply_line "226 Abort successful."
      ∷ []
    else if e.delivered
    then reply_line "226 Transfer complete." ∷ []
    else reply_line "426 Connection closed; transfer aborted." ∷ []

abbrev pub opening_download : Text
opening_download = reply_line "150 Opening data connection for file download."

module _ {F : Type 0} (f : F) where
  -- A download that ends with some replies, after which a passive socket may be gone.
  unfoldable pub say : SessionState → List Text → List Outgoing → Handled F
  say s replies sent = record {
    files = f;
    session = s;
    replies = opening_download ∷ replies;
    sent = sent;
    quits = false;
  }

  -- The file's content on its way to an endpoint, in the session `s'` that is left behind.
  unfoldable pub send_file :
      CommandEvent → SessionState → SessionState → Text → ℕ → Option (List ℕ) → Handled F
  unfolding say
  send_file e s s' ip p none = say s' (reply_line "451 Cannot read file." ∷ []) []
  send_file e s s' ip p (some raw) =
      say s' (ending e) (record { ip = ip; port = p; buffer = encode raw s.transfer_mode } ∷ [])

  unfoldable pub retr_passive :
      CommandEvent → SessionState → Option Knock → Option (List ℕ) → Handled F
  unfolding say send_file
  retr_passive e s none content =
      say s (reply_line "425 No connection from client on passive port." ∷ []) []
  retr_passive e s (some k) content =
      if ltb k.size header_size
      then say s (reply_line "425 No connection from client on passive port." ∷ []) []
      else send_file e s (close_passive s) k.ip k.port content

module _ {F : Type 0} ⦃fs : FileSystem F⦄ (e : CommandEvent) (f : F) (s : SessionState) where
  -- RETR from the data channel on, for the resolved path; the directory that holds it is made.
  unfoldable pub retr_over : FilePath → Channel → Handled F
  unfolding answer send_file retr_passive read_binary_file
  retr_over p (no_channel r) = answer f s r
  retr_over p passive_channel =
      let f' = fs.create_directories f (init p) in
      retr_passive f' e s e.knock (read_binary_file f' p)
  retr_over p (active_channel ip n) =
      let f' = fs.create_directories f (init p) in send_file f' e s s ip n (read_binary_file f' p)

  -- The guards of RETR and HASH; `none` when the path is refused or names no file inside the root.
  unfoldable pub refuse_file : Text → Text → Option Text
  unfolding is_path_inside_root get_file_size
  refuse_file bad a =
      if is_empty a
      then some (reply_line "501 Missing filename.")
      else if not (is_path_inside_root s.path_manager a)
      then some (reply_line "550 Access denied.")
      else elim (get_file_size f s.path_manager a) [ none ↦ some bad | some n ↦ none ]

  unfoldable pub retr_at : Text → Option Text → Handled F
  unfolding answer retr_over open_data_channel resolve_path
  retr_at a (some r) = answer f s r
  retr_at a none = retr_over (resolve_path s.path_manager a) (open_data_channel e s)

  unfoldable pub retr_command : Text → Handled F
  unfolding retr_at refuse_file
  retr_command a = retr_at a (refuse_file (reply_line "550 File not found or access denied.") a)

  pub hash_reply : Text → Text
  hash_reply digest =
      if is_empty digest
      then reply_line "550 Could not compute hash."
      else text "213 SHA-256=" ++ digest ++ new_line

  unfoldable pub hash_at : Text → Option Text → Handled F
  unfolding answer hash_reply compute_sha256_from_file resolve_path
  hash_at a (some r) = answer f s r
  hash_at a none =
      answer f s (hash_reply (compute_sha256_from_file f (resolve_path s.path_manager a)))

  unfoldable pub hash_command : Text → Handled F
  unfolding hash_at refuse_file
  hash_command a = hash_at a (refuse_file (reply_line "550 File not found or access denied.") a)
