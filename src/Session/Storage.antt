-- ===== src/Session/Storage.antt =====
-- src/server/Session.cpp, `handle_command`: the commands on the server's storage.
use mathlib.Core.Option
use hybrid_ftp.Base.{Bool, not, Option, none, some, ◌∷◌, ◌++◌, if◌then◌else◌}
use hybrid_ftp.Codec.{ascii, binary, stream, block, compressed}
use hybrid_ftp.Text.{Text, text, is_empty}
use hybrid_ftp.Path.{FileSystem}
use hybrid_ftp.Path.Directories.{
  change_directory, change_to_parent_directory, get_current_ftp_path, create_directory,
  remove_directory,
}
use hybrid_ftp.Path.Files.{delete_file, can_rename, rename_path}
use hybrid_ftp.Path.Listing.{
  decimal, new_line, PathStatus, list_directory, list_names, get_status, get_file_size,
  get_modification_time,
}
use hybrid_ftp.Session.{SessionState, CommandEvent, Handled, reply_line, answer}
use hybrid_ftp.Session.Channel.{listing_command}

pub status_text : SessionState → Text
status_text s =
    reply_line "211-Hybrid FTP server status:"
    ++ reply_line " Server is running"
    ++ text " TYPE: "
    ++ elim s.transfer_type [ ascii ↦ text "ASCII" | binary ↦ text "Binary" ]
    ++ new_line
    ++ text " MODE: "
    ++ elim s.transfer_mode [
      | stream ↦ text "Stream"
      | block ↦ text "Block"
      | compressed ↦ text "Compressed"
    ]
    ++ new_line
    ++ reply_line "211 End of status."

pub path_status_text : PathStatus → Text
path_status_text p =
    let code = if p.is_directory then text "212" else text "213" in
    let subject =
      if p.is_directory then text "Directory status follows" else text "File status follows" in
    code ++ 45 ∷ subject ++ reply_line "." ++ p.listing ++ code ++ reply_line " End of status."

module _ {F : Type 0} where
  -- One reply for success, one for failure.
  unfoldable pub report : Bool → F → SessionState → Text → Text → Handled F
  unfolding answer
  report done f s good bad = if done then answer f s good else answer f s bad

  unfoldable pub report_text : Option Text → F → SessionState → Text → Handled F
  unfolding answer
  report_text none f s bad = answer f s bad
  report_text (some t) f s bad = answer f s t

module _ {F : Type 0} ⦃fs : FileSystem F⦄ (f : F) (s : SessionState) where
  unfoldable pub pwd_command : Text → Handled F
  unfolding answer get_current_ftp_path
  pwd_command argument =
      if not (is_empty argument)
      then answer f s (reply_line "501 PWD does not accept an argument.")
      else answer f s (
          text "257 "
          ++ 34 ∷ get_current_ftp_path f s.path_manager
          ++ 34 ∷ reply_line " is the current directory.")

  unfoldable pub rmd_command : Text → Handled F
  unfolding answer report remove_directory
  rmd_command argument =
      let result = remove_directory f s.path_manager argument in
      if is_empty argument
      then answer f s (reply_line "501 Missing directory name.")
      else report result.1 result.0 s (reply_line "250 Directory removed successfully.")
          (reply_line "550 Cannot remove directory.")

  unfoldable pub cwd_command : Text → Handled F
  unfolding answer report change_directory
  cwd_command argument =
      let result = change_directory f s.path_manager argument in
      if is_empty argument
      then answer f s (reply_line "501 Missing directory path.")
      else report result.1 f (record s { path_manager = result.0 })
          (reply_line "250 Directory changed successfully.")
          (reply_line "550 Directory unavailable or access denied.")

  unfoldable pub cdup_command : Text → Handled F
  unfolding answer report change_to_parent_directory
  cdup_command argument =
      let result = change_to_parent_directory f s.path_manager in
      if not (is_empty argument)
      then answer f s (reply_line "501 CDUP does not accept an argument.")
      else report result.1 f (record s { path_manager = result.0 })
          (reply_line "250 Parent directory changed successfully.")
          (reply_line "550 Already at root directory.")

  unfoldable pub mkd_command : Text → Handled F
  unfolding answer report create_directory
  mkd_command argument =
      let result = create_directory f s.path_manager argument in
      if is_empty argument
      then answer f s (reply_line "501 Missing directory name.")
      else report result.1 result.0 s (reply_line "257 Directory created successfully.")
          (reply_line "550 Cannot create directory.")

  unfoldable pub list_command : CommandEvent → Text → Handled F
  unfolding list_directory listing_command
  list_command e argument =
      listing_command f e s (reply_line "550 Directory unavailable or access denied.")
        (reply_line "150 Opening data connection for directory list.")
        (list_directory f s.path_manager argument)

  unfoldable pub nlst_command : CommandEvent → Text → Handled F
  unfolding list_names listing_command
  nlst_command e argument =
      listing_command f e s (reply_line "550 Path unavailable or access denied.")
        (reply_line "150 Opening data connection for name list.")
        (list_names f s.path_manager argument)

  unfoldable pub stat_command : Text → Handled F
  unfolding answer status_text path_status_text report_text get_status
  stat_command argument =
      if is_empty argument
      then answer f s (status_text s)
      else report_text (Option.map path_status_text (get_status f s.path_manager argument)) f s
          (reply_line "550 Path unavailable or access denied.")

  unfoldable pub size_command : Text → Handled F
  unfolding answer report_text get_file_size decimal
  size_command argument =
      if is_empty argument
      then answer f s (reply_line "501 Missing filename.")
      else report_text
          (Option.map (λ n. text "213 " ++ decimal n ++ new_line)
            (get_file_size f s.path_manager argument))
          f s (reply_line "550 File unavailable or access denied.")

  unfoldable pub mdtm_command : Text → Handled F
  unfolding answer report_text get_modification_time
  mdtm_command argument =
      if is_empty argument
      then answer f s (reply_line "501 Missing filename.")
      else report_text
          (Option.map (λ t. text "213 " ++ t ++ new_line)
            (get_modification_time f s.path_manager argument))
          f s (reply_line "550 File unavailable or access denied.")

  unfoldable pub dele_command : Text → Handled F
  unfolding answer report delete_file
  dele_command argument =
      let result = delete_file f s.path_manager argument in
      if is_empty argument
      then answer f s (reply_line "501 Missing filename.")
      else report result.1 result.0 s (reply_line "250 File deleted successfully.")
          (reply_line "550 File unavailable or access denied.")

  unfoldable pub rnfr_command : Text → Handled F
  unfolding answer can_rename
  rnfr_command argument =
      if is_empty argument
      then answer f s (reply_line "501 Missing source path.")
      else if not (can_rename f s.path_manager argument)
      then answer f s (reply_line "550 File or directory unavailable.")
      else answer f (record s { rename_source = some argument })
          (reply_line "350 Requested file action pending RNTO.")

  unfoldable pub rename_pending : Option Text → Text → Handled F
  unfolding answer report rename_path
  rename_pending none argument =
      answer f (record s { rename_source = none }) (reply_line "503 RNTO must be preceded by RNFR.")
  rename_pending (some old) argument =
      let result = rename_path f s.path_manager old argument in
      report result.1 result.0 (record s { rename_source = none })
        (reply_line "250 Rename successful.") (reply_line "550 Rename failed or access denied.")

  unfoldable pub rnto_command : Text → Handled F
  unfolding answer rename_pending
  rnto_command argument =
      if is_empty argument
      then answer f (record s { rename_source = none }) (reply_line "501 Missing destination path.")
      else rename_pending s.rename_source argument
