-- ===== src/Session/Commands.antt =====
-- src/server/Session.cpp: `handle_command`, from the command line to the handler of its name.
use hybrid_ftp.Base.{Bool, true, false, not, Option, none, some, if◌then◌else◌}
use hybrid_ftp.Text.{Text}
use hybrid_ftp.Parser.{parse}
use hybrid_ftp.Path.{FileSystem}
use hybrid_ftp.Session.{
  LoginState, not_logged_in, username_accepted, logged_in, SessionState, CommandEvent, Handled,
  reply_line, answer, Verb, quit, noop, user, pass, type, mode, port, pasv, pwd, rmd, cwd, cdup,
  mkd, list, nlst, stat, size, mdtm, help, dele, rnfr, rnto, retr, stor, stou, appe, hash, abor,
  verb_of,
}
use hybrid_ftp.Session.Help.{help_text}
use hybrid_ftp.Session.Account.{
  quit_command, noop_command, user_command, pass_command, type_command, mode_command,
}
use hybrid_ftp.Session.Channel.{port_command, pasv_command, abor_command}
use hybrid_ftp.Session.Storage.{
  pwd_command, rmd_command, cwd_command, cdup_command, mkd_command, list_command, nlst_command,
  stat_command, size_command, mdtm_command, dele_command, rnfr_command, rnto_command,
}
use hybrid_ftp.Session.Download.{retr_command, hash_command}
use hybrid_ftp.Session.Upload.{stor_command, stou_command}

unfoldable pub is_rnto : Verb → Bool
is_rnto rnto = true
is_rnto _ = false

-- Any command but RNTO cancels a pending rename.
unfoldable pub cancel_rename : Verb → SessionState → SessionState
unfolding is_rnto
cancel_rename v s = if is_rnto v then s else record s { rename_source = none }

module _ {F : Type 0} ⦃fs : FileSystem F⦄ (e : CommandEvent) (f : F) where
  -- The commands that need a login; `none` only if STOU has no file name within its rounds.
  unfoldable pub logged_in_command : SessionState → Verb → Text → Option (Handled F)
  unfolding type_command mode_command port_command pasv_command pwd_command rmd_command cwd_command
      cdup_command mkd_command list_command nlst_command stat_command size_command mdtm_command
      help_text dele_command rnfr_command rnto_command abor_command answer retr_command stor_command
      stou_command hash_command
  logged_in_command s type a = some (type_command f s a)
  logged_in_command s mode a = some (mode_command f s a)
  logged_in_command s port a = some (port_command f e s a)
  logged_in_command s pasv a = some (pasv_command f e s)
  logged_in_command s pwd a = some (pwd_command f s a)
  logged_in_command s rmd a = some (rmd_command f s a)
  logged_in_command s cwd a = some (cwd_command f s a)
  logged_in_command s cdup a = some (cdup_command f s a)
  logged_in_command s mkd a = some (mkd_command f s a)
  logged_in_command s list a = some (list_command f s e a)
  logged_in_command s nlst a = some (nlst_command f s e a)
  logged_in_command s stat a = some (stat_command f s a)
  logged_in_command s size a = some (size_command f s a)
  logged_in_command s mdtm a = some (mdtm_command f s a)
  logged_in_command s help a = some (answer f s (help_text a))
  logged_in_command s dele a = some (dele_command f s a)
  logged_in_command s rnfr a = some (rnfr_command f s a)
  logged_in_command s rnto a = some (rnto_command f s a)
  logged_in_command s abor a = some (abor_command f s)
  logged_in_command s retr a = some (retr_command e f s a)
  logged_in_command s stor a = some (stor_command e f s false a)
  logged_in_command s stou a = stou_command e f s a
  logged_in_command s appe a = some (stor_command e f s true a)
  logged_in_command s hash a = some (hash_command e f s a)
  logged_in_command s _ a = some (answer f s (reply_line "502 Command not implemented."))

  unfoldable pub check_login : SessionState → Verb → Text → LoginState → Option (Handled F)
  unfolding logged_in_command answer
  check_login s v a not_logged_in = some (answer f s (reply_line "530 Not logged in."))
  check_login s v a username_accepted = some (answer f s (reply_line "530 Not logged in."))
  check_login s v a logged_in = logged_in_command s v a

  unfoldable pub dispatch : SessionState → Verb → Text → Option (Handled F)
  unfolding quit_command noop_command user_command pass_command check_login
  dispatch s quit a = some (quit_command f s a)
  dispatch s noop a = some (noop_command f s a)
  dispatch s user a = some (user_command f s a)
  dispatch s pass a = some (pass_command f s a)
  dispatch s v a = check_login s v a s.login_state

  unfoldable pub handle_command : SessionState → Text → Option (Handled F)
  unfolding parse cancel_rename dispatch verb_of answer
  handle_command s line =
      let c = parse line in
      let v = verb_of c.name in
      if not c.valid
      then some (answer f (record s { rename_source = none }) (reply_line "500 Invalid command."))
      else dispatch (cancel_rename v s) v c.argument
