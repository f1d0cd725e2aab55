-- ===== src/Session/Account.antt =====
-- src/server/Session.cpp, `handle_command`: the commands that end a session, log in, and choose the
-- representation of data.
use hybrid_ftp.Base.{true, not, ◌||◌, if◌then◌else◌}
use hybrid_ftp.Codec.{ascii, binary, stream, block, compressed}
use hybrid_ftp.Text.{Text, text, same, is_empty}
use hybrid_ftp.Session.{
  LoginState, not_logged_in, username_accepted, logged_in, SessionState, Handled, reply_line,
  answer,
}

module _ {F : Type 0} (f : F) (s : SessionState) where
  unfoldable pub quit_command : Text → Handled F
  unfolding answer
  quit_command argument =
      if not (is_empty argument)
      then answer f s (reply_line "501 QUIT does not accept an argument.")
      else record (answer f s (reply_line "221 Goodbye.")) { quits = true }

  unfoldable pub noop_command : Text → Handled F
  unfolding answer
  noop_command argument =
      if not (is_empty argument)
      then answer f s (reply_line "501 NOOP does not accept an argument.")
      else answer f s (reply_line "200 NOOP command successful.")

  unfoldable pub user_command : Text → Handled F
  unfolding answer
  user_command argument =
      if is_empty argument
      then answer f s (reply_line "501 Missing username.")
      else answer f (record s { username = argument; login_state = username_accepted })
          (reply_line "331 Username OK, need password.")

  unfoldable pub accept_password : LoginState → Handled F
  unfolding answer
  accept_password not_logged_in = answer f s (reply_line "503 Login with USER first.")
  accept_password username_accepted =
      answer f (record s { login_state = logged_in }) (reply_line "230 Login successful.")
  accept_password logged_in = answer f s (reply_line "503 Login with USER first.")

  unfoldable pub pass_command : Text → Handled F
  unfolding answer accept_password
  pass_command argument =
      if is_empty argument
      then answer f s (reply_line "501 Missing password.")
      else accept_password s.login_state

  unfoldable pub type_command : Text → Handled F
  unfolding answer same
  type_command argument =
      if same argument (text "A") || same argument (text "a")
      then answer f (record s { transfer_type = ascii }) (reply_line "200 Type set to A (ASCII).")
      else if same argument (text "I") || same argument (text "i")
      then answer f (record s { transfer_type = binary }) (reply_line "200 Type set to I (Binary).")
      else answer f s (reply_line "501 TYPE requires A or I.")

  unfoldable pub mode_command : Text → Handled F
  unfolding answer same
  mode_command argument =
      if same argument (text "S") || same argument (text "s")
      then answer f (record s { transfer_mode = stream }) (reply_line "200 Mode set to S (Stream).")
      else if same argument (text "B") || same argument (text "b")
      then answer f (record s { transfer_mode = block }) (reply_line "200 Mode set to B (Block).")
      else if same argument (text "C") || same argument (text "c")
      then answer f (record s { transfer_mode = compressed })
          (reply_line "200 Mode set to C (Compressed).")
      else answer f s (reply_line "501 MODE requires S, B, or C.")
