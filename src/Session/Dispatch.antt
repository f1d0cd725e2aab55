-- ===== src/Session/Dispatch.antt =====
-- That every handled command is one step of the protocol.
use hybrid_ftp.Base.{◌≡◌, refl, ◌≢◌, Bool, true, false, not, Option, none, some, if◌then◌else◌}
use hybrid_ftp.Text.{Text}
use hybrid_ftp.Parser.{parse}
use hybrid_ftp.Path.{FileSystem}
use hybrid_ftp.Session.{
  LoginState, not_logged_in, username_accepted, logged_in, SessionState, CommandEvent, Handled,
  reply_line, answer, Verb, quit, noop, user, pass, type, mode, port, pasv, pwd, rmd, cwd, cdup,
  mkd, list, nlst, stat, size, mdtm, help, dele, rnfr, rnto, retr, stor, stou, appe, hash, abor,
  unknown,
}
use hybrid_ftp.Session.Storage.{list_command, nlst_command}
use hybrid_ftp.Session.Upload.{stou_command}
use hybrid_ftp.Session.Commands.{
  is_rnto, cancel_rename, logged_in_command, check_login, dispatch, handle_command,
}
use hybrid_ftp.Session.Authentication.{verb_in}
use hybrid_ftp.Session.Transfers.{retr-IsTransfer, hash-IsTransfer, stor-IsTransfer}
use hybrid_ftp.Session.Steady.{
  quit-IsSteady, noop-IsSteady, type-IsSteady, mode-IsSteady, port-IsSteady, pasv-IsSteady,
  abor-IsSteady, listing-IsSteady, pwd-IsSteady, rmd-IsSteady, mkd-IsSteady, dele-IsSteady,
  cwd-IsSteady, cdup-IsSteady, stat-IsSteady, size-IsSteady, mdtm-IsSteady,
}
use hybrid_ftp.Session.Steps.{
  protocol_of, ProtocolStep, cancels, greets, enters, asks, refuses, StepTo, steady, transferred,
  rnfr-step, rnto-step, stou-step, user-step, pass-step,
}

module _ {F : Type 0} ⦃fs : FileSystem F⦄ (e : CommandEvent) (f : F) where
  -- The commands behind the login, but RNTO.
  logged_in-step :
      (s : SessionState) (v : Verb) (a : Text)
      → v ≢ rnto
      → s.login_state ≡ logged_in
      → s.rename_source ≡ none
      → StepTo v s (logged_in_command e f s v a)
  unfolding logged_in_command list_command nlst_command stou_command answer
  logged_in-step s type a o l c = steady type s _ c (type-IsSteady f s a)
  logged_in-step s mode a o l c = steady mode s _ c (mode-IsSteady f s a)
  logged_in-step s port a o l c = steady port s _ c (port-IsSteady f s e a)
  logged_in-step s pasv a o l c = steady pasv s _ c (pasv-IsSteady f s e)
  logged_in-step s pwd a o l c = steady pwd s _ c (pwd-IsSteady f s a)
  logged_in-step s rmd a o l c = steady rmd s _ c (rmd-IsSteady f s a)
  logged_in-step s cwd a o l c = steady cwd s _ c (cwd-IsSteady f s a)
  logged_in-step s cdup a o l c = steady cdup s _ c (cdup-IsSteady f s a)
  logged_in-step s mkd a o l c = steady mkd s _ c (mkd-IsSteady f s a)
  logged_in-step s list a o l c = steady list s _ c (listing-IsSteady f s e _ _ _)
  logged_in-step s nlst a o l c = steady nlst s _ c (listing-IsSteady f s e _ _ _)
  logged_in-step s stat a o l c = steady stat s _ c (stat-IsSteady f s a)
  logged_in-step s size a o l c = steady size s _ c (size-IsSteady f s a)
  logged_in-step s mdtm a o l c = steady mdtm s _ c (mdtm-IsSteady f s a)
  logged_in-step s help a o l c = cancels refl c
  logged_in-step s dele a o l c = steady dele s _ c (dele-IsSteady f s a)
  logged_in-step s rnfr a o l c = rnfr-step e f s a l c
  logged_in-step s rnto a o l c = absurd (o refl)
  logged_in-step s abor a o l c = steady abor s _ c (abor-IsSteady f s)
  logged_in-step s retr a o l c = transferred retr s f _ c (retr-IsTransfer e f s a)
  logged_in-step s stor a o l c = transferred stor s f _ c (stor-IsTransfer e f s false a)
  logged_in-step s stou a o l c = stou-step e f s _ c
  logged_in-step s appe a o l c = transferred appe s f _ c (stor-IsTransfer e f s true a)
  logged_in-step s hash a o l c = transferred hash s f _ c (hash-IsTransfer e f s a)
  logged_in-step s quit a o l c = cancels refl c
  logged_in-step s noop a o l c = cancels refl c
  logged_in-step s user a o l c = cancels refl c
  logged_in-step s pass a o l c = cancels refl c
  logged_in-step s unknown a o l c = cancels refl c

  check_login-step :
      (s : SessionState) (v : Verb) (a : Text) (l : LoginState)
      → v ≢ rnto
      → s.login_state ≡ l
      → s.rename_source ≡ none
      → StepTo v s (check_login e f s v a l)
  unfolding check_login answer
  check_login-step s v a not_logged_in o l c = cancels refl c
  check_login-step s v a username_accepted o l c = cancels refl c
  check_login-step s v a logged_in o l c = logged_in-step s v a o l c

  rnto_login-step :
      (s : SessionState) (a : Text) (l : LoginState)
      → s.login_state ≡ l
      → StepTo rnto s (check_login e f s rnto a l)
  unfolding check_login answer logged_in_command
  rnto_login-step s a not_logged_in l = refuses refl (λ h. cc) refl refl
  rnto_login-step s a username_accepted l = refuses refl (λ h. cc) refl refl
  rnto_login-step s a logged_in l = rnto-step e f s a

  dispatch-step :
      (s : SessionState) (v : Verb) (a : Text)
      → v ≢ rnto
      → s.rename_source ≡ none
      → StepTo v s (dispatch e f s v a)
  unfolding dispatch
  dispatch-step s quit a o c = steady quit s _ c (quit-IsSteady f s a)
  dispatch-step s noop a o c = steady noop s _ c (noop-IsSteady f s a)
  dispatch-step s user a o c = user-step e f s a c
  dispatch-step s pass a o c = pass-step e f s a c
  dispatch-step s rnto a o c = absurd (o refl)
  dispatch-step s type a o c = check_login-step s type a s.login_state o refl c
  dispatch-step s mode a o c = check_login-step s mode a s.login_state o refl c
  dispatch-step s port a o c = check_login-step s port a s.login_state o refl c
  dispatch-step s pasv a o c = check_login-step s pasv a s.login_state o refl c
  dispatch-step s pwd a o c = check_login-step s pwd a s.login_state o refl c
  dispatch-step s rmd a o c = check_login-step s rmd a s.login_state o refl c
  dispatch-step s cwd a o c = check_login-step s cwd a s.login_state o refl c
  dispatch-step s cdup a o c = check_login-step s cdup a s.login_state o refl c
  dispatch-step s mkd a o c = check_login-step s mkd a s.login_state o refl c
  dispatch-step s list a o c = check_login-step s list a s.login_state o refl c
  dispatch-step s nlst a o c = check_login-step s nlst a s.login_state o refl c
  dispatch-step s stat a o c = check_login-step s stat a s.login_state o refl c
  dispatch-step s size a o c = check_login-step s size a s.login_state o refl c
  dispatch-step s mdtm a o c = check_login-step s mdtm a s.login_state o refl c
  dispatch-step s help a o c = check_login-step s help a s.login_state o refl c
  dispatch-step s dele a o c = check_login-step s dele a s.login_state o refl c
  dispatch-step s rnfr a o c = check_login-step s rnfr a s.login_state o refl c
  dispatch-step s retr a o c = check_login-step s retr a s.login_state o refl c
  dispatch-step s stor a o c = check_login-step s stor a s.login_state o refl c
  dispatch-step s stou a o c = check_login-step s stou a s.login_state o refl c
  dispatch-step s appe a o c = check_login-step s appe a s.login_state o refl c
  dispatch-step s hash a o c = check_login-step s hash a s.login_state o refl c
  dispatch-step s abor a o c = check_login-step s abor a s.login_state o refl c
  dispatch-step s unknown a o c = check_login-step s unknown a s.login_state o refl c

  -- The cancelling itself is a part of the step.
  cancelled-step :
      (v : Verb) (s : SessionState) (o : Option (Handled F))
      → v ≢ rnto
      → StepTo v (record s { rename_source = none }) o
      → StepTo v s o
  cancelled-step v s none other t = tt
  cancelled-step v s (some h) other (cancels l p) = cancels l p
  cancelled-step v s (some h) other (greets u l p) = greets u l p
  cancelled-step v s (some h) other (enters u a l p) = enters u a l p
  cancelled-step v s (some h) other (asks name u a l p) = asks name u a l p
  cancelled-step v s (some h) other (refuses u a l p) = absurd (other u)

  other-step :
      (s : SessionState) (v : Verb) (a : Text)
      → v ≢ rnto
      → is_rnto v ≡ false
      → StepTo v s (dispatch e f (cancel_rename v s) v a)
  unfolding cancel_rename
  other-step s v a other k = rw k (
      cancelled-step v s (dispatch e f (record s { rename_source = none }) v a) other
        (dispatch-step (record s { rename_source = none }) v a other refl))

  verb-step :
      (s : SessionState) (v : Verb) (a : Text) → StepTo v s (dispatch e f (cancel_rename v s) v a)
  unfolding cancel_rename dispatch is_rnto
  verb-step s rnto a = rnto_login-step s a s.login_state refl
  verb-step s quit a = other-step s quit a (λ h. cc) refl
  verb-step s noop a = other-step s noop a (λ h. cc) refl
  verb-step s user a = other-step s user a (λ h. cc) refl
  verb-step s pass a = other-step s pass a (λ h. cc) refl
  verb-step s type a = other-step s type a (λ h. cc) refl
  verb-step s mode a = other-step s mode a (λ h. cc) refl
  verb-step s port a = other-step s port a (λ h. cc) refl
  verb-step s pasv a = other-step s pasv a (λ h. cc) refl
  verb-step s pwd a = other-step s pwd a (λ h. cc) refl
  verb-step s rmd a = other-step s rmd a (λ h. cc) refl
  verb-step s cwd a = other-step s cwd a (λ h. cc) refl
  verb-step s cdup a = other-step s cdup a (λ h. cc) refl
  verb-step s mkd a = other-step s mkd a (λ h. cc) refl
  verb-step s list a = other-step s list a (λ h. cc) refl
  verb-step s nlst a = other-step s nlst a (λ h. cc) refl
  verb-step s stat a = other-step s stat a (λ h. cc) refl
  verb-step s size a = other-step s size a (λ h. cc) refl
  verb-step s mdtm a = other-step s mdtm a (λ h. cc) refl
  verb-step s help a = other-step s help a (λ h. cc) refl
  verb-step s dele a = other-step s dele a (λ h. cc) refl
  verb-step s rnfr a = other-step s rnfr a (λ h. cc) refl
  verb-step s retr a = other-step s retr a (λ h. cc) refl
  verb-step s stor a = other-step s stor a (λ h. cc) refl
  verb-step s stou a = other-step s stou a (λ h. cc) refl
  verb-step s appe a = other-step s appe a (λ h. cc) refl
  verb-step s hash a = other-step s hash a (λ h. cc) refl
  verb-step s abor a = other-step s abor a (λ h. cc) refl
  verb-step s unknown a = other-step s unknown a (λ h. cc) refl

  valid-step :
      (s : SessionState) (line : Text) (b : Bool)
      → StepTo (verb_in line) s (
          if b
          then some
              (answer f (record s { rename_source = none }) (reply_line "500 Invalid command."))
          else dispatch e f (cancel_rename (verb_in line) s) (verb_in line) (parse line).argument)
  unfolding answer
  valid-step s line true = cancels refl refl
  valid-step s line false = verb-step s (verb_in line) _

  pub handle_command-step :
      (s : SessionState) (line : Text) (h : Handled F)
      → handle_command e f s line ≡ some h
      → ProtocolStep (verb_in line) (protocol_of s) (protocol_of h.session)
  unfolding handle_command
  handle_command-step s line h handled =
      let taken : StepTo (verb_in line) s (handle_command e f s line) =
        valid-step s line (not (parse line).valid) in
      rw handled at taken
