-- ===== src/Session/Safety.antt =====
-- That the commands of a session stay inside the root.
use hybrid_ftp.Base.{◌≡◌, ap, Bool, true, false, not, Option, none, some, if◌then◌else◌}
use hybrid_ftp.Text.{Text}
use hybrid_ftp.Parser.{parse}
use hybrid_ftp.Path.{FileSystem, PathManager, is_inside_root}
use hybrid_ftp.Path.Listing.{list_directory, list_names}
use hybrid_ftp.Session.{
  LoginState, not_logged_in, username_accepted, logged_in, SessionState, CommandEvent, Handled,
  reply_line, answer, Verb, quit, noop, user, pass, type, mode, port, pasv, pwd, rmd, cwd, cdup,
  mkd, list, nlst, stat, size, mdtm, help, dele, rnfr, rnto, retr, stor, stou, appe, hash, abor,
  unknown,
}
use hybrid_ftp.Session.Help.{help_text}
use hybrid_ftp.Session.Storage.{list_command, nlst_command}
use hybrid_ftp.Session.Upload.{stou_at, stou_command}
use hybrid_ftp.Session.Commands.{
  is_rnto, cancel_rename, logged_in_command, check_login, dispatch, handle_command,
}
use hybrid_ftp.Session.Authentication.{verb_in}
use hybrid_ftp.Session.Confined.{
  quit-IsQuiet, noop-IsQuiet, user-IsQuiet, type-IsQuiet, mode-IsQuiet, pasv-IsQuiet, abor-IsQuiet,
  pass-IsQuiet, port-IsQuiet, listing-IsQuiet, IsKept, IsQuiet-IsKept, refused-IsKept, rmd-IsKept,
  mkd-IsKept, dele-IsKept, cwd-IsKept, cdup-IsKept, rnfr-IsQuiet, rnto-IsKept, pwd-IsKept,
  stat-IsKept, size-IsKept, mdtm-IsKept,
}
use hybrid_ftp.Session.Transfers.{
  IsTransfer, retr-IsTransfer, hash-IsTransfer, stor-IsTransfer, stou_name-IsTransfer,
}

-- What is promised of the outcome of a command, where the model has one.
abbrev pub KeptBy :
    {F : Type 0} → ⦃fs : FileSystem F⦄ → F → SessionState → Option (Handled F) → Type 0
KeptBy f s none = Unit
KeptBy f s (some h) = IsKept f s h

module _ {F : Type 0} ⦃fs : FileSystem F⦄ (e : CommandEvent) (f : F) where
  IsTransfer-IsKept :
      (s : SessionState) (h : Handled F)
      → is_inside_root s.path_manager s.path_manager.current_directory ≡ true
      → IsTransfer s f h
      → IsKept f s h
  IsTransfer-IsKept s h i t = record {
    confined = t.confined;
    same_root = ap (λ (m : PathManager). m.root_directory) t.alike.0;
    inside = rw t.alike.0 i;
  }

  stou-KeptBy :
      (s : SessionState)
      → is_inside_root s.path_manager s.path_manager.current_directory ≡ true
      → (o : Option Text) → KeptBy f s (stou_at e f s o)
  unfolding stou_at
  stou-KeptBy s i none = tt
  stou-KeptBy s i (some name) = IsTransfer-IsKept s _ i (stou_name-IsTransfer e f s name _)

  logged_in-KeptBy :
      (s : SessionState) (v : Verb) (a : Text)
      → is_inside_root s.path_manager s.path_manager.current_directory ≡ true
      → KeptBy f s (logged_in_command e f s v a)
  unfolding logged_in_command list_command nlst_command stou_command
  logged_in-KeptBy s type a i = IsQuiet-IsKept f s _ i (type-IsQuiet f s a)
  logged_in-KeptBy s mode a i = IsQuiet-IsKept f s _ i (mode-IsQuiet f s a)
  logged_in-KeptBy s port a i = IsQuiet-IsKept f s _ i (port-IsQuiet f s e a)
  logged_in-KeptBy s pasv a i = IsQuiet-IsKept f s _ i (pasv-IsQuiet f s e)
  logged_in-KeptBy s pwd a i = pwd-IsKept f s i a
  logged_in-KeptBy s rmd a i = rmd-IsKept f s i a
  logged_in-KeptBy s cwd a i = cwd-IsKept f s i a
  logged_in-KeptBy s cdup a i = cdup-IsKept f s i a
  logged_in-KeptBy s mkd a i = mkd-IsKept f s i a
  logged_in-KeptBy s list a i =
      IsQuiet-IsKept f s _ i (listing-IsQuiet f s e _ _ (list_directory f s.path_manager a))
  logged_in-KeptBy s nlst a i =
      IsQuiet-IsKept f s _ i (listing-IsQuiet f s e _ _ (list_names f s.path_manager a))
  logged_in-KeptBy s stat a i = stat-IsKept f s i a
  logged_in-KeptBy s size a i = size-IsKept f s i a
  logged_in-KeptBy s mdtm a i = mdtm-IsKept f s i a
  logged_in-KeptBy s help a i = refused-IsKept f s i (help_text a)
  logged_in-KeptBy s dele a i = dele-IsKept f s i a
  logged_in-KeptBy s rnfr a i = IsQuiet-IsKept f s _ i (rnfr-IsQuiet f s i a)
  logged_in-KeptBy s rnto a i = rnto-IsKept f s i a
  logged_in-KeptBy s abor a i = IsQuiet-IsKept f s _ i (abor-IsQuiet f s)
  logged_in-KeptBy s retr a i = IsTransfer-IsKept s _ i (retr-IsTransfer e f s a)
  logged_in-KeptBy s stor a i = IsTransfer-IsKept s _ i (stor-IsTransfer e f s false a)
  logged_in-KeptBy s stou a i = stou-KeptBy s i _
  logged_in-KeptBy s appe a i = IsTransfer-IsKept s _ i (stor-IsTransfer e f s true a)
  logged_in-KeptBy s hash a i = IsTransfer-IsKept s _ i (hash-IsTransfer e f s a)
  logged_in-KeptBy s quit a i = refused-IsKept f s i _
  logged_in-KeptBy s noop a i = refused-IsKept f s i _
  logged_in-KeptBy s user a i = refused-IsKept f s i _
  logged_in-KeptBy s pass a i = refused-IsKept f s i _
  logged_in-KeptBy s unknown a i = refused-IsKept f s i _

  check_login-KeptBy :
      (s : SessionState) (v : Verb) (a : Text) (l : LoginState)
      → is_inside_root s.path_manager s.path_manager.current_directory ≡ true
      → KeptBy f s (check_login e f s v a l)
  unfolding check_login
  check_login-KeptBy s v a not_logged_in i = refused-IsKept f s i _
  check_login-KeptBy s v a username_accepted i = refused-IsKept f s i _
  check_login-KeptBy s v a logged_in i = logged_in-KeptBy s v a i

  dispatch-KeptBy :
      (s : SessionState) (v : Verb) (a : Text)
      → is_inside_root s.path_manager s.path_manager.current_directory ≡ true
      → KeptBy f s (dispatch e f s v a)
  unfolding dispatch
  dispatch-KeptBy s quit a i = IsQuiet-IsKept f s _ i (quit-IsQuiet f s a)
  dispatch-KeptBy s noop a i = IsQuiet-IsKept f s _ i (noop-IsQuiet f s a)
  dispatch-KeptBy s user a i = IsQuiet-IsKept f s _ i (user-IsQuiet f s a)
  dispatch-KeptBy s pass a i = IsQuiet-IsKept f s _ i (pass-IsQuiet f s a)
  dispatch-KeptBy s type a i = check_login-KeptBy s type a s.login_state i
  dispatch-KeptBy s mode a i = check_login-KeptBy s mode a s.login_state i
  dispatch-KeptBy s port a i = check_login-KeptBy s port a s.login_state i
  dispatch-KeptBy s pasv a i = check_login-KeptBy s pasv a s.login_state i
  dispatch-KeptBy s pwd a i = check_login-KeptBy s pwd a s.login_state i
  dispatch-KeptBy s rmd a i = check_login-KeptBy s rmd a s.login_state i
  dispatch-KeptBy s cwd a i = check_login-KeptBy s cwd a s.login_state i
  dispatch-KeptBy s cdup a i = check_login-KeptBy s cdup a s.login_state i
  dispatch-KeptBy s mkd a i = check_login-KeptBy s mkd a s.login_state i
  dispatch-KeptBy s list a i = check_login-KeptBy s list a s.login_state i
  dispatch-KeptBy s nlst a i = check_login-KeptBy s nlst a s.login_state i
  dispatch-KeptBy s stat a i = check_login-KeptBy s stat a s.login_state i
  dispatch-KeptBy s size a i = check_login-KeptBy s size a s.login_state i
  dispatch-KeptBy s mdtm a i = check_login-KeptBy s mdtm a s.login_state i
  dispatch-KeptBy s help a i = check_login-KeptBy s help a s.login_state i
  dispatch-KeptBy s dele a i = check_login-KeptBy s dele a s.login_state i
  dispatch-KeptBy s rnfr a i = check_login-KeptBy s rnfr a s.login_state i
  dispatch-KeptBy s rnto a i = check_login-KeptBy s rnto a s.login_state i
  dispatch-KeptBy s abor a i = check_login-KeptBy s abor a s.login_state i
  dispatch-KeptBy s retr a i = check_login-KeptBy s retr a s.login_state i
  dispatch-KeptBy s stor a i = check_login-KeptBy s stor a s.login_state i
  dispatch-KeptBy s stou a i = check_login-KeptBy s stou a s.login_state i
  dispatch-KeptBy s appe a i = check_login-KeptBy s appe a s.login_state i
  dispatch-KeptBy s hash a i = check_login-KeptBy s hash a s.login_state i
  dispatch-KeptBy s unknown a i = check_login-KeptBy s unknown a s.login_state i

  -- A cancelled rename has no part in what is promised.
  cancelled-KeptBy :
      (s : SessionState) (b : Bool) (o : Option (Handled F))
      → KeptBy f (if b then s else record s { rename_source = none }) o
      → KeptBy f s o
  cancelled-KeptBy s true o k = k
  cancelled-KeptBy s false none k = tt
  cancelled-KeptBy s false (some h) k = record {
    confined = k.confined;
    same_root = k.same_root;
    inside = k.inside;
  }

  cancelled-inside :
      (s : SessionState) (b : Bool)
      → is_inside_root s.path_manager s.path_manager.current_directory ≡ true
      → is_inside_root
          (if b then s else record s { rename_source = none }).path_manager
          (if b then s else record s { rename_source = none }).path_manager.current_directory
        ≡ true
  cancelled-inside s true i = i
  cancelled-inside s false i = i

  valid-KeptBy :
      (s : SessionState) (line : Text) (b : Bool)
      → is_inside_root s.path_manager s.path_manager.current_directory ≡ true
      → KeptBy f s (
          if b
          then some
              (answer f (record s { rename_source = none }) (reply_line "500 Invalid command."))
          else dispatch e f (cancel_rename (verb_in line) s) (verb_in line) (parse line).argument)
  unfolding cancel_rename
  valid-KeptBy s line true i =
      cancelled-KeptBy s false (some (answer f (record s { rename_source = none }) _))
        (refused-IsKept f (record s { rename_source = none }) i _)
  valid-KeptBy s line false i =
      cancelled-KeptBy s (is_rnto (verb_in line)) _
        (dispatch-KeptBy _ (verb_in line) _ (cancelled-inside s (is_rnto (verb_in line)) i))

  handle_command-KeptBy :
      (s : SessionState) (line : Text)
      → is_inside_root s.path_manager s.path_manager.current_directory ≡ true
      → KeptBy f s (handle_command e f s line)
  unfolding handle_command
  handle_command-KeptBy s line i = valid-KeptBy s line (not (parse line).valid) i

  -- In a session whose current directory is inside the root, a handled command line leaves the root as
  -- it was and the current directory inside it. It changes the files by calls of the file system only
  -- whose paths are lexically inside the root, or that make the directories which hold such a path.
  pub handle_command-IsKept :
      (s : SessionState) (line : Text) (h : Handled F)
      → is_inside_root s.path_manager s.path_manager.current_directory ≡ true
      → handle_command e f s line ≡ some h
      → IsKept f s h
  handle_command-IsKept s line h i handled =
      let kept : KeptBy f s (handle_command e f s line) = handle_command-KeptBy s line i in
      rw handled at kept
