-- ===== src/Session/Steady.antt =====
-- The commands that leave the login and the pending rename as they are.
use hybrid_ftp.Base.{
  ◌≡◌, refl, Bool, true, false, not, Option, none, some, [], ◌∷◌, arith, if◌then◌else◌,
}
use hybrid_ftp.Text.{Text}
use hybrid_ftp.Path.{FileSystem}
use hybrid_ftp.Path.Directories.{create_directory, remove_directory}
use hybrid_ftp.Path.Files.{delete_file}
use hybrid_ftp.Session.{SessionState, PortNumbers, CommandEvent, Handled, reply_line, answer}
use hybrid_ftp.Session.Account.{quit_command, noop_command, type_command, mode_command}
use hybrid_ftp.Session.Channel.{
  set_active, close_passive, refuse_channel, send_passive, send_over, send_text, is_mode_none,
  use_numbers, port_command, pasv_command, abor_command, finish_listing, listing_command,
}
use hybrid_ftp.Session.Storage.{
  report, report_text, pwd_command, rmd_command, cwd_command, cdup_command, mkd_command,
  stat_command, size_command, mdtm_command, dele_command,
}

module _ {F : Type 0} where
  -- The login and the pending rename are those of `s`.
  pub record IsSteady (s : SessionState) (h : Handled F) : Type 0 where
    pub same_login : h.session.login_state ≡ s.login_state
    pub same_rename : h.session.rename_source ≡ s.rename_source

  if-IsSteady :
      (s : SessionState) (b : Bool) (x y : Handled F)
      → IsSteady s x
      → IsSteady s y
      → IsSteady s (if b then x else y)
  if-IsSteady s true x y hx hy = hx
  if-IsSteady s false x y hx hy = hy

  pub answer-IsSteady :
      (f : F) (s s' : SessionState) (r : Text)
      → s'.login_state ≡ s.login_state
      → s'.rename_source ≡ s.rename_source
      → IsSteady s (answer f s' r)
  unfolding answer
  answer-IsSteady f s s' r login rename = record { same_login = login; same_rename = rename }

  pub report-IsSteady :
      (b : Bool) (f : F) (s s' : SessionState) (good bad : Text)
      → s'.login_state ≡ s.login_state
      → s'.rename_source ≡ s.rename_source
      → IsSteady s (report b f s' good bad)
  unfolding report
  report-IsSteady b f s s' good bad login rename =
      if-IsSteady s b _ _ (answer-IsSteady f s s' good login rename)
        (answer-IsSteady f s s' bad login rename)

  report_text-IsSteady :
      (o : Option Text) (f : F) (s : SessionState) (bad : Text) → IsSteady s (report_text o f s bad)
  unfolding report_text
  report_text-IsSteady none f s bad = answer-IsSteady f s s bad refl refl
  report_text-IsSteady (some t) f s bad = answer-IsSteady f s s t refl refl

module _ {F : Type 0} (f : F) (s : SessionState) where
  pub quit-IsSteady : (a : Text) → IsSteady s (quit_command f s a)
  unfolding quit_command answer
  quit-IsSteady a = record { same_login = ground arith; same_rename = ground arith }

  pub noop-IsSteady : (a : Text) → IsSteady s (noop_command f s a)
  unfolding noop_command answer
  noop-IsSteady a = record { same_login = ground arith; same_rename = ground arith }

  pub type-IsSteady : (a : Text) → IsSteady s (type_command f s a)
  unfolding type_command answer
  type-IsSteady a = record { same_login = ground arith; same_rename = ground arith }

  pub mode-IsSteady : (a : Text) → IsSteady s (mode_command f s a)
  unfolding mode_command answer
  mode-IsSteady a = record { same_login = ground arith; same_rename = ground arith }

  numbers-IsSteady : (o : Option PortNumbers) → IsSteady s (use_numbers f s o)
  unfolding use_numbers set_active answer
  numbers-IsSteady o = record { same_login = ground arith; same_rename = ground arith }

  pub port-IsSteady : (e : CommandEvent) (a : Text) → IsSteady s (port_command f e s a)
  unfolding port_command
  port-IsSteady e [] = answer-IsSteady f s s _ refl refl
  port-IsSteady e (c ∷ cs) = numbers-IsSteady e.scanned

  pub pasv-IsSteady : (e : CommandEvent) → IsSteady s (pasv_command f e s)
  unfolding pasv_command answer
  pasv-IsSteady e = record { same_login = ground arith; same_rename = ground arith }

  pub abor-IsSteady : IsSteady s (abor_command f s)
  unfolding abor_command close_passive
  abor-IsSteady = record { same_login = refl; same_rename = refl }

  send_text-steady :
      (e : CommandEvent) (content : Text)
      → ((send_text e s content).after.login_state ≡ s.login_state)
        × ((send_text e s content).after.rename_source ≡ s.rename_source)
  unfolding send_text send_over send_passive close_passive refuse_channel
  send_text-steady e content = (ground arith, ground arith)

  pub listing-IsSteady :
      (e : CommandEvent) (refusal opening : Text) (o : Option Text)
      → IsSteady s (listing_command f e s refusal opening o)
  unfolding listing_command finish_listing
  listing-IsSteady e refusal opening none = answer-IsSteady f s s refusal refl refl
  listing-IsSteady e refusal opening (some content) =
      if-IsSteady s (is_mode_none s.data_mode) _ _ (answer-IsSteady f s s _ refl refl) (
        if-IsSteady s (not e.reply_sent) _ _ (answer-IsSteady f s s _ refl refl) (record {
          same_login = (send_text-steady e content).0;
          same_rename = (send_text-steady e content).1;
        }))

module _ {F : Type 0} ⦃fs : FileSystem F⦄ (f : F) (s : SessionState) where
  pub pwd-IsSteady : (a : Text) → IsSteady s (pwd_command f s a)
  unfolding pwd_command
  pwd-IsSteady [] = answer-IsSteady f s s _ refl refl
  pwd-IsSteady (c ∷ cs) = answer-IsSteady f s s _ refl refl

  pub rmd-IsSteady : (a : Text) → IsSteady s (rmd_command f s a)
  unfolding rmd_command
  rmd-IsSteady [] = answer-IsSteady f s s _ refl refl
  rmd-IsSteady (c ∷ cs) =
      let result = remove_directory f s.path_manager (c ∷ cs) in
      report-IsSteady result.1 result.0 s s (reply_line "250 Directory removed successfully.")
        (reply_line "550 Cannot remove directory.") refl refl

  pub mkd-IsSteady : (a : Text) → IsSteady s (mkd_command f s a)
  unfolding mkd_command
  mkd-IsSteady [] = answer-IsSteady f s s _ refl refl
  mkd-IsSteady (c ∷ cs) =
      let result = create_directory f s.path_manager (c ∷ cs) in
      report-IsSteady result.1 result.0 s s (reply_line "257 Directory created successfully.")
        (reply_line "550 Cannot create directory.") refl refl

  pub dele-IsSteady : (a : Text) → IsSteady s (dele_command f s a)
  unfolding dele_command
  dele-IsSteady [] = answer-IsSteady f s s _ refl refl
  dele-IsSteady (c ∷ cs) =
      let result = delete_file f s.path_manager (c ∷ cs) in
      report-IsSteady result.1 result.0 s s (reply_line "250 File deleted successfully.")
        (reply_line "550 File unavailable or access denied.") refl refl

  pub cwd-IsSteady : (a : Text) → IsSteady s (cwd_command f s a)
  unfolding cwd_command
  cwd-IsSteady [] = answer-IsSteady f s s _ refl refl
  cwd-IsSteady (c ∷ cs) = report-IsSteady _ f s _ _ _ refl refl

  pub cdup-IsSteady : (a : Text) → IsSteady s (cdup_command f s a)
  unfolding cdup_command
  cdup-IsSteady [] = report-IsSteady _ f s _ _ _ refl refl
  cdup-IsSteady (c ∷ cs) = answer-IsSteady f s s _ refl refl

  pub stat-IsSteady : (a : Text) → IsSteady s (stat_command f s a)
  unfolding stat_command
  stat-IsSteady [] = answer-IsSteady f s s _ refl refl
  stat-IsSteady (c ∷ cs) = report_text-IsSteady _ f s _

  pub size-IsSteady : (a : Text) → IsSteady s (size_command f s a)
  unfolding size_command
  size-IsSteady [] = answer-IsSteady f s s _ refl refl
  size-IsSteady (c ∷ cs) = report_text-IsSteady _ f s _

  pub mdtm-IsSteady : (a : Text) → IsSteady s (mdtm_command f s a)
  unfolding mdtm_command
  mdtm-IsSteady [] = answer-IsSteady f s s _ refl refl
  mdtm-IsSteady (c ∷ cs) = report_text-IsSteady _ f s _
