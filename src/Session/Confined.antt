-- ===== src/Session/Confined.antt =====
-- What a command does to the files and to the place in the storage.
use hybrid_ftp.Base.{◌≡◌, refl, ap, Bool, true, false, Option, none, some, [], ◌∷◌, arith}
use hybrid_ftp.Text.{Text}
use hybrid_ftp.Path.{FileSystem, PathManager, is_inside_root}
use hybrid_ftp.Path.Confined.{
  IsConfined, untouched, ConfinedCalls, no_calls, more_calls, Confines, create_directory-Confines,
  remove_directory-Confines, delete_file-Confines, rename_path-Confines, KeepsRoot,
  change_directory-KeepsRoot, change_to_parent-KeepsRoot,
}
use hybrid_ftp.Session.{LoginState, SessionState, PortNumbers, CommandEvent, Handled, answer}
use hybrid_ftp.Session.Account.{
  quit_command, noop_command, user_command, accept_password, pass_command, type_command,
  mode_command,
}
use hybrid_ftp.Session.Channel.{
  set_active, close_passive, refuse_channel, send_passive, send_text, use_numbers, port_command,
  pasv_command, abor_command, finish_listing, listing_command,
}
use hybrid_ftp.Session.Storage.{
  report, report_text, pwd_command, rmd_command, cwd_command, cdup_command, mkd_command,
  stat_command, size_command, mdtm_command, dele_command, rnfr_command, rename_pending,
  rnto_command,
}

-- The files and the path manager are as they were.
pub record IsQuiet {F : Type 0} (f : F) (s : SessionState) (h : Handled F) : Type 0 where
  pub same_files : h.files ≡ f
  pub same_place : h.session.path_manager ≡ s.path_manager

module _ {F : Type 0} (f : F) (s : SessionState) where
  answer-IsQuiet : (r : Text) → IsQuiet f s (answer f s r)
  unfolding answer
  answer-IsQuiet r = record { same_files = refl; same_place = refl }

  pub quit-IsQuiet : (a : Text) → IsQuiet f s (quit_command f s a)
  unfolding quit_command answer
  quit-IsQuiet a = record { same_files = ground arith; same_place = ground arith }

  pub noop-IsQuiet : (a : Text) → IsQuiet f s (noop_command f s a)
  unfolding noop_command answer
  noop-IsQuiet a = record { same_files = ground arith; same_place = ground arith }

  pub user-IsQuiet : (a : Text) → IsQuiet f s (user_command f s a)
  unfolding user_command answer
  user-IsQuiet a = record { same_files = ground arith; same_place = ground arith }

  accept-IsQuiet : (l : LoginState) → IsQuiet f s (accept_password f s l)
  unfolding accept_password answer
  accept-IsQuiet l = record { same_files = ground arith; same_place = ground arith }

  pub type-IsQuiet : (a : Text) → IsQuiet f s (type_command f s a)
  unfolding type_command answer
  type-IsQuiet a = record { same_files = ground arith; same_place = ground arith }

  pub mode-IsQuiet : (a : Text) → IsQuiet f s (mode_command f s a)
  unfolding mode_command answer
  mode-IsQuiet a = record { same_files = ground arith; same_place = ground arith }

  numbers-IsQuiet : (o : Option PortNumbers) → IsQuiet f s (use_numbers f s o)
  unfolding use_numbers set_active answer
  numbers-IsQuiet o = record { same_files = ground arith; same_place = ground arith }

  pub pasv-IsQuiet : (e : CommandEvent) → IsQuiet f s (pasv_command f e s)
  unfolding pasv_command answer
  pasv-IsQuiet e = record { same_files = ground arith; same_place = ground arith }

  pub abor-IsQuiet : IsQuiet f s (abor_command f s)
  unfolding abor_command
  abor-IsQuiet = record { same_files = ground arith; same_place = ground arith }

  pub pass-IsQuiet : (a : Text) → IsQuiet f s (pass_command f s a)
  unfolding pass_command
  pass-IsQuiet [] = answer-IsQuiet _
  pass-IsQuiet (c ∷ cs) = accept-IsQuiet s.login_state

  pub port-IsQuiet : (e : CommandEvent) (a : Text) → IsQuiet f s (port_command f e s a)
  unfolding port_command
  port-IsQuiet e [] = answer-IsQuiet _
  port-IsQuiet e (c ∷ cs) = numbers-IsQuiet e.scanned

  report_text-IsQuiet : (o : Option Text) (bad : Text) → IsQuiet f s (report_text o f s bad)
  unfolding report_text
  report_text-IsQuiet none bad = answer-IsQuiet bad
  report_text-IsQuiet (some t) bad = answer-IsQuiet t

  send_text-place :
      (e : CommandEvent) (content : Text)
      → (send_text e s content).after.path_manager ≡ s.path_manager
  unfolding send_text send_passive close_passive refuse_channel
  send_text-place e content = ground arith

  pub listing-IsQuiet :
      (e : CommandEvent) (refusal opening : Text) (o : Option Text)
      → IsQuiet f s (listing_command f e s refusal opening o)
  unfolding listing_command finish_listing answer
  listing-IsQuiet e refusal opening none = answer-IsQuiet refusal
  listing-IsQuiet e refusal opening (some content) = record {
    same_files = ground arith;
    same_place = ground (arith, send_text-place e content);
  }

-- The root is the same, the current directory is inside it, and the files were changed by calls
-- inside it only.
pub record IsKept {F : Type 0} ⦃fs : FileSystem F⦄ (f : F) (s : SessionState) (h : Handled F)
    : Type 0 where
  pub confined : ConfinedCalls s.path_manager f h.files
  pub same_root : h.session.path_manager.root_directory ≡ s.path_manager.root_directory
  pub inside : is_inside_root h.session.path_manager h.session.path_manager.current_directory ≡ true

module _ {F : Type 0} ⦃fs : FileSystem F⦄ (f : F) (s : SessionState) where
  pub IsQuiet-IsKept :
      (h : Handled F)
      → is_inside_root s.path_manager s.path_manager.current_directory ≡ true
      → IsQuiet f s h
      → IsKept f s h
  IsQuiet-IsKept h inside q = record {
    confined = rw q.same_files no_calls;
    same_root = ap (λ (m : PathManager). m.root_directory) q.same_place;
    inside = rw q.same_place inside;
  }

  report-IsKept :
      (done : Bool) (f' : F) (s' : SessionState) (good bad : Text)
      → IsConfined s.path_manager f f'
      → s'.path_manager.root_directory ≡ s.path_manager.root_directory
      → is_inside_root s'.path_manager s'.path_manager.current_directory ≡ true
      → IsKept f s (report done f' s' good bad)
  unfolding report answer
  report-IsKept true f' s' good bad c r i = record {
    confined = more_calls no_calls c;
    same_root = r;
    inside = i;
  }
  report-IsKept false f' s' good bad c r i = record {
    confined = more_calls no_calls c;
    same_root = r;
    inside = i;
  }

  -- The commands on the storage, for a current directory inside the root.
  module _ (i : is_inside_root s.path_manager s.path_manager.current_directory ≡ true) where
    pub refused-IsKept : (r : Text) → IsKept f s (answer f s r)
    refused-IsKept r = IsQuiet-IsKept (answer f s r) i (answer-IsQuiet f s r)

    pub rmd-IsKept : (a : Text) → IsKept f s (rmd_command f s a)
    unfolding rmd_command Confines
    rmd-IsKept [] = refused-IsKept _
    rmd-IsKept (c ∷ cs) =
        report-IsKept _ _ s _ _ (remove_directory-Confines f s.path_manager (c ∷ cs)) refl i

    pub mkd-IsKept : (a : Text) → IsKept f s (mkd_command f s a)
    unfolding mkd_command Confines
    mkd-IsKept [] = refused-IsKept _
    mkd-IsKept (c ∷ cs) =
        report-IsKept _ _ s _ _ (create_directory-Confines f s.path_manager (c ∷ cs)) refl i

    pub dele-IsKept : (a : Text) → IsKept f s (dele_command f s a)
    unfolding dele_command Confines
    dele-IsKept [] = refused-IsKept _
    dele-IsKept (c ∷ cs) =
        report-IsKept _ _ s _ _ (delete_file-Confines f s.path_manager (c ∷ cs)) refl i

    pub cwd-IsKept : (a : Text) → IsKept f s (cwd_command f s a)
    unfolding cwd_command KeepsRoot
    cwd-IsKept [] = refused-IsKept _
    cwd-IsKept (c ∷ cs) =
        let (root, inside) = change_directory-KeepsRoot f s.path_manager (c ∷ cs) i in
        report-IsKept _ f _ _ _ untouched root inside

    pub cdup-IsKept : (a : Text) → IsKept f s (cdup_command f s a)
    unfolding cdup_command KeepsRoot
    cdup-IsKept [] =
        let (root, inside) = change_to_parent-KeepsRoot f s.path_manager i in
        report-IsKept _ f _ _ _ untouched root inside
    cdup-IsKept (c ∷ cs) = refused-IsKept _

    pub rnfr-IsQuiet : (a : Text) → IsQuiet f s (rnfr_command f s a)
    unfolding rnfr_command answer
    rnfr-IsQuiet [] = answer-IsQuiet f s _
    rnfr-IsQuiet (c ∷ cs) = record { same_files = ground arith; same_place = ground arith }

    pending-IsKept : (o : Option Text) (a : Text) → IsKept f s (rename_pending f s o a)
    unfolding rename_pending Confines answer
    pending-IsKept none a = record { confined = no_calls; same_root = refl; inside = i }
    pending-IsKept (some old) a =
        report-IsKept _ _ _ _ _ (rename_path-Confines f s.path_manager old a) refl i

    pub rnto-IsKept : (a : Text) → IsKept f s (rnto_command f s a)
    unfolding rnto_command answer
    rnto-IsKept [] = record { confined = no_calls; same_root = refl; inside = i }
    rnto-IsKept (c ∷ cs) = pending-IsKept s.rename_source (c ∷ cs)

    pub pwd-IsKept : (a : Text) → IsKept f s (pwd_command f s a)
    unfolding pwd_command
    pwd-IsKept [] = refused-IsKept _
    pwd-IsKept (c ∷ cs) = refused-IsKept _

    pub stat-IsKept : (a : Text) → IsKept f s (stat_command f s a)
    unfolding stat_command
    stat-IsKept [] = refused-IsKept _
    stat-IsKept (c ∷ cs) = IsQuiet-IsKept _ i (report_text-IsQuiet f s _ _)

    pub size-IsKept : (a : Text) → IsKept f s (size_command f s a)
    unfolding size_command
    size-IsKept [] = refused-IsKept _
    size-IsKept (c ∷ cs) = IsQuiet-IsKept _ i (report_text-IsQuiet f s _ _)

    pub mdtm-IsKept : (a : Text) → IsKept f s (mdtm_command f s a)
    unfolding mdtm_command
    mdtm-IsKept [] = refused-IsKept _
    mdtm-IsKept (c ∷ cs) = IsQuiet-IsKept _ i (report_text-IsQuiet f s _ _)
