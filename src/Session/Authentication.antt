-- ===== src/Session/Authentication.antt =====
-- What a client can do before it has logged in.
use hybrid_ftp.Base.{
  ◌≡◌, refl, ◌≢◌, Bool, true, false, not, Option, none, some, List, [], ◌∷◌, if◌then◌else◌,
}
use hybrid_ftp.Text.{Text}
use hybrid_ftp.Parser.{parse}
use hybrid_ftp.Path.{FileSystem}
use hybrid_ftp.Session.{
  LoginState, not_logged_in, username_accepted, logged_in, SessionState, CommandEvent, Handled,
  reply_line, answer, Verb, quit, noop, user, pass, type, mode, port, pasv, pwd, rmd, cwd, cdup,
  mkd, list, nlst, stat, size, mdtm, help, dele, rnfr, rnto, retr, stor, stou, appe, hash, abor,
  unknown, verb_of,
}
use hybrid_ftp.Session.Account.{
  quit_command, noop_command, user_command, accept_password, pass_command,
}
use hybrid_ftp.Session.Commands.{is_rnto, cancel_rename, check_login, dispatch, handle_command}

-- The files, what a transfer uses and the place in the storage are as they were, and nothing is sent
-- but replies.
pub record IsHarmless {F : Type 0} (f : F) (s : SessionState) (h : Handled F) : Type 0 where
  pub same_files : h.files ≡ f
  pub nothing_sent : h.sent ≡ []
  pub same_place : h.session.path_manager ≡ s.path_manager
  pub same_data_mode : h.session.data_mode ≡ s.data_mode
  pub same_socket : h.session.passive_socket ≡ s.passive_socket

-- A login happens at PASS behind an accepted USER only.
unfoldable pub LogsInBy : {F : Type 0} → SessionState → Verb → Handled F → Type 0
LogsInBy s v h =
    h.session.login_state ≡ logged_in → (v ≡ pass) × (s.login_state ≡ username_accepted)

-- What the reply before the login says: of a line that is no command, of the four commands that need no
-- login, and of all the others.
unfoldable pub Says : Bool → Verb → Text → Type 0
Says false v r = r ≡ reply_line "500 Invalid command."
Says true quit r = Unit
Says true noop r = Unit
Says true user r = Unit
Says true pass r = Unit
Says true v r = r ≡ reply_line "530 Not logged in."

-- One reply, and what it says.
unfoldable pub IsAnswered : {F : Type 0} → Bool → Verb → Handled F → Type 0
IsAnswered valid v h = (r : Text) × ((h.replies ≡ r ∷ []) × Says valid v r)

-- What is promised of a command before the login.
abbrev pub IsGuarded : {F : Type 0} → F → SessionState → Bool → Verb → Option (Handled F) → Type 0
IsGuarded {F} f s valid v o =
    (h : Handled F) × ((o ≡ some h) × (IsHarmless f s h × (LogsInBy s v h × IsAnswered valid v h)))

-- Replies to a session that keeps what a transfer uses.
harmless :
    {F : Type 0} (f : F) (s s' : SessionState) (rs : List Text) (q : Bool)
    → s'.path_manager ≡ s.path_manager
    → s'.data_mode ≡ s.data_mode
    → s'.passive_socket ≡ s.passive_socket
    → IsHarmless f s (record { files = f; session = s'; replies = rs; sent = []; quits = q })
harmless f s s' rs q place data_mode socket = record {
  same_files = refl;
  nothing_sent = refl;
  same_place = place;
  same_data_mode = data_mode;
  same_socket = socket;
}

module _ {F : Type 0} (f : F) (s : SessionState) (valid : Bool) (v : Verb) where
  -- A reply that leaves the session as it is.
  answer-IsGuarded :
      (r : Text)
      → Says valid v r
      → s.login_state ≢ logged_in
      → IsGuarded f s valid v (some (answer f s r))
  unfolding answer LogsInBy IsAnswered
  answer-IsGuarded r says h = (
    answer f s r,
    (refl, (harmless f s _ _ _ refl refl refl, ((λ e. absurd (h e)), (r, (refl, says))))),
  )

module _ {F : Type 0} (f : F) (s : SessionState) where
  quit-IsGuarded :
      (a : Text) → s.login_state ≢ logged_in → IsGuarded f s true quit (some (quit_command f s a))
  unfolding quit_command answer LogsInBy IsAnswered Says
  quit-IsGuarded [] h = (
    record (answer f s (reply_line "221 Goodbye.")) { quits = true },
    (refl, (harmless f s _ _ _ refl refl refl, ((λ e. absurd (h e)), (_, (refl, tt))))),
  )
  quit-IsGuarded (c ∷ cs) h = answer-IsGuarded f s true quit _ tt h

  noop-IsGuarded :
      (a : Text) → s.login_state ≢ logged_in → IsGuarded f s true noop (some (noop_command f s a))
  unfolding noop_command Says
  noop-IsGuarded [] h = answer-IsGuarded f s true noop _ tt h
  noop-IsGuarded (c ∷ cs) h = answer-IsGuarded f s true noop _ tt h

  user-IsGuarded :
      (a : Text) → s.login_state ≢ logged_in → IsGuarded f s true user (some (user_command f s a))
  unfolding user_command answer LogsInBy IsAnswered Says
  user-IsGuarded [] h = answer-IsGuarded f s true user _ tt h
  user-IsGuarded (c ∷ cs) h =
      (_, (refl, (harmless f s _ _ _ refl refl refl, ((λ e. cc), (_, (refl, tt))))))

  accept-IsGuarded :
      (l : LoginState)
      → s.login_state ≡ l
      → s.login_state ≢ logged_in
      → IsGuarded f s true pass (some (accept_password f s l))
  unfolding accept_password answer LogsInBy IsAnswered Says
  accept-IsGuarded not_logged_in e h = answer-IsGuarded f s true pass _ tt h
  accept-IsGuarded username_accepted e h =
      (_, (refl, (harmless f s _ _ _ refl refl refl, ((λ e'. (refl, e)), (_, (refl, tt))))))
  accept-IsGuarded logged_in e h = absurd (h e)

  pass-IsGuarded :
      (a : Text) → s.login_state ≢ logged_in → IsGuarded f s true pass (some (pass_command f s a))
  unfolding pass_command Says
  pass-IsGuarded [] h = answer-IsGuarded f s true pass _ tt h
  pass-IsGuarded (c ∷ cs) h = accept-IsGuarded s.login_state refl h

module _ {F : Type 0} ⦃fs : FileSystem F⦄ (e : CommandEvent) (f : F) (s : SessionState) where
  check_login-IsGuarded :
      (v : Verb) (a : Text) (l : LoginState)
      → Says true v (reply_line "530 Not logged in.")
      → s.login_state ≡ l
      → s.login_state ≢ logged_in
      → IsGuarded f s true v (check_login e f s v a l)
  unfolding check_login
  check_login-IsGuarded v a not_logged_in says e' h = answer-IsGuarded f s true v _ says h
  check_login-IsGuarded v a username_accepted says e' h = answer-IsGuarded f s true v _ says h
  check_login-IsGuarded v a logged_in says e' h = absurd (h e')

  dispatch-IsGuarded :
      (v : Verb) (a : Text) → s.login_state ≢ logged_in → IsGuarded f s true v (dispatch e f s v a)
  unfolding dispatch Says
  dispatch-IsGuarded quit a h = quit-IsGuarded f s a h
  dispatch-IsGuarded noop a h = noop-IsGuarded f s a h
  dispatch-IsGuarded user a h = user-IsGuarded f s a h
  dispatch-IsGuarded pass a h = pass-IsGuarded f s a h
  dispatch-IsGuarded type a h = check_login-IsGuarded type a s.login_state refl refl h
  dispatch-IsGuarded mode a h = check_login-IsGuarded mode a s.login_state refl refl h
  dispatch-IsGuarded port a h = check_login-IsGuarded port a s.login_state refl refl h
  dispatch-IsGuarded pasv a h = check_login-IsGuarded pasv a s.login_state refl refl h
  dispatch-IsGuarded pwd a h = check_login-IsGuarded pwd a s.login_state refl refl h
  dispatch-IsGuarded rmd a h = check_login-IsGuarded rmd a s.login_state refl refl h
  dispatch-IsGuarded cwd a h = check_login-IsGuarded cwd a s.login_state refl refl h
  dispatch-IsGuarded cdup a h = check_login-IsGuarded cdup a s.login_state refl refl h
  dispatch-IsGuarded mkd a h = check_login-IsGuarded mkd a s.login_state refl refl h
  dispatch-IsGuarded list a h = check_login-IsGuarded list a s.login_state refl refl h
  dispatch-IsGuarded nlst a h = check_login-IsGuarded nlst a s.login_state refl refl h
  dispatch-IsGuarded stat a h = check_login-IsGuarded stat a s.login_state refl refl h
  dispatch-IsGuarded size a h = check_login-IsGuarded size a s.login_state refl refl h
  dispatch-IsGuarded mdtm a h = check_login-IsGuarded mdtm a s.login_state refl refl h
  dispatch-IsGuarded help a h = check_login-IsGuarded help a s.login_state refl refl h
  dispatch-IsGuarded dele a h = check_login-IsGuarded dele a s.login_state refl refl h
  dispatch-IsGuarded rnfr a h = check_login-IsGuarded rnfr a s.login_state refl refl h
  dispatch-IsGuarded rnto a h = check_login-IsGuarded rnto a s.login_state refl refl h
  dispatch-IsGuarded retr a h = check_login-IsGuarded retr a s.login_state refl refl h
  dispatch-IsGuarded stor a h = check_login-IsGuarded stor a s.login_state refl refl h
  dispatch-IsGuarded stou a h = check_login-IsGuarded stou a s.login_state refl refl h
  dispatch-IsGuarded appe a h = check_login-IsGuarded appe a s.login_state refl refl h
  dispatch-IsGuarded hash a h = check_login-IsGuarded hash a s.login_state refl refl h
  dispatch-IsGuarded abor a h = check_login-IsGuarded abor a s.login_state refl refl h
  dispatch-IsGuarded unknown a h = check_login-IsGuarded unknown a s.login_state refl refl h

-- The session with its pending rename cancelled is as good to start from.
cancelled-IsGuarded :
    {F : Type 0} (f : F) (s : SessionState) (valid : Bool) (v : Verb) (b : Bool)
    (o : Option (Handled F))
    → IsGuarded f (if b then s else record s { rename_source = none }) valid v o
    → IsGuarded f s valid v o
unfolding LogsInBy IsAnswered
cancelled-IsGuarded f s valid v true o g = g
cancelled-IsGuarded f s valid v false o (h, (e, (safe, (login, answered)))) = (
  h,
  (
    e,
    (
      record {
        same_files = safe.same_files;
        nothing_sent = safe.nothing_sent;
        same_place = safe.same_place;
        same_data_mode = safe.same_data_mode;
        same_socket = safe.same_socket;
      },
      (login, answered),
    ),
  ),
)

cancelled-ne-logged_in :
    (s : SessionState) (b : Bool)
    → s.login_state ≢ logged_in
    → (if b then s else record s { rename_source = none }).login_state ≢ logged_in
cancelled-ne-logged_in s true h = h
cancelled-ne-logged_in s false h = h

-- The name of a command line.
abbrev pub verb_in : Text → Verb
verb_in line = verb_of (parse line).name

module _ {F : Type 0} ⦃fs : FileSystem F⦄ (e : CommandEvent) (f : F) where
  valid-IsGuarded :
      (s : SessionState) (line : Text) (valid : Bool)
      → s.login_state ≢ logged_in
      → IsGuarded f s valid (verb_in line) (
          if not valid
          then some
              (answer f (record s { rename_source = none }) (reply_line "500 Invalid command."))
          else dispatch e f (cancel_rename (verb_in line) s) (verb_in line) (parse line).argument)
  unfolding cancel_rename Says
  valid-IsGuarded s line false h =
      cancelled-IsGuarded f s false (verb_in line) false _
        (answer-IsGuarded f (record s { rename_source = none }) false (verb_in line) _ refl h)
  valid-IsGuarded s line true h =
      cancelled-IsGuarded f s true (verb_in line) (is_rnto (verb_in line)) _ (
        dispatch-IsGuarded e f _ (verb_in line) _
          (cancelled-ne-logged_in s (is_rnto (verb_in line)) h))

  -- Before the login every command line gets one reply: 500 if it is no valid command, and 530 if it is
  -- any other than QUIT, NOOP, USER and PASS. None has an effect: the files, the current directory, the
  -- data mode and the passive socket are as they were, and no buffer is sent. The session is logged in
  -- behind the line only if the line is PASS and USER was accepted.
  pub handle_command-IsGuarded :
      (s : SessionState) (line : Text)
      → s.login_state ≢ logged_in
      → IsGuarded f s (parse line).valid (verb_in line) (handle_command e f s line)
  unfolding handle_command
  handle_command-IsGuarded s line h = valid-IsGuarded s line (parse line).valid h
