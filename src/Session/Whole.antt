-- ===== src/Session/Whole.antt =====
-- That a client's session as a whole stays inside the root, and that a client that gives no password
-- gets nothing.
use hybrid_ftp.Base.{
  ◌≡◌, refl, ◌∙◌, ◌≢◌, Bool, true, false, Option, none, some, List, [], ◌∷◌, if◌then◌else◌, All,
}
use hybrid_ftp.Text.{Text}
use hybrid_ftp.Path.{FileSystem, PathManager, is_inside_root}
use hybrid_ftp.Path.Confined.{
  IsConfined, untouched, created, removed, renamed, written, prepared, ConfinedCalls, no_calls,
  more_calls,
}
use hybrid_ftp.Session.{logged_in, SessionState, CommandEvent, Handled, pass}
use hybrid_ftp.Session.Commands.{handle_command}
use hybrid_ftp.Session.Authentication.{LogsInBy, verb_in, handle_command-IsGuarded}
use hybrid_ftp.Session.Confined.{IsKept}
use hybrid_ftp.Session.Safety.{handle_command-IsKept}
use hybrid_ftp.Session.Loop.{
  LineRead, waiting, no_line, got_line, c_string, Turn, Progress, serving, ended, out_of_rounds,
  Served, halt, behind, go_on, serve_line, session_loop,
}

module _ {F : Type 0} ⦃fs : FileSystem F⦄ where
  -- Whether a path is inside the root is a matter of the root alone.
  IsConfined-root :
      (m m' : PathManager) (f f' : F)
      → m'.root_directory ≡ m.root_directory
      → IsConfined m' f f'
      → IsConfined m f f'
  unfolding is_inside_root
  IsConfined-root m m' f f' e untouched = untouched
  IsConfined-root m m' f f' e (created p h) = created p (rw e at h)
  IsConfined-root m m' f f' e (removed p h) = removed p (rw e at h)
  IsConfined-root m m' f f' e (renamed p q h k) = renamed p q (rw e at h) (rw e at k)
  IsConfined-root m m' f f' e (written p bytes append h) = written p bytes append (rw e at h)
  IsConfined-root m m' f f' e (prepared p h) = prepared p (rw e at h)

  ConfinedCalls-append :
      (m m' : PathManager) (f f' f'' : F)
      → m'.root_directory ≡ m.root_directory
      → ConfinedCalls m f f'
      → ConfinedCalls m' f' f''
      → ConfinedCalls m f f''
  ConfinedCalls-append m m' f f' f'' e c no_calls = c
  ConfinedCalls-append m m' f f' f'' e c (more_calls {f' = g} cs last) =
      more_calls (ConfinedCalls-append m m' f f' g e c cs) (IsConfined-root m m' g f'' e last)

  -- What a session has done to the files and to its place in the storage.
  pub record IsKeptTo (s : SessionState) (f : F) (r : Served F) : Type 0 where
    pub confined : ConfinedCalls s.path_manager f r.files
    pub same_root : r.session.path_manager.root_directory ≡ s.path_manager.root_directory
    pub inside :
        is_inside_root r.session.path_manager r.session.path_manager.current_directory ≡ true

  halt-IsKeptTo :
      (f : F) (s : SessionState) (p : Progress)
      → is_inside_root s.path_manager s.path_manager.current_directory ≡ true
      → IsKeptTo s f (halt f s p)
  unfolding halt
  halt-IsKeptTo f s p i = record { confined = no_calls; same_root = refl; inside = i }

  -- A handled command, and what follows it.
  behind-IsKeptTo :
      (f : F) (s : SessionState) (line : Text) (h : Handled F) (r : Served F)
      → IsKept f s h
      → IsKeptTo h.session h.files r
      → IsKeptTo s f (behind line h r)
  unfolding behind
  behind-IsKeptTo f s line h r k t = record {
    confined =
        ConfinedCalls-append s.path_manager h.session.path_manager f h.files r.files k.same_root
          k.confined t.confined;
    same_root = t.same_root ∙ k.same_root;
    inside = t.inside;
  }

  quits-IsKeptTo :
      (b : Bool) (f : F) (s : SessionState) (line : Text) (h : Handled F) (r : Served F)
      → IsKept f s h
      → IsKeptTo h.session h.files r
      → IsKeptTo s f (behind line h (if b then halt h.files h.session ended else r))
  quits-IsKeptTo true f s line h r k t =
      behind-IsKeptTo f s line h _ k (halt-IsKeptTo h.files h.session ended k.inside)
  quits-IsKeptTo false f s line h r k t = behind-IsKeptTo f s line h r k t

  -- What follows is kept in the root wherever it starts from inside.
  abbrev IsKeptBehind : (F → SessionState → Served F) → Type 0
  IsKeptBehind rest =
      (f : F) (s : SessionState)
      → is_inside_root s.path_manager s.path_manager.current_directory ≡ true
      → IsKeptTo s f (rest f s)

  go_on-IsKeptTo :
      (e : CommandEvent) (f : F) (s : SessionState) (line : Text) (o : Option (Handled F))
      (rest : F → SessionState → Served F)
      → handle_command e f s line ≡ o
      → is_inside_root s.path_manager s.path_manager.current_directory ≡ true
      → IsKeptBehind rest
      → IsKeptTo s f (go_on f s line o rest)
  unfolding go_on
  go_on-IsKeptTo e f s line none rest same_one i k = halt-IsKeptTo f s out_of_rounds i
  go_on-IsKeptTo e f s line (some h) rest same_one i k =
      let kept : IsKept f s h = handle_command-IsKept e f s line h i same_one in
      quits-IsKeptTo h.quits f s line h (rest h.files h.session) kept
        (k h.files h.session kept.inside)

  serve_line-IsKeptTo :
      (e : CommandEvent) (f : F) (s : SessionState) (l : LineRead)
      (rest : F → SessionState → Served F)
      → is_inside_root s.path_manager s.path_manager.current_directory ≡ true
      → IsKeptBehind rest
      → IsKeptTo s f (serve_line f s e l rest)
  unfolding serve_line
  serve_line-IsKeptTo e f s waiting rest i k = halt-IsKeptTo f s serving i
  serve_line-IsKeptTo e f s (no_line es) rest i k = halt-IsKeptTo f s ended i
  serve_line-IsKeptTo e f s (got_line [] es) rest i k = k f s i
  serve_line-IsKeptTo e f s (got_line (c ∷ cs) es) rest i k =
      go_on-IsKeptTo e f s (c_string (c ∷ cs)) _ rest refl i k

  -- However long a session goes on, and whatever its client sends: the root stays as it was, the current
  -- directory stays inside it, and the files are changed by calls only whose paths are lexically inside
  -- the root, or that make the directories which hold such a path.
  pub session_loop-IsKeptTo :
      (turns : List Turn) (f : F) (s : SessionState)
      → is_inside_root s.path_manager s.path_manager.current_directory ≡ true
      → IsKeptTo s f (session_loop f s turns)
  unfolding session_loop
  session_loop-IsKeptTo [] f s i = halt-IsKeptTo f s serving i
  session_loop-IsKeptTo (r ∷ rs) f s i =
      serve_line-IsKeptTo r.event f s _ _ i (λ f' s' i'. session_loop-IsKeptTo rs f' s' i')

  -- A session that had no effect: the files are as they were, nothing but replies was sent, and nobody
  -- is logged in.
  pub record IsLockedOut (f : F) (r : Served F) : Type 0 where
    pub same_files : r.files ≡ f
    pub nothing_sent : r.sent ≡ []
    pub locked : r.session.login_state ≢ logged_in

  halt-IsLockedOut :
      (f : F) (s : SessionState) (p : Progress)
      → s.login_state ≢ logged_in
      → IsLockedOut f (halt f s p)
  unfolding halt
  halt-IsLockedOut f s p l = record { same_files = refl; nothing_sent = refl; locked = l }

  behind-IsLockedOut :
      (f : F) (line : Text) (h : Handled F) (r : Served F)
      → h.files ≡ f
      → h.sent ≡ []
      → IsLockedOut h.files r
      → IsLockedOut f (behind line h r)
  unfolding behind
  behind-IsLockedOut f line h r files sent t = record {
    same_files = t.same_files ∙ files;
    nothing_sent = rw (sent, t.nothing_sent) refl;
    locked = t.locked;
  }

  -- The lines of a run that follows have no password.
  abbrev NoPassword : Served F → Type 0
  NoPassword r = All (λ line. verb_in line ≢ pass) r.lines

  abbrev IsLockedBehind : (F → SessionState → Served F) → Type 0
  IsLockedBehind rest =
      (f : F) (s : SessionState)
      → s.login_state ≢ logged_in
      → NoPassword (rest f s)
      → IsLockedOut f (rest f s)

  quits-IsLockedOut :
      (b : Bool) (f : F) (line : Text) (h : Handled F) (rest : F → SessionState → Served F)
      → h.files ≡ f
      → h.sent ≡ []
      → (verb_in line ≢ pass → h.session.login_state ≢ logged_in)
      → IsLockedBehind rest
      → NoPassword
          (behind line h (if b then halt h.files h.session ended else rest h.files h.session))
      → IsLockedOut f
          (behind line h (if b then halt h.files h.session ended else rest h.files h.session))
  unfolding behind
  quits-IsLockedOut true f line h rest files sent out k (p, ps) =
      behind-IsLockedOut f line h _ files sent (halt-IsLockedOut h.files h.session ended (out p))
  quits-IsLockedOut false f line h rest files sent out k (p, ps) =
      behind-IsLockedOut f line h _ files sent (k h.files h.session (out p) ps)

  go_on-IsLockedOut :
      (e : CommandEvent) (f : F) (s : SessionState) (line : Text)
      (rest : F → SessionState → Served F)
      → IsLockedBehind rest
      → s.login_state ≢ logged_in
      → NoPassword (go_on f s line (handle_command e f s line) rest)
      → IsLockedOut f (go_on f s line (handle_command e f s line) rest)
  unfolding go_on LogsInBy
  go_on-IsLockedOut e f s line rest k l =
      let (h, (handled, (safe, (login, answered)))) = handle_command-IsGuarded e f s line l in
      rw handled (
        quits-IsLockedOut h.quits f line h rest safe.same_files safe.nothing_sent
          (λ other logs_in. other (login logs_in).0) k)

  serve_line-IsLockedOut :
      (e : CommandEvent) (f : F) (s : SessionState) (l : LineRead)
      (rest : F → SessionState → Served F)
      → IsLockedBehind rest
      → s.login_state ≢ logged_in
      → NoPassword (serve_line f s e l rest)
      → IsLockedOut f (serve_line f s e l rest)
  unfolding serve_line
  serve_line-IsLockedOut e f s waiting rest k l p = halt-IsLockedOut f s serving l
  serve_line-IsLockedOut e f s (no_line es) rest k l p = halt-IsLockedOut f s ended l
  serve_line-IsLockedOut e f s (got_line [] es) rest k l p = k f s l p
  serve_line-IsLockedOut e f s (got_line (c ∷ cs) es) rest k l p =
      go_on-IsLockedOut e f s (c_string (c ∷ cs)) rest k l p

  -- A client that is not logged in and whose lines have no PASS has no effect, whatever else it sends: at
  -- the end of the session the files are as they were, no buffer has been sent to any address, and
  -- the session is not logged in.
  pub session_loop-IsLockedOut :
      (turns : List Turn) (f : F) (s : SessionState)
      → s.login_state ≢ logged_in
      → All (λ line. verb_in line ≢ pass) (session_loop f s turns).lines
      → IsLockedOut f (session_loop f s turns)
  unfolding session_loop
  session_loop-IsLockedOut [] f s l p = halt-IsLockedOut f s serving l
  session_loop-IsLockedOut (r ∷ rs) f s l p =
      serve_line-IsLockedOut r.event f s _ _
        (λ f' s' l' p'. session_loop-IsLockedOut rs f' s' l' p') l p
