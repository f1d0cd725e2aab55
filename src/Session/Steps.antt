-- ===== src/Session/Steps.antt =====
-- The order of commands that a session keeps to, the login by USER and PASS and the rename by RNFR and
-- RNTO, and the commands that move it.
use hybrid_ftp.Base.{◌≡◌, refl, ◌∙◌, ◌≢◌, inl, inr, Option, none, some, [], ◌∷◌, Bool-cases}
use hybrid_ftp.Text.{Text}
use hybrid_ftp.Path.{FileSystem}
use hybrid_ftp.Path.Files.{can_rename, rename_path}
use hybrid_ftp.Session.{
  LoginState, not_logged_in, username_accepted, logged_in, SessionState, CommandEvent, Handled,
  reply_line, answer, Verb, user, pass, rnfr, rnto, stou,
}
use hybrid_ftp.Session.Account.{user_command, accept_password, pass_command}
use hybrid_ftp.Session.Storage.{rnfr_command, rename_pending, rnto_command}
use hybrid_ftp.Session.Upload.{stou_at}
use hybrid_ftp.Session.Transfers.{IsTransfer, stou_name-IsTransfer}
use hybrid_ftp.Session.Steady.{IsSteady, report-IsSteady}

-- All that the protocol remembers.
pub record Protocol : Type 0 where
  pub login : LoginState
  pub pending : Option Text

abbrev pub protocol_of : SessionState → Protocol
protocol_of s = record { login = s.login_state; pending = s.rename_source }

-- What a command may do to it. A pending rename outlives no command but an RNTO without a login.
pub data ProtocolStep (v : Verb) (p q : Protocol) : Type 0 where
  cancels : q.login ≡ p.login → q.pending ≡ none → ProtocolStep v p q
  greets : v ≡ user → q.login ≡ username_accepted → q.pending ≡ none → ProtocolStep v p q
  enters :
      v ≡ pass
      → p.login ≡ username_accepted
      → q.login ≡ logged_in
      → q.pending ≡ none
      → ProtocolStep v p q
  asks :
      (name : Text)
      → v ≡ rnfr
      → p.login ≡ logged_in
      → q.login ≡ logged_in
      → q.pending ≡ some name
      → ProtocolStep v p q
  refuses :
      v ≡ rnto
      → p.login ≢ logged_in
      → q.login ≡ p.login
      → q.pending ≡ p.pending
      → ProtocolStep v p q

abbrev pub StepTo : {F : Type 0} → Verb → SessionState → Option (Handled F) → Type 0
StepTo v s none = Unit
StepTo v s (some h) = ProtocolStep v (protocol_of s) (protocol_of h.session)

-- A steady command, once a pending rename is cancelled.
pub steady :
    {F : Type 0} (v : Verb) (s : SessionState) (h : Handled F)
    → s.rename_source ≡ none
    → IsSteady s h
    → StepTo v s (some h)
steady v s h cancelled t = cancels t.same_login (t.same_rename ∙ cancelled)

pub transferred :
    {F : Type 0} ⦃fs : FileSystem F⦄ (v : Verb) (s : SessionState) (f : F) (h : Handled F)
    → s.rename_source ≡ none
    → IsTransfer s f h
    → StepTo v s (some h)
transferred v s f h cancelled t = cancels t.alike.1 (t.alike.2 ∙ cancelled)

module _ {F : Type 0} ⦃fs : FileSystem F⦄ (e : CommandEvent) (f : F) where
  pub rnfr-step :
      (s : SessionState) (a : Text)
      → s.login_state ≡ logged_in
      → s.rename_source ≡ none
      → StepTo rnfr s (some (rnfr_command f s a))
  unfolding rnfr_command answer
  rnfr-step s [] login cancelled = cancels refl cancelled
  rnfr-step s (c ∷ cs) login cancelled = elim (Bool-cases (can_rename f s.path_manager (c ∷ cs))) [
    | inl good ↦ rw good (asks (c ∷ cs) refl login login refl)
    | inr bad ↦ rw bad (cancels refl cancelled)
  ]

  pending-step :
      (s : SessionState) (a : Text) (o : Option Text)
      → StepTo rnto s (some (rename_pending f s o a))
  unfolding rename_pending answer
  pending-step s a none = cancels refl refl
  pending-step s a (some old) =
      let t =
        report-IsSteady (rename_path f s.path_manager old a).1
          (rename_path f s.path_manager old a).0 (record s { rename_source = none })
          (record s { rename_source = none }) (reply_line "250 Rename successful.")
          (reply_line "550 Rename failed or access denied.") refl refl in
      cancels t.same_login t.same_rename

  pub rnto-step : (s : SessionState) (a : Text) → StepTo rnto s (some (rnto_command f s a))
  unfolding rnto_command answer
  rnto-step s [] = cancels refl refl
  rnto-step s (c ∷ cs) = pending-step s (c ∷ cs) s.rename_source

  pub stou-step :
      (s : SessionState) (o : Option Text)
      → s.rename_source ≡ none
      → StepTo stou s (stou_at e f s o)
  unfolding stou_at
  stou-step s none cancelled = tt
  stou-step s (some name) cancelled =
      let t = stou_name-IsTransfer e f s name [] in cancels t.alike.1 (t.alike.2 ∙ cancelled)

  pub user-step :
      (s : SessionState) (a : Text)
      → s.rename_source ≡ none
      → StepTo user s (some (user_command f s a))
  unfolding user_command answer
  user-step s [] c = cancels refl c
  user-step s (x ∷ xs) c = greets refl refl c

  accept-step :
      (s : SessionState) (l : LoginState)
      → s.login_state ≡ l
      → s.rename_source ≡ none
      → StepTo pass s (some (accept_password f s l))
  unfolding accept_password answer
  accept-step s not_logged_in l c = cancels refl c
  accept-step s username_accepted l c = enters refl l refl c
  accept-step s logged_in l c = cancels refl c

  pub pass-step :
      (s : SessionState) (a : Text)
      → s.rename_source ≡ none
      → StepTo pass s (some (pass_command f s a))
  unfolding pass_command answer
  pass-step s [] c = cancels refl c
  pass-step s (x ∷ xs) c = accept-step s s.login_state refl c
