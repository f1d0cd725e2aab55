-- ===== src/Session/Protocol.antt =====
-- That a session as a whole is a run of the protocol.
use hybrid_ftp.Base.{◌≡◌, refl, Bool, true, false, Option, none, some, List, [], ◌∷◌, if◌then◌else◌}
use hybrid_ftp.Text.{Text}
use hybrid_ftp.Path.{FileSystem}
use hybrid_ftp.Session.{SessionState, CommandEvent, Handled}
use hybrid_ftp.Session.Commands.{handle_command}
use hybrid_ftp.Session.Authentication.{verb_in}
use hybrid_ftp.Session.Loop.{
  LineRead, waiting, no_line, got_line, c_string, Turn, ended, Served, halt, behind, go_on,
  serve_line, session_loop,
}
use hybrid_ftp.Session.Steps.{Protocol, protocol_of, ProtocolStep}
use hybrid_ftp.Session.Dispatch.{handle_command-step}

-- The steps of some command lines, one after another.
pub data ProtocolTrace : Protocol → List Text → Protocol → Type 0 where
  no_lines : (p q : Protocol) → q.login ≡ p.login → q.pending ≡ p.pending → ProtocolTrace p [] q
  one_line :
      (line : Text) (lines : List Text) (p q r : Protocol)
      → ProtocolStep (verb_in line) p q
      → ProtocolTrace q lines r
      → ProtocolTrace p (line ∷ lines) r

module _ {F : Type 0} ⦃fs : FileSystem F⦄ where
  abbrev TracesFrom : (F → SessionState → Served F) → Type 0
  TracesFrom rest =
      (f : F) (s : SessionState)
      → ProtocolTrace (protocol_of s) (rest f s).lines (protocol_of (rest f s).session)

  quits-trace :
      (b : Bool) (s : SessionState) (line : Text) (h : Handled F)
      (rest : F → SessionState → Served F)
      → ProtocolStep (verb_in line) (protocol_of s) (protocol_of h.session)
      → TracesFrom rest
      → ProtocolTrace
          (protocol_of s)
          (behind line h (if b then halt h.files h.session ended else rest h.files h.session)).lines
          (protocol_of
            (behind line h
              (if b then halt h.files h.session ended else rest h.files h.session)).session)
  unfolding behind halt
  quits-trace true s line h rest t k =
      one_line line [] (protocol_of s) (protocol_of h.session) _ t (no_lines _ _ refl refl)
  quits-trace false s line h rest t k =
      one_line line _ (protocol_of s) (protocol_of h.session) _ t (k h.files h.session)

  go_on-trace :
      (e : CommandEvent) (f : F) (s : SessionState) (line : Text) (o : Option (Handled F))
      (rest : F → SessionState → Served F)
      → handle_command e f s line ≡ o
      → TracesFrom rest
      → ProtocolTrace
          (protocol_of s)
          (go_on f s line o rest).lines
          (protocol_of (go_on f s line o rest).session)
  unfolding go_on halt
  go_on-trace e f s line none rest handled k = no_lines _ _ refl refl
  go_on-trace e f s line (some h) rest handled k =
      quits-trace h.quits s line h rest (handle_command-step e f s line h handled) k

  serve_line-trace :
      (e : CommandEvent) (f : F) (s : SessionState) (l : LineRead)
      (rest : F → SessionState → Served F)
      → TracesFrom rest
      → ProtocolTrace
          (protocol_of s)
          (serve_line f s e l rest).lines
          (protocol_of (serve_line f s e l rest).session)
  unfolding serve_line halt
  serve_line-trace e f s waiting rest k = no_lines _ _ refl refl
  serve_line-trace e f s (no_line es) rest k = no_lines _ _ refl refl
  serve_line-trace e f s (got_line [] es) rest k = k f s
  serve_line-trace e f s (got_line (c ∷ cs) es) rest k =
      go_on-trace e f s (c_string (c ∷ cs)) _ rest refl k

  -- Every session is a run of the protocol. Each line that is handled is one step: it leaves the login as
  -- it is and cancels a pending rename, or it is USER and the name is accepted, or PASS behind an
  -- accepted USER and it logs in, or RNFR in a session that is logged in and a rename is pending, or
  -- RNTO without a login, which changes nothing.
  pub session_loop-trace :
      (turns : List Turn) (f : F) (s : SessionState)
      → ProtocolTrace
          (protocol_of s)
          (session_loop f s turns).lines
          (protocol_of (session_loop f s turns).session)
  unfolding session_loop halt
  session_loop-trace [] f s = no_lines _ _ refl refl
  session_loop-trace (r ∷ rs) f s =
      serve_line-trace r.event f s _ _ (λ f' s'. session_loop-trace rs f' s')
