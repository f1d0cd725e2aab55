-- ===== src/Client/Uploads.antt =====
-- src/client/ClientCLI.cpp: `handleStor`, for STOR, STOU and APPE.
use hybrid_ftp.Base.{
  ℕ, Bool, true, not, ◌&&◌, Option, none, some, List, [], ◌∷◌, ◌++◌, ltb, if◌then◌else◌,
}
use hybrid_ftp.Codec.{encode}
use hybrid_ftp.Header.{header_size}
use hybrid_ftp.Text.{Text, text, is_empty}
use hybrid_ftp.Client.{ClientState, ClientEvent, Answered, shows, starts}
use hybrid_ftp.Client.Transfers.{
  Target, Aimed, aims, gives_up, aim, asked_for, abort_noted, failed_text, final_text, with_socket,
}

pub stor_line : Text → Bool → Bool → Text
stor_line remote unique append =
    if unique
    then (if is_empty remote then text "STOU" else text "STOU " ++ remote)
    else if append
    then text "APPE " ++ remote
    else text "STOR " ++ remote

-- The destination: an active server says where it is by its knock.
pub destination : Target → ClientEvent → Option Target
destination t e =
    if t.is_active
    then elim e.opening [
      | none ↦ none
      | some k ↦
          if ltb k.size header_size
          then none
          else some (record { is_active = true; ip = k.ip; port = k.port })
    ]
    else some t

-- The transfer of the file's bytes, and the last reply.
pub send_bytes : ClientState → ClientEvent → Text → Answered → List ℕ → Target → Answered
unfolding encode failed_text final_text
send_bytes c e opening a bytes t =
    let a' = record a {
      after = c;
      given = record { ip = t.ip; port = t.port; buffer = encode bytes c.client_mode } ∷ [];
    } in
    if e.uploaded_well then record a' { shown = final_text opening e.first_reply } else record a' {
      shown =
          failed_text c.abort_command_sent e opening
            (text "Error: RDT send failed (cwnd=" ++ e.final_window ++ text ")");
    }

pub send_to : ClientState → ClientEvent → Text → Answered → List ℕ → Option Target → Answered
unfolding send_bytes abort_noted
send_to c e opening a bytes none = record a { shown = text "Error: Active data handshake failed." }
send_to c e opening a bytes (some t) = send_bytes (abort_noted c e) e opening a bytes t

pub upload_over : ClientState → ClientEvent → Target → Text → List ℕ → Answered
unfolding shows asked_for starts with_socket send_to destination
upload_over c e t line bytes =
    let opening = e.answers line in
    let asked = asked_for t.is_active line in
    if is_empty opening
    then shows c asked (text "Error: No reply to " ++ line)
    else if not (starts (text "150") opening) && not (starts (text "125") opening)
    then shows c asked opening
    else with_socket c t.is_active asked e.socket_error
        (send_to c e opening (shows c asked []) bytes (destination t e))

pub stor_aimed : ClientState → ClientEvent → Text → List ℕ → Aimed → Answered
unfolding upload_over
stor_aimed c e line bytes (gives_up a) = a
stor_aimed c e line bytes (aims t) = upload_over c e t line bytes

-- The local file is read before anything is asked.
pub stor_file : ClientState → ClientEvent → Text → Text → Option (Option (List ℕ)) → Answered
unfolding stor_aimed aim shows
stor_file c e local line none = shows c [] (text "Error: Local file not found: " ++ local)
stor_file c e local line (some none) = shows c [] (text "Error: Cannot read local file: " ++ local)
stor_file c e local line (some (some bytes)) =
    stor_aimed c e line bytes
      (aim c e (text "Error: Cannot parse PASV reply: " ++ e.answers (text "PASV")))

unfoldable pub handle_stor : ClientState → ClientEvent → Text → Text → Bool → Bool → Answered
unfolding stor_file stor_line
handle_stor c e local remote unique append =
    stor_file c e local (stor_line remote unique append) e.local_file
