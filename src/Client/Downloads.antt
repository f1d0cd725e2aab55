-- ===== src/Client/Downloads.antt =====
-- src/client/ClientCLI.cpp: `handleRetr` and `handleList`.
use hybrid_ftp.Base.{ℕ, Bool, not, Option, none, some, List, [], ◌∷◌, ◌++◌, ◌==◌, if◌then◌else◌}
use hybrid_ftp.Codec.{Decoded, ok, decode}
use hybrid_ftp.Text.{Text, text, is_empty}
use hybrid_ftp.Client.{ClientState, ClientEvent, Answered, shows, starts}
use hybrid_ftp.Client.Transfers.{
  Target, Aimed, aims, gives_up, aim, asked_for, knock_of, abort_noted, failed_text, decode_problem,
  final_text, with_socket,
}

-- A download from its opening reply on: what is behind `receiveBuffer` is `store`.
unfoldable pub receive_with :
    ClientState
    → ClientEvent
    → Text
    → Text
    → Answered
    → (Answered → Decoded → Answered)
    → Option (List ℕ)
    → Answered
unfolding decode failed_text
receive_with c e opening failure a store none = record a {
  shown = failed_text c.abort_command_sent e opening (opening ++ failure);
}
receive_with c e opening failure a store (some bytes) =
    store a (decode bytes c.client_mode c.client_type)

-- What RETR does with the decoded bytes. Whether the file keeps them all is not looked at.
unfoldable pub save_file : ClientEvent → Text → Text → Answered → Decoded → Answered
unfolding final_text decode_problem
save_file e opening local a (ok bytes) = elim e.output_file [
  | none ↦ record a { shown = text "Error: Cannot create local file: " ++ local }
  | some keeps ↦ record a {
    shown = final_text opening e.first_reply;
    written = record { name = local; bytes = keeps bytes } ∷ [];
  }
]
save_file e opening local a other = record a {
  shown = opening ++ text "\nError: MODE decode failed: " ++ decode_problem other;
}

-- The listing ends with a newline in front of the last reply.
pub end_line : Text → Text
end_line [] = []
end_line (c ∷ []) = if c == 10 then c ∷ [] else c ∷ 10 ∷ []
end_line (c ∷ d ∷ cs) = c ∷ end_line (d ∷ cs)

pub show_listing : ClientEvent → Text → Answered → Decoded → Answered
unfolding end_line decode_problem
show_listing e opening a (ok bytes) = record a {
  shown =
      opening
      ++ 10 ∷ end_line bytes
      ++ (if is_empty e.first_reply
          then text "Error: Missing final server reply.\n"
          else e.first_reply);
}
show_listing e opening a other = record a {
  shown = opening ++ text "\nError: MODE decode failed: " ++ decode_problem other;
}

-- A download behind its socket: the knock, the command and the transfer. `asked` is what the message
-- about a missing reply calls the command.
unfoldable pub download_over :
    ClientState
    → ClientEvent
    → Target
    → Text
    → Text
    → Text
    → (Text → Answered → Decoded → Answered)
    → Answered
unfolding shows asked_for knock_of receive_with abort_noted starts
download_over c e t line asked failure keep =
    let opening = e.answers line in
    let base = record (shows c (asked_for t.is_active line) []) { knocked = knock_of t } in
    if is_empty opening
    then record base { shown = text "Error: No reply to " ++ asked }
    else if not (starts (text "150") opening)
    then record base { shown = opening }
    else receive_with (abort_noted c e) e opening failure (record base { after = abort_noted c e })
        (keep opening) e.downloaded

-- `handleRetr` without the line that tells what was sent to it.
unfoldable pub retr_aimed : ClientState → ClientEvent → Text → Text → Aimed → Answered
unfolding with_socket download_over save_file
retr_aimed c e remote local (gives_up a) = a
retr_aimed c e remote local (aims t) = with_socket c t.is_active (text "PASV" ∷ []) e.socket_error (
    download_over c e t (text "RETR " ++ remote) (text "RETR") (text "\nError: RDT receive failed")
      (λ opening a d. save_file e opening local a d))

unfoldable pub handle_retr : ClientState → ClientEvent → Text → Text → Answered
unfolding retr_aimed aim
handle_retr c e remote local =
    retr_aimed c e remote local
      (aim c e (text "Error: Cannot parse PASV reply: " ++ e.answers (text "PASV")))

pub list_line : Text → Bool → Text
list_line path names_only =
    let name = if names_only then text "NLST" else text "LIST" in
    if is_empty path then name else name ++ 32 ∷ path

pub list_aimed : ClientState → ClientEvent → Text → Aimed → Answered
unfolding with_socket download_over show_listing
list_aimed c e line (gives_up a) = a
list_aimed c e line (aims t) = with_socket c t.is_active (text "PASV" ∷ []) e.socket_error (
    download_over c e t line line (text "\nError: Directory transfer failed.")
      (λ opening a d. show_listing e opening a d))

unfoldable pub handle_list : ClientState → ClientEvent → Text → Bool → Answered
unfolding list_aimed list_line aim
handle_list c e path names_only =
    list_aimed c e (list_line path names_only) (aim c e (text "Error: Cannot parse PASV reply."))
