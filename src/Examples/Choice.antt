-- ===== src/Examples/Choice.antt =====
-- TYPE at a concrete input, on both sides.
use hybrid_ftp.Base.{◌≡◌, refl, inl, true, false, none, some, List, [], ◌∷◌, ◌++◌, All}
use hybrid_ftp.Codec.{ascii, binary, stream}
use hybrid_ftp.Text.{text}
use hybrid_ftp.Path.{FilePath}
use hybrid_ftp.Session.{Handled, reply_line}
use hybrid_ftp.Session.Commands.{handle_command}
use hybrid_ftp.Client.{passive_side, ClientState, ClientEvent}
use hybrid_ftp.Client.Replies.{recv_reply}
use hybrid_ftp.Client.Words.{is_space}
use hybrid_ftp.Client.Commands.{line_turn}
use hybrid_ftp.Client.Lines.{all_arriving}
use hybrid_ftp.Client.Choice.{Agrees}
use hybrid_ftp.Client.Agreement.{choice-Agrees}
use hybrid_ftp.Examples.Storage.{directories, store, event, ready}

abbrev typist : ClientState
typist = record {
  server_host = text "10.0.0.12";
  abort_command_sent = false;
  client_type = ascii;
  client_mode = stream;
  side = passive_side;
  active_socket = none;
  active_port = 0;
}

abbrev type_event : ClientEvent
type_event = record {
  answers = λ line. text "200 Type set to I (Binary).";
  numbers = none;
  socket_error = none;
  downloaded = none;
  uploaded_well = true;
  final_window = [];
  abort_now = false;
  first_reply = [];
  second_reply = [];
  local_file = none;
  output_file = some (λ bytes. bytes);
  opening = none;
}

abbrev typed : Handled (List FilePath)
typed = record {
  files = store;
  session = record ready { transfer_type = binary };
  replies = reply_line "200 Type set to I (Binary)." ∷ [];
  sent = [];
  quits = false;
}

handle_command-types :
    handle_command ⦃fs = directories⦄ event store ready (text "TYPE I") ≡ some typed
unfolding handle_command
handle_command-types = refl

typed-read :
    type_event.answers (text "TYPE I") ≡ (recv_reply 5 (all_arriving typed.replies ++ [])).0
unfolding recv_reply
typed-read = refl

letter-word : All (λ y. is_space y ≡ false) (text "I")
unfolding is_space
letter-word = (refl, tt)

choice-Agrees_example :
    Agrees (line_turn typist type_event (text "TYPE I")).answered.after typed.session
choice-Agrees_example =
    choice-Agrees event store ready typist type_event 5 [] (text "TYPE ") 73 [] typed (inl refl)
      letter-word refl (record { same_type = refl; same_mode = refl }) handle_command-types
      typed-read
