-- ===== src/Examples/Download.antt =====
-- A download at a concrete input, from a store with one readable file.
use hybrid_ftp.Base.{
  ℕ, ◌≡◌, refl, true, false, none, some, List, [], ◌∷◌, ◌++◌, arith, if◌then◌else◌, length,
}
use hybrid_ftp.Codec.{ascii, stream, encode}
use hybrid_ftp.Header.{header_size}
use hybrid_ftp.Text.{Text, text, same}
use hybrid_ftp.Path.{FileSystem, resolve_path, is_path_inside_root}
use hybrid_ftp.Path.Listing.{get_file_size}
use hybrid_ftp.FileHandler.{read_binary_file}
use hybrid_ftp.Session.{Knock, CommandEvent, reply_line}
use hybrid_ftp.Session.Channel.{open_passive, open_data_channel}
use hybrid_ftp.Session.Download.{
  say, send_file, retr_passive, retr_over, refuse_file, retr_at, retr_command,
}
use hybrid_ftp.Session.Loop.{without_return}
use hybrid_ftp.Client.{passive_side, ClientState, ClientEvent}
use hybrid_ftp.Client.Replies.{
  recv_line, is_multi_line, recv_reply, span_digits, match_number, match_comma, match_field,
  match_six, search_six, value_of, stoul, passive_port, endpoint_of,
}
use hybrid_ftp.Client.Transfers.{Target, aims, aim}
use hybrid_ftp.Client.Downloads.{handle_retr}
use hybrid_ftp.Client.Lines.{all_arriving}
use hybrid_ftp.EndToEnd.Download.{file_of, download_saves}
use hybrid_ftp.Examples.Transfer.{whole_numbers, client, config}
use hybrid_ftp.Examples.Storage.{event}
use hybrid_ftp.Examples.Upload.{
  note, pieces, finished, finished-returned, Reach-finished, listening, segments-note, note-inside,
}

-- The store is the content of the file, which every path names.
instance abbrev shelf : FileSystem (List ℕ)
shelf = record {
  weakly_canonical = λ f p. some p;
  exists = λ f p. some true;
  is_directory = λ f p. some false;
  is_regular_file = λ f p. some true;
  file_size = λ f p. some (length f);
  last_write_time = λ f p. none;
  time_text = λ n. [];
  permissions = λ f p. [];
  entries = λ f p. some [];
  relative = λ f p q. none;
  create_directory = λ f p. (f, some true);
  remove = λ f p. ([], some true);
  rename = λ f p q. (f, false);
  create_directories = λ f p. f;
  read_file = λ f p. some f;
  write_file = λ f p b a. (b, true);
  sha256 = λ b. [];
}

abbrev knocked : Knock
knocked = record { ip = text "10.0.0.1"; port = 4000; size = header_size }

abbrev asked_event : CommandEvent
asked_event = record event { knock = some knocked }

abbrev replies : Text → Text
replies line =
    if same line (text "PASV")
    then text "227 Entering Passive Mode (10,0,0,12,156,64)."
    else text "150 Opening data connection for file download."

abbrev reader : ClientState
reader = record {
  server_host = text "10.0.0.12";
  abort_command_sent = false;
  client_type = ascii;
  client_mode = stream;
  side = passive_side;
  active_socket = none;
  active_port = 0;
}

abbrev client_event : ClientEvent
client_event = record {
  answers = replies;
  numbers = none;
  socket_error = none;
  downloaded = some finished.receiver_state.out_data;
  uploaded_well = true;
  final_window = [];
  abort_now = false;
  first_reply = reply_line "226 Transfer complete.";
  second_reply = [];
  local_file = none;
  output_file = some (λ bytes. bytes);
  opening = none;
}

abbrev endpoint : Target
endpoint = record { is_active = false; ip = text "10.0.0.12"; port = 40000 }

reader-aims :
    aim reader client_event
      (text "Error: Cannot parse PASV reply: " ++ client_event.answers (text "PASV"))
    ≡ aims endpoint
unfolding aim same endpoint_of search_six match_six match_field match_number span_digits match_comma
    passive_port stoul value_of
reader-aims = refl

reader-opening :
    client_event.answers (text "RETR " ++ text "note")
    ≡ (recv_reply 9 (
        all_arriving
          (retr_command ⦃fs = shelf⦄ asked_event note listening (text "note")).replies)).0
unfolding same retr_command retr_at retr_over retr_passive send_file say refuse_file
    is_path_inside_root get_file_size open_data_channel open_passive recv_reply recv_line
    is_multi_line without_return resolve_path read_binary_file
reader-opening = refl

note-size : get_file_size note listening.path_manager (text "note") ≡ some 1
unfolding get_file_size
note-size = refl

note-content : file_of asked_event note listening (text "note") ≡ some note
unfolding file_of
note-content = refl

download_saves_example :
    ((retr_command ⦃fs = shelf⦄ asked_event note listening (text "note")).sent
      ≡ record {
        ip = knocked.ip;
        port = knocked.port;
        buffer = encode note listening.transfer_mode;
      }
        ∷ [])
    × ((handle_retr reader client_event (text "note") (text "copy")).written
        ≡ record { name = text "copy"; bytes = note } ∷ [])
download_saves_example =
    download_saves ⦃d = whole_numbers⦄ config 64 note pieces client finished asked_event note
      listening 110 (text "ote") 1 40000 knocked reader client_event (text "copy") endpoint 9
      (λ bytes. bytes) refl refl note-inside note-size refl (omega arith) note-content (omega arith)
      (omega arith) segments-note (omega arith) (omega arith) Reach-finished finished-returned refl
      refl reader-aims refl reader-opening refl
