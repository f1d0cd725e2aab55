-- ===== src/Client/Commands.antt =====
-- src/client/ClientCLI.cpp, `run`: one turn of the client's loop.
use hybrid_ftp.Base.{
  Bool, true, false, ◌&&◌, ◌||◌, Option, none, some, List, [], ◌∷◌, if◌then◌else◌,
}
use hybrid_ftp.Codec.{ascii, binary, stream, block, compressed}
use hybrid_ftp.Text.{Text, text, same, is_empty}
use hybrid_ftp.Parser.{to_upper}
use hybrid_ftp.Session.{look_up}
use hybrid_ftp.Client.{passive_side, ClientState, ClientEvent, Answered, shows, starts}
use hybrid_ftp.Client.Words.{first_word, second_word, third_word, to_upper_first_word, client_trim}
use hybrid_ftp.Client.Port.{handle_port}
use hybrid_ftp.Client.Downloads.{handle_retr, handle_list}
use hybrid_ftp.Client.Uploads.{handle_stor}

pub data ClientVerb : Type 0 where
  port_verb retr_verb stor_verb stou_verb appe_verb list_verb nlst_verb : ClientVerb
  pasv_verb quit_verb other_verb : ClientVerb

abbrev pub client_verbs : List (Text × ClientVerb)
client_verbs =
    (text "PORT", port_verb)
    ∷ (text "RETR", retr_verb)
    ∷ (text "GET", retr_verb)
    ∷ (text "STOR", stor_verb)
    ∷ (text "PUT", stor_verb)
    ∷ (text "STOU", stou_verb)
    ∷ (text "APPE", appe_verb)
    ∷ (text "LIST", list_verb)
    ∷ (text "NLST", nlst_verb)
    ∷ (text "PASV", pasv_verb)
    ∷ (text "QUIT", quit_verb)
    ∷ []

unfoldable pub client_verb : Text → ClientVerb
unfolding look_up
client_verb name = look_up other_verb client_verbs name

-- The representation that an accepted command chooses.
unfoldable pub choose : Text → Text → ClientState → ClientState
unfolding same
choose name argument c =
    if same name (text "MODE") && same argument (text "S")
    then record c { client_mode = stream }
    else if same name (text "MODE") && same argument (text "B")
    then record c { client_mode = block }
    else if same name (text "MODE") && same argument (text "C")
    then record c { client_mode = compressed }
    else if same name (text "TYPE") && same argument (text "A")
    then record c { client_type = ascii }
    else if same name (text "TYPE") && same argument (text "I")
    then record c { client_type = binary }
    else c

unfoldable pub is_pasv_verb : ClientVerb → Bool
is_pasv_verb pasv_verb = true
is_pasv_verb _ = false

-- PASV that was accepted.
unfoldable pub note_passive : ClientVerb → Text → ClientState → ClientState
unfolding is_pasv_verb starts
note_passive v reply c =
    if is_pasv_verb v && starts (text "227") reply
    then record c { side = passive_side; active_socket = none; active_port = 0 }
    else c

unfoldable pub note_choice : Text → Text → ClientState → ClientState
unfolding choose starts to_upper first_word second_word
note_choice line reply c =
    if starts (text "200") reply
    then choose (to_upper (first_word line)) (to_upper (second_word line)) c
    else c

-- A command that needs no transfer.
unfoldable pub plain_command : ClientState → ClientEvent → ClientVerb → Text → Answered
unfolding shows note_choice note_passive
plain_command c e v line =
    let reply = e.answers line in
    shows (note_choice line reply (note_passive v reply c)) (line ∷ []) reply

pub usage : ClientState → Text → Answered
unfolding shows
usage c t = shows c [] t

-- An upload's words: the local name, and the remote one, which is the same if it is left out.
pub upload_words : ClientState → ClientEvent → Text → Text → Text → Bool → Bool → Answered
unfolding usage handle_stor
upload_words c e usage_text local remote unique append =
    if is_empty local
    then usage c usage_text
    else handle_stor c e local (if is_empty remote then local else remote) unique append

pub retr_words : ClientState → ClientEvent → Text → Text → Answered
unfolding usage handle_retr
retr_words c e remote local =
    if is_empty remote
    then usage c (text "Usage: RETR <remote_file> [local_file]")
    else handle_retr c e remote (if is_empty local then remote else local)

-- A line that is not empty, by its command.
unfoldable pub client_command : ClientState → ClientEvent → ClientVerb → Text → Answered
unfolding handle_port retr_words upload_words handle_list plain_command second_word third_word
client_command c e port_verb line = handle_port c e line
client_command c e retr_verb line = retr_words c e (second_word line) (third_word line)
client_command c e stor_verb line =
    upload_words c e (text "Usage: STOR <local_file> [remote_file]") (second_word line)
      (third_word line) false false
client_command c e stou_verb line =
    upload_words c e (text "Usage: STOU <local_file> [remote_file]") (second_word line)
      (third_word line) true false
client_command c e appe_verb line =
    upload_words c e (text "Usage: APPE <local_file> [remote_file]") (second_word line)
      (third_word line) false true
client_command c e list_verb line = handle_list c e (second_word line) false
client_command c e nlst_verb line = handle_list c e (second_word line) true
client_command c e pasv_verb line = plain_command c e pasv_verb line
client_command c e quit_verb line = plain_command c e quit_verb line
client_command c e other_verb line = plain_command c e other_verb line

-- What `std::getline` gives, with the signal as it stands at the loop's two tests of it.
pub record Input : Type 0 where
  pub aborted : Bool
  pub aborted_at_end : Bool
  pub typed : Option Text

pub record ClientTurn : Type 0 where
  pub answered : Answered
  pub leaves : Bool

pub is_quit_verb : ClientVerb → Bool
is_quit_verb quit_verb = true
is_quit_verb _ = false

unfoldable pub line_turn : ClientState → ClientEvent → Text → ClientTurn
unfolding client_verb to_upper_first_word client_command is_quit_verb shows
line_turn c e line =
    let v = client_verb (to_upper_first_word line) in
    let a = client_command c e v line in
    if is_empty line
    then record { answered = shows c [] []; leaves = false }
    else record { answered = a; leaves = is_quit_verb v || a.crashed }

pub typed_turn : ClientState → ClientEvent → Bool → Option Text → ClientTurn
unfolding line_turn client_trim shows
typed_turn c e aborted none = record {
  answered = shows c (if aborted then [] else text "QUIT" ∷ []) [];
  leaves = true;
}
typed_turn c e aborted (some line) = line_turn c e (client_trim line)

-- One turn of the loop in `run`. Behind a signal the client sends ABOR, unless a transfer has sent it
-- already, and then QUIT.
pub client_turn : ClientState → ClientEvent → Input → ClientTurn
unfolding typed_turn shows
client_turn c e i =
    if i.aborted
    then record {
      answered =
          shows c
            (if c.abort_command_sent then text "QUIT" ∷ [] else text "ABOR" ∷ text "QUIT" ∷ []) [];
      leaves = true;
    }
    else typed_turn c e i.aborted_at_end i.typed
