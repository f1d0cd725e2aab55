-- ===== src/Examples/Control.antt =====
-- Lines, whole sessions, the table of clients and the client's command line at concrete inputs.
use hybrid_ftp.Base.{
  ◌+◌, ◌-◌, ◌≤◌, ◌<◌, String, ◌≡◌, refl, ◌≢◌, true, false, none, some, List, [], ◌∷◌, ◌++◌, map,
  arith, length, take, drop, All,
}
use hybrid_ftp.Text.{Text, text}
use hybrid_ftp.Parser.{parse}
use hybrid_ftp.Session.{PortNumbers, pass, verb_of}
use hybrid_ftp.Session.Channel.{out_of_range, dotted, passive_reply, abor_command}
use hybrid_ftp.Session.Commands.{handle_command}
use hybrid_ftp.Session.Authentication.{verb_in}
use hybrid_ftp.Session.Loop.{
  Recv, byte, interrupted, got_line, read_line, Send, accepts, send_interrupted, send_all, Turn,
  session_loop,
}
use hybrid_ftp.Session.Lines.{
  IsLine, newline, interruption, return_char, character, read_line_lem, send_all_lem,
}
use hybrid_ftp.Session.Whole.{
  IsKeptTo, session_loop-IsKeptTo, IsLockedOut, session_loop-IsLockedOut,
}
use hybrid_ftp.Session.Steps.{protocol_of}
use hybrid_ftp.Session.Protocol.{ProtocolTrace, session_loop-trace}
use hybrid_ftp.Server.{ServerState, filled, clients_add, clients_remove}
use hybrid_ftp.Server.Table.{count, is_full, one_for, clients_count}
use hybrid_ftp.Client.Replies.{is_multi_line, recv_reply, passive_endpoint, parse_pasv_reply}
use hybrid_ftp.Client.Lines.{
  arriving, all_arriving, recv_reply_lem, IsOneLine, with_end, read_replies, replies_shifted,
}
use hybrid_ftp.Client.Passive.{parse_pasv_reply-passive_reply}
use hybrid_ftp.Examples.Storage.{directories, store, manager-inside, fresh, event}

-- A line that arrives byte by byte, once with an interrupted call.
abbrev typed_bytes : Text → List Recv
typed_bytes t = map byte t ++ byte 13 ∷ byte 10 ∷ []

abbrev two_letters : Text
two_letters = 65 ∷ 66 ∷ []

abbrev short_stream : List Recv
short_stream = byte 65 ∷ interrupted ∷ byte 66 ∷ byte 13 ∷ byte 10 ∷ byte 67 ∷ []

short_stream-IsLine : IsLine short_stream two_letters (byte 67 ∷ [])
short_stream-IsLine =
    character 65 (λ h. absurd (omega arith)) (λ h. absurd (omega arith))
      (interruption (
        character 66 (λ h. absurd (omega arith)) (λ h. absurd (omega arith)) (return_char newline)))

read_line_lem_example :
    (length two_letters + 1 < 3 → read_line 3 short_stream ≡ got_line two_letters (byte 67 ∷ []))
    × (3 ≤ length two_letters + 1
        → (es' : List Recv) × (read_line 3 short_stream ≡ got_line (take (3 - 1) two_letters) es')
          × IsLine es' (drop (3 - 1) two_letters) (byte 67 ∷ []))
read_line_lem_example =
    read_line_lem short_stream (byte 67 ∷ []) two_letters 3 (omega arith) short_stream-IsLine

short_line : read_line 3 short_stream ≡ got_line two_letters (byte 13 ∷ byte 10 ∷ byte 67 ∷ [])
unfolding read_line
short_line = refl

abbrev reply_pieces : List Send
reply_pieces = accepts 1 ∷ send_interrupted ∷ accepts 2 ∷ []

send_all_lem_example :
    (r : Text) × (1 ∷ 2 ∷ 3 ∷ [] ≡ (send_all (1 ∷ 2 ∷ 3 ∷ []) reply_pieces).0 ++ r)
    × ((send_all (1 ∷ 2 ∷ 3 ∷ []) reply_pieces).1 ≡ some true → r ≡ [])
send_all_lem_example = send_all_lem (1 ∷ 2 ∷ 3 ∷ []) reply_pieces

-- A session of three lines, in which a directory is made.
abbrev turn_of : String → Turn
turn_of s = record { reads = typed_bytes (text s); event = event }

abbrev turns : List Turn
turns = turn_of "USER ann" ∷ turn_of "PASS secret" ∷ turn_of "MKD new" ∷ []

session_loop-IsKeptTo_example :
    IsKeptTo ⦃fs = directories⦄ fresh store (session_loop store fresh turns)
session_loop-IsKeptTo_example = session_loop-IsKeptTo turns store fresh manager-inside

session_loop-trace_example :
    ProtocolTrace
      (protocol_of fresh)
      (session_loop store fresh turns).lines
      (protocol_of (session_loop store fresh turns).session)
session_loop-trace_example = session_loop-trace turns store fresh

-- A session in which the name is given but no password.
abbrev nameless : List Turn
nameless = turn_of "USER ann" ∷ turn_of "MKD new" ∷ []

nameless-lines : (session_loop store fresh nameless).lines ≡ text "USER ann" ∷ text "MKD new" ∷ []
unfolding session_loop handle_command
nameless-lines = refl

no_password :
    (lines : List Text)
    → lines ≡ text "USER ann" ∷ text "MKD new" ∷ []
    → All (λ line. verb_in line ≢ pass) lines
unfolding verb_of parse
no_password lines e = rw e ((λ h. cc), ((λ h. cc), tt))

session_loop-IsLockedOut_example : IsLockedOut store (session_loop store fresh nameless)
session_loop-IsLockedOut_example =
    session_loop-IsLockedOut nameless store fresh (λ h. cc) (no_password _ nameless-lines)

-- A table with one client and one free record.
abbrev table : ServerState
table = record {
  listen_fd = some 3;
  server_port = 2121;
  is_running = true;
  clients = filled 7 (text "10.0.0.1") 4000 ∷ record (filled 8 [] 0) { active = false } ∷ [];
}

table-room : is_full table.clients ≡ false
unfolding is_full
table-room = refl

clients_count_example :
    (is_full table.clients ≡ false
      → count 9 (clients_add table 9 (text "10.0.0.2") 4001).0.clients
        ≡ one_for 9 9 + count 9 table.clients)
    × (is_full table.clients ≡ true → clients_add table 9 (text "10.0.0.2") 4001 ≡ (table, none))
    × (count 9 (clients_remove table 9).clients ≡ count 9 table.clients - one_for 9 9)
clients_count_example = clients_count table 9 (text "10.0.0.2") 4001 9

abbrev address : PortNumbers
address = record { h1 = 10; h2 = 0; h3 = 0; h4 = 12; p1 = 0; p2 = 0 }

address-fits : out_of_range address ≡ false
unfolding out_of_range
address-fits = refl

parse_pasv_reply-passive_reply_example :
    parse_pasv_reply (passive_reply (dotted address) 40000)
    ≡ passive_endpoint (dotted address) 40000
parse_pasv_reply-passive_reply_example =
    parse_pasv_reply-passive_reply address 40000 address-fits (omega arith)

no_newline : All (λ d. d ≢ 10) (text "200 ok")
no_newline = (
  λ h. absurd (omega arith),
  (
    λ h. absurd (omega arith),
    (
      λ h. absurd (omega arith),
      (λ h. absurd (omega arith), (λ h. absurd (omega arith), (λ h. absurd (omega arith), tt))),
    ),
  ),
)

one_line_reply : is_multi_line (text "200 ok") ≡ false
unfolding is_multi_line
one_line_reply = refl

recv_reply_lem_example :
    recv_reply 5 (arriving (text "200 ok" ++ 13 ∷ 10 ∷ []) ++ byte 50 ∷ [])
    ≡ (text "200 ok", byte 50 ∷ [])
recv_reply_lem_example = recv_reply_lem 5 50 (text "00 ok") (byte 50 ∷ []) no_newline one_line_reply

ok-IsOneLine : IsOneLine (text "200 ok")
ok-IsOneLine = record { not_empty = λ e. cc; no_newline = no_newline; not_multi = one_line_reply }

replies_shifted_example :
    read_replies 5 3 (
      all_arriving
        ((abor_command store fresh).replies ++ map with_end (text "200 ok" ∷ text "257 /" ∷ []))
      ++ [])
    ≡ (
      text "426 Connection closed; transfer aborted."
          ∷ text "226 Abort successful."
          ∷ text "200 ok"
          ∷ [],
      arriving (with_end (text "257 /")) ++ [],
    )
replies_shifted_example =
    replies_shifted 5 store fresh (text "200 ok" ∷ []) (text "257 /") [] (ok-IsOneLine, tt)
