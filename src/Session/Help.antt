-- ===== src/Session/Help.antt =====
-- src/server/Session.cpp: `handle_help_command`.
use hybrid_ftp.Base.{Option, none, some, List, [], ◌∷◌, ◌++◌, map, if◌then◌else◌}
use hybrid_ftp.Text.{Text, text, is_empty}
use hybrid_ftp.Parser.{to_upper}
use hybrid_ftp.Path.Listing.{new_line}
use hybrid_ftp.Session.{reply_line, look_up}

abbrev pub syntax_table : List (Text × Text)
syntax_table =
    (text "USER", text "USER <username>")
    ∷ (text "PASS", text "PASS <password>")
    ∷ (text "QUIT", text "QUIT")
    ∷ (text "NOOP", text "NOOP")
    ∷ (text "PWD", text "PWD")
    ∷ (text "CWD", text "CWD <path>")
    ∷ (text "CDUP", text "CDUP")
    ∷ (text "MKD", text "MKD <dirname>")
    ∷ (text "RMD", text "RMD <dirname>")
    ∷ (text "LIST", text "LIST [path]")
    ∷ (text "NLST", text "NLST [path]")
    ∷ (text "STAT", text "STAT [path]")
    ∷ (text "SIZE", text "SIZE <filename>")
    ∷ (text "MDTM", text "MDTM <filename>")
    ∷ (text "DELE", text "DELE <filename>")
    ∷ (text "RNFR", text "RNFR <oldname>")
    ∷ (text "RNTO", text "RNTO <newname>")
    ∷ (text "TYPE", text "TYPE {A | I}")
    ∷ (text "MODE", text "MODE {S | B | C}")
    ∷ (text "PORT", text "PORT <h1,h2,h3,h4,p1,p2>")
    ∷ (text "PASV", text "PASV")
    ∷ (text "RETR", text "RETR <filename>")
    ∷ (text "STOR", text "STOR <filename>")
    ∷ (text "STOU", text "STOU")
    ∷ (text "APPE", text "APPE <filename>")
    ∷ (text "HASH", text "HASH <filename>")
    ∷ (text "ABOR", text "ABOR")
    ∷ (text "HELP", text "HELP [command]")
    ∷ []

abbrev pub all_commands : Text
all_commands =
    reply_line "214-The following commands are recognized:"
    ++ reply_line " USER PASS QUIT NOOP HELP"
    ++ reply_line " PWD CWD CDUP MKD RMD"
    ++ reply_line " LIST NLST STAT SIZE MDTM"
    ++ reply_line " DELE RNFR RNTO"
    ++ reply_line " TYPE MODE PORT PASV"
    ++ reply_line " RETR STOR STOU APPE"
    ++ reply_line " HASH ABOR"
    ++ reply_line "214 End of HELP."

pub syntax_text : Text → Option Text → Text
syntax_text name none = text "502 Unknown command: " ++ name ++ new_line
syntax_text name (some s) = text "214 Syntax: " ++ s ++ new_line

unfoldable pub help_text : Text → Text
unfolding to_upper look_up syntax_text
help_text argument =
    let name = to_upper argument in
    if is_empty argument
    then all_commands
    else syntax_text name (look_up none (map (λ e. (e.0, some e.1)) syntax_table) name)
