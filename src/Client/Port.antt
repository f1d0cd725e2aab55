-- ===== src/Client/Port.antt =====
-- src/client/ClientCLI.cpp: `handlePort`.
use hybrid_ftp.Base.{ℕ, Bool, false, not, Option, none, some, [], ◌∷◌, ◌++◌, ◌==◌, if◌then◌else◌}
use hybrid_ftp.Text.{Text, text}
use hybrid_ftp.Session.{PortNumbers}
use hybrid_ftp.Session.Channel.{out_of_range, port_of}
use hybrid_ftp.Client.{active_side, ClientState, ClientEvent, Answered, shows, starts}

-- `handlePort`. The socket is opened unless the open one has this port.
pub port_in_use : Option ℕ → ℕ → ℕ → Bool
port_in_use none own p = false
port_in_use (some q) own p = own == p

pub advertise : ClientState → ClientEvent → Text → ℕ → Option ℕ → Answered
unfolding shows starts
advertise c e line p socket =
    let reply = e.answers line in
    if not (starts (text "200") reply)
    then shows c (line ∷ []) reply
    else shows (record c { side = active_side; active_socket = socket; active_port = p })
        (line ∷ []) reply

pub prepare_port : ClientState → ClientEvent → Text → ℕ → Option Text → Answered
unfolding port_in_use advertise shows
prepare_port c e line p none =
    advertise c e line p
      (if port_in_use c.active_socket c.active_port p then c.active_socket else some p)
prepare_port c e line p (some problem) =
    if port_in_use c.active_socket c.active_port p
    then advertise c e line p c.active_socket
    else shows c [] (text "Error: Cannot prepare active UDP port: " ++ problem)

pub port_numbers : ClientState → ClientEvent → Text → Option PortNumbers → Answered
unfolding prepare_port shows out_of_range port_of
port_numbers c e line none = shows c [] (text "Error: PORT requires h1,h2,h3,h4,p1,p2 (0-255).")
port_numbers c e line (some n) =
    if out_of_range n
    then shows c [] (text "Error: PORT requires h1,h2,h3,h4,p1,p2 (0-255).")
    else if port_of n == 0
    then shows c [] (text "Error: PORT cannot advertise port 0.")
    else prepare_port c e line (port_of n) e.socket_error

unfoldable pub handle_port : ClientState → ClientEvent → Text → Answered
unfolding port_numbers
handle_port c e line = port_numbers c e line e.numbers
