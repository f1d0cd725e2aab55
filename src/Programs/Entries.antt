-- ===== src/Programs/Entries.antt =====
-- src/server/main_server.cpp and src/client/main_client.cpp: the entries of the server and the client.
-- What `socket`, `inet_pton`, `connect` and `send` give is an input; the descriptors that are open in
-- the client's process are kept.
use hybrid_ftp.Base.{
  ℕ, String, Bool, true, false, not, Option, none, some, List, [], ◌∷◌, ◌++◌, ◌==◌, if◌then◌else◌,
  take, drop,
}
use hybrid_ftp.Udp.Socket.{close_descriptor}
use hybrid_ftp.Programs.{argument_at}
use hybrid_ftp.Text.{Text, text}
use hybrid_ftp.Session.Loop.{Recv, Send, accepts, send_interrupted, send_failed}
use hybrid_ftp.Server.{ServerState, server_init, server_stop}
use hybrid_ftp.Client.Replies.{recv_reply}

-- The port of the server's arguments, where `to_int` is `atoi`.
pub control_port : (String → ℕ) → List String → ℕ
unfolding argument_at
control_port to_int args = argument_at to_int args 0 2121

-- `main` of the server: its state when it leaves `server_init` and its exit code, `none` while
-- `server_run` has not returned.
unfoldable pub server_main :
    (String → ℕ)
    → List String
    → ServerState
    → Option ℕ
    → Bool
    → Bool
    → Bool
    → ServerState × Option ℕ
unfolding control_port
server_main to_int args s made binds listens run_returned =
    let (s', ready) = server_init s (control_port to_int args) made binds listens in
    if not ready then (s', some 1) else if run_returned then (s', some 0) else (s', none)

-- `handle_sigint`: the state, and the code with which the process ends.
pub handle_sigint : ServerState → ServerState × ℕ
handle_sigint s = (server_stop s, 0)

-- `connectToServer`: the descriptors that are open, and the result; `none` is -1.
unfoldable pub connect_to_server : List ℕ → Option ℕ → Bool → Bool → List ℕ × Option ℕ
unfolding close_descriptor
connect_to_server live none parsed connected = (live, none)
connect_to_server live (some d) parsed connected =
    if not parsed
    then (close_descriptor d (d ∷ live), none)
    else if not connected
    then (close_descriptor d (d ∷ live), none)
    else (d ∷ live, some d)

-- `sendAll` of the client, with this much left to send; an interrupted call ends it.
unfoldable pub client_send_all : Text → List Send → Text × Option Bool
client_send_all [] es = ([], some true)
client_send_all (c ∷ cs) [] = ([], none)
client_send_all (c ∷ cs) (send_failed ∷ es) = ([], some false)
client_send_all (c ∷ cs) (send_interrupted ∷ es) = ([], some false)
client_send_all (c ∷ cs) (accepts n ∷ es) =
    let rest = client_send_all (drop n (c ∷ cs)) es in
    if n == 0 then ([], some false) else (take n (c ∷ cs) ++ rest.0, rest.1)

-- What the command line gets back for a command.
unfoldable pub reply_after : Option Bool → ℕ → List Recv → Option Text
reply_after none fuel es = none
reply_after (some false) fuel es = some (text "Error: Cannot send command.")
reply_after (some true) fuel es = some (recv_reply fuel es).0

-- The function that `main` hands to the command line: what it puts on the connection, and the reply.
unfoldable pub send_command : Text → List Send → ℕ → List Recv → Text × Option Text
unfolding client_send_all reply_after
send_command line sends fuel es =
    let sent = client_send_all (line ++ 13 ∷ 10 ∷ []) sends in (sent.0, reply_after sent.1 fuel es)

-- How `main` of the client ends: the exit code and the descriptors that are open then. `run` has
-- returned, and the socket is closed behind it.
unfoldable pub client_end : List ℕ × Option ℕ → List ℕ × ℕ
unfolding close_descriptor
client_end (live, none) = (live, 1)
client_end (live, some d) = (close_descriptor d live, 0)

unfoldable pub client_main : List ℕ → Option ℕ → Bool → Bool → List ℕ × ℕ
unfolding connect_to_server client_end
client_main live made parsed connected = client_end (connect_to_server live made parsed connected)
