-- ===== src/Session/Loop.antt =====
-- src/server/Session.cpp: the reading of command lines, the sending of replies, the search for an ABOR
-- during a transfer, and the loop of a client's thread.
use mathlib.Core.Option
use hybrid_ftp.Base.{
  ℕ, zero, suc, ◌-◌, Bool, true, false, ◌&&◌, Option, none, some, List, [], ◌∷◌, ◌++◌, leb, ◌==◌,
  if◌then◌else◌, take, drop,
}
use hybrid_ftp.Codec.{ascii, stream}
use hybrid_ftp.Text.{Text, text, same, is_empty}
use hybrid_ftp.Parser.{parse}
use hybrid_ftp.Path.{FileSystem, PathManager}
use hybrid_ftp.Session.{not_logged_in, mode_none, SessionState, CommandEvent, Outgoing, Handled}
use hybrid_ftp.Session.Commands.{handle_command}

-- What `recv` of one byte gives.
pub data Recv : Type 0 where
  byte : ℕ → Recv
  hung_up interrupted failed : Recv

-- `read_line`: it waits for more, it gives -1, or it gives the buffer's content. What is left of the
-- stream stands beside it.
pub data LineRead : Type 0 where
  waiting : LineRead
  no_line : List Recv → LineRead
  got_line : Text → List Recv → LineRead

-- The loop of `read_line`, with room for so many more characters.
unfoldable pub read_loop : ℕ → Text → List Recv → LineRead
read_loop zero buffer es = got_line buffer es
read_loop (suc room) buffer [] = waiting
read_loop (suc room) buffer (hung_up ∷ es) = no_line es
read_loop (suc room) buffer (failed ∷ es) = no_line es
read_loop (suc room) buffer (interrupted ∷ es) = read_loop (suc room) buffer es
read_loop (suc room) buffer (byte c ∷ es) =
    let rest =
      read_loop (if c == 13 then suc room else room) (if c == 13 then buffer else buffer ++ c ∷ [])
        es in
    if c == 10 then got_line buffer es else rest

unfoldable pub read_line : ℕ → List Recv → LineRead
unfolding read_loop
read_line buffer_size es =
    if leb buffer_size 1 then no_line es else read_loop (buffer_size - 1) [] es

-- `line` in the thread
abbrev pub line_size : ℕ
line_size = 512

-- What a call of `send` gives.
pub data Send : Type 0 where
  accepts : ℕ → Send
  send_interrupted send_failed : Send

-- `send_all`, with this much left to send: what it puts on the connection, and what it returns;
-- `none`: it waits.
unfoldable pub send_all : Text → List Send → Text × Option Bool
send_all [] es = ([], some true)
send_all (c ∷ cs) [] = ([], none)
send_all (c ∷ cs) (send_failed ∷ es) = ([], some false)
send_all (c ∷ cs) (send_interrupted ∷ es) = send_all (c ∷ cs) es
send_all (c ∷ cs) (accepts n ∷ es) =
    let rest = send_all (drop n (c ∷ cs)) es in
    if n == 0 then ([], some false) else (take n (c ∷ cs) ++ rest.0, rest.1)

-- `std::memchr` of a newline: the text before it.
pub until_newline : Text → Option Text
until_newline [] = none
until_newline (c ∷ cs) =
    let rest = Option.map (λ (l : Text). c ∷ l) (until_newline cs) in
    if c == 10 then some [] else rest

-- `pop_back` of a carriage return.
unfoldable pub without_return : Text → Text
without_return [] = []
without_return (c ∷ []) = if c == 13 then [] else c ∷ []
without_return (c ∷ d ∷ cs) = c ∷ without_return (d ∷ cs)

pub is_abor_line : Text → Bool
unfolding parse same
is_abor_line line =
    let c = parse line in c.valid && (same c.name (text "ABOR") && is_empty c.argument)

-- `consume_pending_abor` on what the control connection holds: whether there is an ABOR.
unfoldable pub pending_abor : Text → Bool
unfolding until_newline without_return is_abor_line
pending_abor held = elim (until_newline (take 511 held)) [
  | none ↦ false
  | some line ↦ is_abor_line (without_return line)
]

-- A `std::string` made of a character buffer ends at the first zero.
pub c_string : Text → Text
c_string [] = []
c_string (c ∷ cs) = let rest = c_string cs in if c == 0 then [] else c ∷ rest

-- The server's root, "server_storage", is made absolute by the file system.
pub start_session : PathManager → SessionState
start_session m = record {
  login_state = not_logged_in;
  username = [];
  transfer_type = ascii;
  transfer_mode = stream;
  path_manager = m;
  rename_source = none;
  data_mode = mode_none;
  active_ip = [];
  active_port = 0;
  passive_socket = none;
}

-- One turn of the thread's loop: what `recv` gives to `read_line`, and what the system answers while
-- the line is handled.
pub record Turn : Type 0 where
  pub reads : List Recv
  pub event : CommandEvent

-- How far a thread is: it waits, it has ended, or the model has run out of STOU's rounds.
pub data Progress : Type 0 where
  serving ended out_of_rounds : Progress

pub record Served (F : Type 0) : Type 0 where
  pub files : F
  pub session : SessionState
  pub progress : Progress
  -- the lines that were handled, the replies, and the buffers that were sent
  pub lines : List Text
  pub replies : List Text
  pub sent : List Outgoing

unfoldable pub halt : {F : Type 0} → F → SessionState → Progress → Served F
halt f s p = record { files = f; session = s; progress = p; lines = []; replies = []; sent = [] }

-- A handled line, with what the thread does behind it.
unfoldable pub behind : {F : Type 0} → Text → Handled F → Served F → Served F
behind line h r = record r {
  lines = line ∷ r.lines;
  replies = h.replies ++ r.replies;
  sent = h.sent ++ r.sent;
}

module _ {F : Type 0} ⦃fs : FileSystem F⦄ where
  -- Behind `handle_command`: the session ends, or `rest` is what follows.
  unfoldable pub go_on :
      F → SessionState → Text → Option (Handled F) → (F → SessionState → Served F) → Served F
  unfolding halt behind
  go_on f s line none rest = halt f s out_of_rounds
  go_on f s line (some h) rest =
      behind line h (if h.quits then halt h.files h.session ended else rest h.files h.session)

  -- What follows a line that was read; an empty one is passed over.
  unfoldable pub serve_line :
      F → SessionState → CommandEvent → LineRead → (F → SessionState → Served F) → Served F
  unfolding go_on c_string halt
  serve_line f s e waiting rest = halt f s serving
  serve_line f s e (no_line es) rest = halt f s ended
  serve_line f s e (got_line [] es) rest = rest f s
  serve_line f s e (got_line (c ∷ cs) es) rest =
      go_on f s (c_string (c ∷ cs)) (handle_command e f s (c_string (c ∷ cs))) rest

  unfoldable pub session_loop : F → SessionState → List Turn → Served F
  unfolding serve_line read_line halt
  session_loop f s [] = halt f s serving
  session_loop f s (r ∷ rs) =
      serve_line f s r.event (read_line line_size r.reads) (λ f' s'. session_loop f' s' rs)

  -- `handle_client_thread` up to its last part; `welcomed` tells whether the 220 reply was sent.
  pub handle_client : Bool → F → PathManager → List Turn → Served F
  unfolding session_loop start_session halt
  handle_client welcomed f m rs =
      if welcomed then session_loop f (start_session m) rs else halt f (start_session m) ended
