-- ===== src/Client.antt =====
-- src/client/ClientCLI.h and src/client/ClientCLI.cpp: the state of the client's command line, and what
-- one command does.
pub mod Replies
pub mod Words
pub mod Transfers
pub mod Port
pub mod Downloads
pub mod Uploads
pub mod Commands
pub mod Lines
pub mod Choice
pub mod Agreement
pub mod Digits
pub mod Passive
use hybrid_ftp.Base.{ℕ, Bool, true, false, ◌&&◌, Option, List, [], ◌∷◌, ◌==◌}
use hybrid_ftp.Codec.{TransferType, TransferMode}
use hybrid_ftp.Rdt.{OutputFile}
use hybrid_ftp.Text.{Text}
use hybrid_ftp.Path.Confined.{written}
use hybrid_ftp.Session.{Knock, PortNumbers, Outgoing}

-- `ClientCLI::DataMode`
pub data Side : Type 0 where
  passive_side active_side : Side

-- The members of the object. The control socket is the system's, and `m_aborted` is set by a signal.
pub record ClientState : Type 0 where
  pub server_host : Text
  pub abort_command_sent : Bool
  pub client_type : TransferType
  pub client_mode : TransferMode
  pub side : Side
  -- the port that the open UDP socket is bound to
  pub active_socket : Option ℕ
  pub active_port : ℕ

-- What the server and the system answer while one command is handled.
pub record ClientEvent : Type 0 where
  -- what `m_sendCommand` returns for a command line
  pub answers : Text → Text
  -- `sscanf` of PORT's argument, when it has exactly six numbers
  pub numbers : Option PortNumbers
  -- what opening or binding a socket throws
  pub socket_error : Option Text
  -- what `RDTReceiver::receiveBuffer` gives; `none`: it returned false
  pub downloaded : Option (List ℕ)
  -- what `RDTSender::sendBuffer` returns, and the text about its window behind a failure
  pub uploaded_well : Bool
  pub final_window : Text
  -- whether the cancellation callback has sent ABOR during the transfer
  pub abort_now : Bool
  -- what `recvControlReply` gives, at its first and its second call
  pub first_reply : Text
  pub second_reply : Text
  -- the local file: it is not there, it cannot be read, or its bytes
  pub local_file : Option (Option (List ℕ))
  -- the local file of a download; `none`: it cannot be created
  pub output_file : Option OutputFile
  -- the datagram that opens an active upload
  pub opening : Option Knock

-- A file that the client writes, with what it holds then.
pub record LocalFile : Type 0 where
  pub name : Text
  pub bytes : List ℕ

pub record Answered : Type 0 where
  pub after : ClientState
  pub shown : Text
  -- the command lines it sent, in order
  pub asked : List Text
  -- the datagrams and buffers it sent
  pub knocked : List Outgoing
  pub given : List Outgoing
  pub written : List LocalFile
  -- an exception that nothing catches
  pub crashed : Bool

-- A command that ends with a text, with these lines sent so far.
pub shows : ClientState → List Text → Text → Answered
shows c asked t = record {
  after = c;
  shown = t;
  asked = asked;
  knocked = [];
  given = [];
  written = [];
  crashed = false;
}

-- `reply.rfind(code, 0) == 0`
unfoldable pub starts : Text → Text → Bool
starts [] t = true
starts (c ∷ cs) [] = false
starts (c ∷ cs) (d ∷ ds) = (c == d) && starts cs ds
