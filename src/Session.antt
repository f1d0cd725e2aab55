-- ===== src/Session.antt =====
-- src/server/Session.h and src/server/Session.cpp: the state of a client's session, the commands by
-- name, and what one command does.
pub mod Help
pub mod Account
pub mod Channel
pub mod Storage
pub mod Download
pub mod Upload
pub mod Commands
pub mod Authentication
pub mod Ports
pub mod Confined
pub mod Transfers
pub mod Safety
pub mod Loop
pub mod Lines
pub mod Whole
pub mod Steady
pub mod Steps
pub mod Dispatch
pub mod Protocol
use hybrid_ftp.Base.{ℕ, String, Bool, false, Option, List, [], ◌∷◌, ◌++◌, if◌then◌else◌}
use hybrid_ftp.Codec.{TransferType, TransferMode}
use hybrid_ftp.Text.{Text, text, same}
use hybrid_ftp.Path.{PathManager}

pub data LoginState : Type 0 where
  not_logged_in username_accepted logged_in : LoginState

-- NONE, ACTIVE and PASSIVE
pub data DataMode : Type 0 where
  mode_none mode_active mode_passive : DataMode

pub record SessionState : Type 0 where
  pub login_state : LoginState
  pub username : Text
  pub transfer_type : TransferType
  pub transfer_mode : TransferMode
  pub path_manager : PathManager
  pub rename_source : Option Text
  pub data_mode : DataMode
  pub active_ip : Text
  pub active_port : ℕ
  -- the port of the UDP socket that waits for a client
  pub passive_socket : Option ℕ

-- A datagram that opens a passive transfer: who sent it, and how many bytes `recvFrom` returned.
pub record Knock : Type 0 where
  pub ip : Text
  pub port : ℕ
  pub size : ℕ

pub record PortNumbers : Type 0 where
  pub h1 : ℕ
  pub h2 : ℕ
  pub h3 : ℕ
  pub h4 : ℕ
  pub p1 : ℕ
  pub p2 : ℕ

-- What the system answers while one command is handled.
pub record CommandEvent : Type 0 where
  -- `sscanf` of the argument with "%u,%u,%u,%u,%u,%u"; `none`: fewer than six numbers
  pub scanned : Option PortNumbers
  -- the port a fresh UDP socket is bound to; `none`: it threw
  pub bound : Option ℕ
  pub socket_ip : Text
  -- whether the 150 reply is sent
  pub reply_sent : Bool
  pub knock : Option Knock
  -- what `RDTSender::sendBuffer` returns
  pub delivered : Bool
  -- whether the knock to an active client is sent
  pub knock_sent : Bool
  -- the buffer that `RDTReceiver::receiveBuffer` fills; `none`: it returned false
  pub uploaded : Option (List ℕ)
  -- whether an ABOR was consumed during the transfer
  pub aborted : Bool
  -- the rounds of `generateUniqueFilename` that the model may take
  pub unique_rounds : ℕ

-- A buffer that an `RDTSender` is given, and its destination.
pub record Outgoing : Type 0 where
  pub ip : Text
  pub port : ℕ
  pub buffer : List ℕ

pub record Handled (F : Type 0) : Type 0 where
  pub files : F
  pub session : SessionState
  pub replies : List Text
  pub sent : List Outgoing
  -- whether the session ends
  pub quits : Bool

abbrev pub reply_line : String → Text
reply_line s = text s ++ 13 ∷ 10 ∷ []

pub answer : {F : Type 0} → F → SessionState → Text → Handled F
answer f s r = record { files = f; session = s; replies = r ∷ []; sent = []; quits = false }

pub data Verb : Type 0 where
  quit noop user pass : Verb
  type mode port pasv pwd rmd cwd cdup mkd : Verb
  list nlst stat size mdtm help dele rnfr rnto : Verb
  retr stor stou appe hash abor : Verb
  unknown : Verb

abbrev pub verb_table : List (Text × Verb)
verb_table =
    (text "QUIT", quit)
    ∷ (text "NOOP", noop)
    ∷ (text "USER", user)
    ∷ (text "PASS", pass)
    ∷ (text "TYPE", type)
    ∷ (text "MODE", mode)
    ∷ (text "PORT", port)
    ∷ (text "PASV", pasv)
    ∷ (text "PWD", pwd)
    ∷ (text "RMD", rmd)
    ∷ (text "CWD", cwd)
    ∷ (text "CDUP", cdup)
    ∷ (text "MKD", mkd)
    ∷ (text "LIST", list)
    ∷ (text "NLST", nlst)
    ∷ (text "STAT", stat)
    ∷ (text "SIZE", size)
    ∷ (text "MDTM", mdtm)
    ∷ (text "HELP", help)
    ∷ (text "DELE", dele)
    ∷ (text "RNFR", rnfr)
    ∷ (text "RNTO", rnto)
    ∷ (text "RETR", retr)
    ∷ (text "STOR", stor)
    ∷ (text "STOU", stou)
    ∷ (text "APPE", appe)
    ∷ (text "HASH", hash)
    ∷ (text "ABOR", abor)
    ∷ []

unfoldable pub look_up {ℓ} : {A : Type ℓ} → A → List (Text × A) → Text → A
unfolding same
look_up other [] name = other
look_up other (e ∷ es) name =
    let rest = look_up other es name in if same name e.0 then e.1 else rest

-- The comparisons of the name, one after another.
unfoldable pub verb_of : Text → Verb
unfolding look_up
verb_of name = look_up unknown verb_table name
