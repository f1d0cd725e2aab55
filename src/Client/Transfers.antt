-- ===== src/Client/Transfers.antt =====
-- src/client/ClientCLI.cpp: what the transfers of the client share.
use hybrid_ftp.Base.{
  ℕ, Bool, true, false, not, ◌&&◌, ◌||◌, Option, none, some, List, [], ◌∷◌, ◌++◌, ◌==◌,
  if◌then◌else◌, replicate,
}
use hybrid_ftp.Codec.{
  CodecError, truncated_header, truncated_payload, no_eof_block, after_eof_block, truncated_escape,
  invalid_literal, invalid_repeated, invalid_filler, no_eof_descriptor, after_eof_descriptor,
  Decoded, ok, fail, stuck,
}
use hybrid_ftp.Header.{header_size}
use hybrid_ftp.Text.{Text, text, is_empty}
use hybrid_ftp.Session.{Outgoing}
use hybrid_ftp.Client.{
  Side, passive_side, active_side, ClientState, ClientEvent, Answered, shows, starts,
}
use hybrid_ftp.Client.Replies.{PasvReply, no_match, overflow, passive_endpoint, parse_pasv_reply}

-- Where a transfer's datagrams go: an address and a port, and whether the active socket is used.
pub record Target : Type 0 where
  pub is_active : Bool
  pub ip : Text
  pub port : ℕ

pub is_some : {A : Type 0} → Option A → Bool
is_some none = false
is_some (some a) = true

pub is_active_side : Side → Bool
is_active_side active_side = true
is_active_side passive_side = false

-- `active` in the handlers
pub uses_active : ClientState → Bool
unfolding is_some is_active_side
uses_active c = is_active_side c.side && is_some c.active_socket

-- The target, or the answer with which the handler ends.
pub data Aimed : Type 0 where
  aims : Target → Aimed
  gives_up : Answered → Aimed

-- The reply to PASV; `complaint` stands in front of one that has no endpoint.
pub aim_passive : ClientState → Text → PasvReply → Aimed
unfolding shows
aim_passive c complaint no_match = gives_up (shows c (text "PASV" ∷ []) complaint)
aim_passive c complaint overflow =
    gives_up (record (shows c (text "PASV" ∷ []) []) { crashed = true })
aim_passive c complaint (passive_endpoint ip p) =
    if p == 0
    then gives_up (shows c (text "PASV" ∷ []) complaint)
    else aims (record { is_active = false; ip = ip; port = p })

unfoldable pub aim : ClientState → ClientEvent → Text → Aimed
unfolding uses_active aim_passive shows starts parse_pasv_reply
aim c e complaint =
    let reply = e.answers (text "PASV") in
    if uses_active c
    then aims (record { is_active = true; ip = c.server_host; port = c.active_port })
    else if is_empty reply || not (starts (text "227") reply)
    then gives_up (shows c (text "PASV" ∷ []) (text "Error: PASV failed: " ++ reply))
    else aim_passive c complaint (parse_pasv_reply reply)

-- The command lines that a handler has sent.
unfoldable pub asked_for : Bool → Text → List Text
asked_for active line = if active then line ∷ [] else text "PASV" ∷ line ∷ []

-- The knock of a download, with nothing but zeros.
unfoldable pub knock_of : Target → List Outgoing
knock_of t =
    if t.is_active
    then []
    else record { ip = t.ip; port = t.port; buffer = replicate header_size 0 } ∷ []

-- The cancellation callback may have sent ABOR.
unfoldable pub abort_noted : ClientState → ClientEvent → ClientState
abort_noted c e = record c { abort_command_sent = c.abort_command_sent || e.abort_now }

-- A failed transfer: two replies follow an ABOR.
unfoldable pub failed_text : Bool → ClientEvent → Text → Text → Text
failed_text aborted e opening failure =
    if aborted then opening ++ 10 ∷ e.first_reply ++ 10 ∷ e.second_reply else failure

pub no_socket : Text → Text
no_socket problem = text "Error: Cannot open UDP socket: " ++ problem

-- The messages of `TransferModeCodec::decode`.
pub error_text : CodecError → Text
error_text truncated_header = text "truncated MODE B header"
error_text truncated_payload = text "truncated MODE B payload"
error_text no_eof_block = text "MODE B stream has no EOF block"
error_text after_eof_block = text "data found after MODE B EOF block"
error_text truncated_escape = text "truncated MODE C escape"
error_text invalid_literal = text "invalid MODE C literal string"
error_text invalid_repeated = text "invalid MODE C repeated string"
error_text invalid_filler = text "invalid MODE C filler string"
error_text no_eof_descriptor = text "MODE C stream has no EOF descriptor"
error_text after_eof_descriptor = text "data found after MODE C EOF descriptor"

unfoldable pub decode_problem : Decoded → Text
unfolding error_text
decode_problem (ok bytes) = []
decode_problem (fail problem output) = error_text problem
decode_problem stuck = []

-- The end of a transfer, behind its last reply.
unfoldable pub final_text : Text → Text → Text
final_text opening reply =
    if is_empty reply
    then opening ++ text "\nError: Missing final server reply."
    else opening ++ 10 ∷ reply

-- A passive transfer needs a fresh socket.
unfoldable pub with_socket : ClientState → Bool → List Text → Option Text → Answered → Answered
unfolding shows no_socket
with_socket c active asked none a = a
with_socket c active asked (some problem) a =
    if active then a else shows c asked (no_socket problem)
