-- ===== src/Session/Channel.antt =====
-- src/server/Session.cpp, `handle_command`: the commands that choose the data channel, and the
-- listings that are sent over it.
use hybrid_ftp.Base.{
  ℕ, ◌*◌, ◌/◌, ◌%◌, ◌^◌, bit_or, Bool, true, false, not, ◌||◌, Option, none, some, List, [], ◌∷◌,
  ◌++◌, ltb, ◌==◌, if◌then◌else◌, take,
}
use hybrid_ftp.Codec.{encode}
use hybrid_ftp.Header.{header_size}
use hybrid_ftp.Text.{Text, text, is_empty}
use hybrid_ftp.Path.Listing.{decimal}
use hybrid_ftp.Session.{
  DataMode, mode_none, mode_active, mode_passive, SessionState, Knock, PortNumbers, CommandEvent,
  Outgoing, Handled, reply_line, answer,
}

-- Any of the numbers is over 255.
unfoldable pub out_of_range : PortNumbers → Bool
out_of_range n =
    ltb 255 n.h1 || ltb 255 n.h2 || ltb 255 n.h3 || ltb 255 n.h4 || ltb 255 n.p1 || ltb 255 n.p2

unfoldable pub dotted : PortNumbers → Text
unfolding decimal
dotted n = decimal n.h1 ++ 46 ∷ decimal n.h2 ++ 46 ∷ decimal n.h3 ++ 46 ∷ decimal n.h4

-- `static_cast<uint16_t>((p1 << 8) | p2)`
unfoldable pub port_of : PortNumbers → ℕ
port_of n = bit_or (n.p1 * 2 ^ 8) n.p2 % 2 ^ 16

unfoldable pub set_active : PortNumbers → SessionState → SessionState
unfolding dotted port_of
set_active n s = record s {
  active_ip = dotted n;
  active_port = port_of n;
  data_mode = mode_active;
  passive_socket = none;
}

unfoldable pub commas : Text → Text
commas [] = []
commas (c ∷ cs) = (if c == 46 then 44 else c) ∷ commas cs

-- `snprintf` into 128 bytes.
unfoldable pub passive_reply : Text → ℕ → Text
unfolding commas decimal
passive_reply ip p = take 127 (
    text "227 Entering Passive Mode ("
    ++ commas ip
    ++ 44 ∷ decimal (p / 2 ^ 8 % 2 ^ 8)
    ++ 44 ∷ decimal (p % 2 ^ 8)
    ++ reply_line ").")

-- A passive socket serves one transfer.
unfoldable pub close_passive : SessionState → SessionState
close_passive s = record s { passive_socket = none; data_mode = mode_none }

-- `sendTextOverDataChannel` with `open_data_channel`: what it returns, the session behind it, its
-- replies and the buffer it sends.
pub record Transferred : Type 0 where
  pub done : Bool
  pub after : SessionState
  pub said : List Text
  pub buffers : List Outgoing

unfoldable pub refuse_channel : SessionState → Text → Transferred
refuse_channel s r = record { done = false; after = s; said = r ∷ []; buffers = [] }

unfoldable pub send_passive : CommandEvent → SessionState → List ℕ → Option Knock → Transferred
unfolding close_passive
send_passive e s bytes none = record {
  done = false;
  after = close_passive s;
  said = [];
  buffers = [];
}
send_passive e s bytes (some k) =
    if ltb k.size header_size
    then record { done = false; after = close_passive s; said = []; buffers = [] }
    else record {
      done = e.delivered;
      after = close_passive s;
      said = [];
      buffers = record { ip = k.ip; port = k.port; buffer = bytes } ∷ [];
    }

-- What `open_data_channel` gives: a refusal, the passive socket, or a fresh socket and the client's
-- endpoint.
pub data Channel : Type 0 where
  no_channel : Text → Channel
  passive_channel : Channel
  active_channel : Text → ℕ → Channel

unfoldable pub open_passive : Option ℕ → Channel
open_passive none = no_channel (reply_line "425 No passive socket available.")
open_passive (some p) = passive_channel

pub open_active : Option ℕ → Text → ℕ → Channel
open_active none ip p = no_channel (reply_line "425 Cannot open data connection.")
open_active (some own) ip p = active_channel ip p

unfoldable pub open_data_channel : CommandEvent → SessionState → Channel
unfolding open_passive open_active
open_data_channel e s = elim s.data_mode [
  | mode_none ↦ no_channel (reply_line "425 Use PORT or PASV first.")
  | mode_passive ↦ open_passive s.passive_socket
  | mode_active ↦
      if is_empty s.active_ip || s.active_port == 0
      then no_channel (reply_line "425 Use PORT or PASV first.")
      else open_active e.bound s.active_ip s.active_port
]

unfoldable pub send_over : CommandEvent → SessionState → List ℕ → Channel → Transferred
unfolding refuse_channel send_passive
send_over e s bytes (no_channel r) = refuse_channel s r
send_over e s bytes passive_channel = send_passive e s bytes e.knock
send_over e s bytes (active_channel ip p) = record {
  done = e.delivered;
  after = s;
  said = [];
  buffers = record { ip = ip; port = p; buffer = bytes } ∷ [];
}

unfoldable pub send_text : CommandEvent → SessionState → Text → Transferred
unfolding encode send_over open_data_channel
send_text e s content = send_over e s (encode content s.transfer_mode) (open_data_channel e s)

pub is_mode_none : DataMode → Bool
is_mode_none mode_none = true
is_mode_none mode_active = false
is_mode_none mode_passive = false

module _ {F : Type 0} (f : F) where
  unfoldable pub use_numbers : SessionState → Option PortNumbers → Handled F
  unfolding answer out_of_range set_active
  use_numbers s none = answer f s (reply_line "501 Invalid PORT format.")
  use_numbers s (some n) =
      if out_of_range n
      then answer f s (reply_line "501 Invalid IP/port values.")
      else answer f (set_active n s) (reply_line "200 PORT command successful.")

  unfoldable pub port_command : CommandEvent → SessionState → Text → Handled F
  unfolding answer use_numbers
  port_command e s argument =
      if is_empty argument
      then answer f s (reply_line "501 Missing IP and port.")
      else use_numbers s e.scanned

  unfoldable pub pasv_command : CommandEvent → SessionState → Handled F
  unfolding answer passive_reply
  pasv_command e s = elim e.bound [
    | none ↦ answer f s (reply_line "425 Cannot open passive connection.")
    | some p ↦
        answer f (record s { passive_socket = some p; data_mode = mode_passive })
          (passive_reply e.socket_ip p)
  ]

  unfoldable pub abor_command : SessionState → Handled F
  unfolding close_passive
  abor_command s = record {
    files = f;
    session = close_passive s;
    replies =
        reply_line "426 Connection closed; transfer aborted."
        ∷ reply_line "226 Abort successful."
        ∷ [];
    sent = [];
    quits = false;
  }

  -- The end of LIST and NLST behind the 150 reply.
  unfoldable pub finish_listing : Text → Transferred → Handled F
  finish_listing opening t = record {
    files = f;
    session = t.after;
    replies =
        opening ∷ t.said
        ++ (if t.done
            then reply_line "226 Directory transfer complete."
            else reply_line "426 Connection closed; directory transfer aborted.")
          ∷ [];
    sent = t.buffers;
    quits = false;
  }

  unfoldable pub listing_command :
      CommandEvent → SessionState → Text → Text → Option Text → Handled F
  unfolding answer is_mode_none send_text finish_listing
  listing_command e s refusal opening none = answer f s refusal
  listing_command e s refusal opening (some content) =
      if is_mode_none s.data_mode
      then answer f s (reply_line "425 Use PORT or PASV first.")
      else if not e.reply_sent
      then answer f s opening
      else finish_listing opening (send_text e s content)
