-- ===== src/Network.antt =====
-- One transfer of src/rdt/SlidingWindow.cpp as a whole: a sender in `sendData`, a receiver in
-- `receiveData`, and between them a network that may lose, repeat, delay and reorder datagrams, and
-- may damage them where the checksum shows it. Each side takes its rounds at any time, with any
-- result of its cancellation callback and of its `sendTo` calls; while the sender waits for the reply
-- to a round, the receiver may take any number of rounds, so the reply may answer what was just sent.
pub mod Arrivals
pub mod Invariant
pub mod Reliability
pub mod Progress
pub mod Windows
pub mod Liveness
pub mod Blocked
pub mod Runs
pub mod Packets
use hybrid_ftp.Base.{ℕ, ◌<◌, ◌≡◌, false, Option, none, some, List, [], ◌∷◌, ◌++◌, length}
use hybrid_ftp.Header.{header_size}
use hybrid_ftp.Header.Detection.{passes}
use hybrid_ftp.Udp.{
  Endpoint, Datagram, received, Outcome, continue, return, Phase, running, returned,
}
use hybrid_ftp.Receiver.{
  receive_buffer_size, ReceiverState, ReceiveEvent, receive_round, start_receiver,
}
use hybrid_ftp.Double.{Double}
use hybrid_ftp.Sender.{ack_buffer_size, SenderConfig, SendEvent, start_sender}
use hybrid_ftp.Sender.Run.{sending, SenderRun, send_step}

-- A list holds an element.
pub data In {A : Type 0} (a : A) : List A → Type 0 where
  here : {l : List A} → In a (a ∷ l)
  there : {b : A} {l : List A} → In a l → In a (b ∷ l)

-- What `recvFrom` may give from a channel on which these datagrams were sent: nothing in time, one
-- of them at any time later, or bytes that are too short or fail the checksum.
pub data Delivery (channel : List (List ℕ)) (buffer_size : ℕ) : Option Datagram → Type 0 where
  timed_out : Delivery channel buffer_size none
  arrived : (d : Datagram) → In d.bytes channel → Delivery channel buffer_size (some d)
  cut_off :
      (d : Datagram)
      → length (received buffer_size d) < header_size
      → Delivery channel buffer_size (some d)
  damaged :
      (d : Datagram)
      → passes (received buffer_size d) ≡ false
      → Delivery channel buffer_size (some d)

-- Both ends, and all that each has sent so far.
pub record System (D : Type 0) : Type 0 where
  pub sender_run : SenderRun D
  pub receiver_state : ReceiverState
  pub receiver_phase : Phase
  pub data_channel : List (List ℕ)
  pub ack_channel : List (List ℕ)

abbrev pub bytes_of : List Datagram → List (List ℕ)
bytes_of [] = []
bytes_of (d ∷ ds) = d.bytes ∷ bytes_of ds

pub after_receive : {D : Type 0} → System D → Outcome ReceiverState → System D
after_receive sys (continue s sent) = record sys {
  receiver_state = s;
  ack_channel = bytes_of sent ++ sys.ack_channel;
}
after_receive sys (return result s sent) = record sys {
  receiver_state = s;
  receiver_phase = returned result;
  ack_channel = bytes_of sent ++ sys.ack_channel;
}

-- A receiver that has returned takes no more rounds.
pub receiver_in : {D : Type 0} → Phase → ℕ → System D → ReceiveEvent → System D
unfolding after_receive
receiver_in running window sys e = after_receive sys (receive_round window sys.receiver_state e)
receiver_in (returned result) window sys e = sys

unfoldable pub receiver_moves : {D : Type 0} → ℕ → System D → ReceiveEvent → System D
unfolding receiver_in
receiver_moves window sys e = receiver_in sys.receiver_phase window sys e

module _ {D : Type 0} ⦃f : Double D⦄ (cfg : SenderConfig D) (window : ℕ)
    (segs : List (List ℕ)) where
  -- What a round sends before it waits: the reply has no part in it (`send_step-sent`).
  unfoldable pub sender_sends : System D → SendEvent → System D
  sender_sends sys e =
      let (_, sent) = send_step cfg segs sys.sender_run (record e { reply = none }) in
      record sys { data_channel = bytes_of sent ++ sys.data_channel }

  -- How the round ends, once its reply is there.
  unfoldable pub sender_ends : System D → SendEvent → System D
  sender_ends sys e = record sys { sender_run = (send_step cfg segs sys.sender_run e).0 }

  -- The rounds that the receiver takes while the sender waits for its reply.
  pub data Waits (start : System D) : System D → Type 0 where
    at_once : Waits start start
    meanwhile :
        {sys : System D}
        → Waits start sys
        → (e : ReceiveEvent) → Delivery sys.data_channel receive_buffer_size e.incoming
        → Waits start (receiver_moves window sys e)

  pub data Step : System D → System D → Type 0 where
    sender_step :
        {sys' : System D}
        → (sys : System D) (e : SendEvent) → Waits (sender_sends sys e) sys'
        → Delivery sys'.ack_channel ack_buffer_size e.reply
        → Step sys (sender_ends sys' e)
    receiver_step :
        (sys : System D) (e : ReceiveEvent)
        → Delivery sys.data_channel receive_buffer_size e.incoming
        → Step sys (receiver_moves window sys e)

  pub data Reach (start : System D) : System D → Type 0 where
    begin : Reach start start
    next : {sys sys' : System D} → Reach start sys → Step sys sys' → Reach start sys'

  -- Both ends enter their functions, and nothing has been sent.
  abbrev pub initial : Endpoint → System D
  initial peer = record {
    sender_run = record { state = start_sender cfg; phase = sending };
    receiver_state = start_receiver peer;
    receiver_phase = running;
    data_channel = [];
    ack_channel = [];
  }
