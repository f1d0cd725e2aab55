-- ===== src/Udp/Descriptors.antt =====
-- The descriptor that an object of src/rdt/UDPSocket.cpp owns.
use hybrid_ftp.Base.{
  ℕ, ◌+◌, ◌*◌, ◌<◌, String, ◌≡◌, refl, ap, Bool, true, false, Option, none, some, List, [], ◌∷◌,
  arith,
}
use hybrid_ftp.Udp.{Endpoint, Datagram}
use hybrid_ftp.Udp.Socket.{
  bind_before_open, not_open, thrown, UdpSocket, is_open, udp_socket, close_descriptor, open_socket,
  bind_socket, send_datagram, recv_from, timeval_of, set_recv_timeout, get_local_port, close_sock,
  close_socket,
}

-- The operations that change the object; the others leave it as it is.
pub data SocketCall : Type 0 where
  open_call : Option ℕ → SocketCall
  close_call : SocketCall

unfoldable pub call_socket : UdpSocket → SocketCall → UdpSocket
unfolding open_socket close_socket
call_socket s (open_call created) = (open_socket s created).0
call_socket s close_call = close_socket s

pub call_all : UdpSocket → List SocketCall → UdpSocket
call_all s [] = s
call_all s (c ∷ cs) = call_all (call_socket s c) cs

-- No call open_call an object that is open.
unfoldable pub OpensClosed : UdpSocket → List SocketCall → Type 0
OpensClosed s [] = Unit
OpensClosed s (open_call created ∷ cs) =
    (is_open s ≡ false) × OpensClosed (call_socket s (open_call created)) cs
OpensClosed s (close_call ∷ cs) = OpensClosed (call_socket s close_call) cs

-- Apart from the others, exactly the object's own descriptor is open.
data Owns (others : List ℕ) : UdpSocket → Type 0 where
  owns_none : Owns others (record { sock = none; live = others })
  owns_one : (d : ℕ) → Owns others (record { sock = some d; live = d ∷ others })

pub close_own : (d : ℕ) (others : List ℕ) → close_descriptor d (d ∷ others) ≡ others
unfolding close_descriptor
close_own d others = ground arith

close_socket-Owns :
    {others : List ℕ} {s : UdpSocket}
    → Owns others s
    → close_socket s ≡ record { sock = none; live = others }
unfolding close_socket close_sock
close_socket-Owns owns_none = refl
close_socket-Owns {others = others} (owns_one d) =
    ap (λ live. record { sock = none; live = live }) (close_own d others)

open_socket-Owns :
    (others : List ℕ) (created : Option ℕ) → Owns others (open_socket (udp_socket others) created).0
unfolding open_socket udp_socket
open_socket-Owns others none = owns_none
open_socket-Owns others (some d) = owns_one d

call_socket-Owns :
    {others : List ℕ} {s : UdpSocket} (c : SocketCall)
    → Owns others s
    → OpensClosed s (c ∷ [])
    → Owns others (call_socket s c)
unfolding call_socket OpensClosed udp_socket
call_socket-Owns {others = others} (open_call created) owns_none h = open_socket-Owns others created
call_socket-Owns (open_call created) (owns_one d) h = let e : true ≡ false = h.0 in absurd (cc e)
call_socket-Owns {others = others} {s = s} close_call o h = rw (close_socket-Owns o) owns_none

call_all-Owns :
    {others : List ℕ} (cs : List SocketCall) {s : UdpSocket}
    → Owns others s
    → OpensClosed s cs
    → Owns others (call_all s cs)
unfolding call_all OpensClosed
call_all-Owns [] o h = o
call_all-Owns (open_call created ∷ cs) o h =
    call_all-Owns cs (call_socket-Owns (open_call created) o (h.0, tt)) h.1
call_all-Owns (close_call ∷ cs) o h = call_all-Owns cs (call_socket-Owns close_call o tt) h

-- No descriptor is lost. After any calls that open the object only while it is closed, with any
-- results of `socket`, the destructor leaves the object closed, and of the descriptors exactly those
-- open that were open before.
pub descriptors_returned :
    (others : List ℕ) (cs : List SocketCall)
    → OpensClosed (udp_socket others) cs
    → close_socket (call_all (udp_socket others) cs) ≡ udp_socket others
unfolding udp_socket
descriptors_returned others cs h = close_socket-Owns (call_all-Owns cs owns_none h)

-- A second `open` without a `close` loses a descriptor: it stays open behind the destructor.
second_open_leaks :
    (others : List ℕ) (d d' : ℕ)
    → close_socket (call_all (udp_socket others) (open_call (some d) ∷ open_call (some d') ∷ []))
      ≡ record { sock = none; live = d ∷ others }
unfolding udp_socket call_all call_socket open_socket close_socket close_sock
second_open_leaks others d d' =
    ap (λ live. record { sock = none; live = live }) (close_own d' (d ∷ others))

-- What an object that is not open does: each operation throws, and its port is 0.
closed_refuses :
    (s : UdpSocket) (port_number size ms : ℕ) (bound parsed : Bool) (ip : String)
    (sent named : Option ℕ) (before : Endpoint) (incoming : Option Datagram)
    → is_open s ≡ false
    → (bind_socket s port_number bound ≡ thrown bind_before_open)
      × (send_datagram s ip parsed sent ≡ thrown not_open)
      × (recv_from s size before incoming ≡ thrown not_open)
      × (set_recv_timeout s ms ≡ thrown not_open)
      × (get_local_port s named ≡ 0)
unfolding bind_socket send_datagram recv_from set_recv_timeout get_local_port
closed_refuses s port_number size ms bound parsed ip sent named before incoming shut =
    (rw shut refl, rw shut refl, rw shut refl, rw shut refl, rw shut refl)

-- The two parts of the timeout are the milliseconds, and the second one is less than a second.
timeval_of_lem :
    (ms : ℕ)
    → ((timeval_of ms).tv_sec * 1000000 + (timeval_of ms).tv_usec ≡ ms * 1000)
      × ((timeval_of ms).tv_usec < 1000000)
unfolding timeval_of
timeval_of_lem ms = (omega arith, omega arith)
