-- ===== src/Udp/Socket.antt =====
-- src/rdt/UDPSocket.cpp and src/rdt/UDPSocket.h: the object that owns a descriptor of the system. What
-- the system's calls return is an input of each operation, and the descriptors that are open in the
-- process are kept beside the object. The code is that of a POSIX system.
use hybrid_ftp.Base.{
  ℕ, ◌*◌, ◌/◌, ◌%◌, String, Bool, true, false, not, Option, none, some, List, [], ◌∷◌, ◌==◌,
  if◌then◌else◌,
}
use hybrid_ftp.Udp.{Endpoint, Datagram, received}

-- What an operation throws.
pub data SocketError : Type 0 where
  not_created : SocketError
  bind_before_open : SocketError
  bind_failed : ℕ → SocketError
  not_open : SocketError
  bad_address : String → SocketError

pub data Attempted {ℓ} (A : Type ℓ) : Type ℓ where
  completed : A → Attempted A
  thrown : SocketError → Attempted A

-- The object, and the descriptors that are open. `none` is `INVALID_SOCKET_VAL`.
pub record UdpSocket : Type 0 where
  pub sock : Option ℕ
  pub live : List ℕ

abbrev pub is_open : UdpSocket → Bool
is_open s = elim s.sock [ none ↦ false | some d ↦ true ]

-- The constructor.
unfoldable pub udp_socket : List ℕ → UdpSocket
udp_socket live = record { sock = none; live = live }

unfoldable pub close_descriptor : ℕ → List ℕ → List ℕ
close_descriptor d [] = []
close_descriptor d (x ∷ xs) = let rest = close_descriptor d xs in if x == d then xs else x ∷ rest

-- `open`, where `created` is what `socket` returns. The old descriptor is not looked at.
unfoldable pub open_socket : UdpSocket → Option ℕ → UdpSocket × Attempted (Unit {0})
open_socket s none = (record s { sock = none }, thrown not_created)
open_socket s (some d) = (record { sock = some d; live = d ∷ s.live }, completed tt)

-- `bind`, where `bound` tells whether the system's `bind` succeeds.
unfoldable pub bind_socket : UdpSocket → ℕ → Bool → Attempted (Unit {0})
bind_socket s port bound =
    if not (is_open s)
    then thrown bind_before_open
    else if not bound
    then thrown (bind_failed port)
    else completed tt

-- `sendTo`, where `parsed` tells whether `inet_pton` takes the address, and `sent` is what `sendto`
-- returns (`none` is -1).
unfoldable pub send_datagram : UdpSocket → String → Bool → Option ℕ → Attempted (Option ℕ)
send_datagram s ip parsed sent =
    if not (is_open s)
    then thrown not_open
    else if not parsed
    then thrown (bad_address ip)
    else completed sent

-- The bytes in the buffer and the out-parameters; an error leaves the latter as they were.
pub received_from : ℕ → Endpoint → Option Datagram → Option (List ℕ) × Endpoint
received_from buffer_size before none = (none, before)
received_from buffer_size before (some d) = (some (received buffer_size d), d.peer)

-- `recvFrom`, where `incoming` is what `recvfrom` takes (`none`: it fails, or its time runs out).
unfoldable pub recv_from :
    UdpSocket → ℕ → Endpoint → Option Datagram → Attempted (Option (List ℕ) × Endpoint)
unfolding received_from
recv_from s buffer_size before incoming =
    if not (is_open s)
    then thrown not_open
    else completed (received_from buffer_size before incoming)

-- The `timeval` of a number of milliseconds.
pub record Timeval : Type 0 where
  pub tv_sec : ℕ
  pub tv_usec : ℕ

unfoldable pub timeval_of : ℕ → Timeval
timeval_of milliseconds = record {
  tv_sec = milliseconds / 1000;
  tv_usec = (milliseconds % 1000) * 1000;
}

-- `setRecvTimeout`: what it gives to `setsockopt`, whose result is not looked at.
unfoldable pub set_recv_timeout : UdpSocket → ℕ → Attempted Timeval
unfolding timeval_of
set_recv_timeout s milliseconds =
    if not (is_open s) then thrown not_open else completed (timeval_of milliseconds)

pub port_or_zero : Option ℕ → ℕ
port_or_zero none = 0
port_or_zero (some p) = p

-- `getLocalPort`, where `named` is what `getsockname` gives.
unfoldable pub get_local_port : UdpSocket → Option ℕ → ℕ
unfolding port_or_zero
get_local_port s named = if not (is_open s) then 0 else port_or_zero named

unfoldable pub close_sock : Option ℕ → List ℕ → UdpSocket
unfolding close_descriptor
close_sock none live = record { sock = none; live = live }
close_sock (some d) live = record { sock = none; live = close_descriptor d live }

-- `close`, which the destructor calls too.
unfoldable pub close_socket : UdpSocket → UdpSocket
unfolding close_sock
close_socket s = close_sock s.sock s.live
