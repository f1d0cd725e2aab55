-- ===== src/Server.antt =====
-- src/server/ServerManager.h and src/server/ServerManager.cpp: the listener, the table of clients, and
-- the loop that accepts them. The lock makes each operation on the table one step.
pub mod Table
pub mod Sessions
use mathlib.Core.Option
use hybrid_ftp.Base.{
  ℕ, suc, Bool, true, false, not, ◌&&◌, Option, none, some, List, [], ◌∷◌, map, ◌==◌, if◌then◌else◌,
  take,
}
use hybrid_ftp.Text.{Text}

pub record ClientRecord : Type 0 where
  pub socket_fd : ℕ
  pub client_ip : Text
  pub client_port : ℕ
  pub active : Bool

abbrev pub max_clients : ℕ
max_clients = 100

pub record ServerState : Type 0 where
  pub listen_fd : Option ℕ
  pub server_port : ℕ
  pub is_running : Bool
  pub clients : List ClientRecord

-- `strncpy` into 46 bytes, of which the last is a zero.
abbrev pub copied_ip : Text → Text
copied_ip ip = take 45 ip

-- A record that `clients_add` fills in.
abbrev pub filled : ℕ → Text → ℕ → ClientRecord
filled fd ip p = record { socket_fd = fd; client_ip = copied_ip ip; client_port = p; active = true }

-- The first record that is not active is filled in; with it comes its index, and none if there is none.
unfoldable pub add_record : List ClientRecord → ClientRecord → List ClientRecord × Option ℕ
add_record [] r = ([], none)
add_record (c ∷ cs) r =
    let rest = add_record cs r in
    if not c.active then (r ∷ cs, some 0) else (c ∷ rest.0, Option.map suc rest.1)

-- The first active record with the descriptor is given up.
pub remove_record : List ClientRecord → ℕ → List ClientRecord
remove_record [] fd = []
remove_record (c ∷ cs) fd =
    let rest = remove_record cs fd in
    if c.active && (c.socket_fd == fd) then record c { active = false } ∷ cs else c ∷ rest

unfoldable pub clients_add : ServerState → ℕ → Text → ℕ → ServerState × Option ℕ
unfolding add_record
clients_add s fd ip p =
    let added = add_record s.clients (filled fd ip p) in (record s { clients = added.0 }, added.1)

pub clients_remove : ServerState → ℕ → ServerState
unfolding remove_record
clients_remove s fd = record s { clients = remove_record s.clients fd }

-- The records that `clients_print` prints.
pub printed : List ClientRecord → List ClientRecord
printed [] = []
printed (c ∷ cs) = if c.active then c ∷ printed cs else printed cs

-- `server_init` on a table of any content: the descriptor of `socket`, and whether `bind` and `listen`
-- succeed. The result is whether it returned 0.
unfoldable pub all_inactive : List ClientRecord → List ClientRecord
all_inactive [] = []
all_inactive (c ∷ cs) = record c { active = false } ∷ all_inactive cs

unfoldable pub server_init : ServerState → ℕ → Option ℕ → Bool → Bool → ServerState × Bool
unfolding all_inactive
server_init s p none binds listens = (
  record s {
    server_port = p;
    is_running = false;
    clients = all_inactive s.clients;
    listen_fd = none;
  },
  false,
)
server_init s p (some fd) binds listens = (
  record s {
    server_port = p;
    is_running = false;
    clients = all_inactive s.clients;
    listen_fd = some fd;
  },
  binds && listens,
)

-- `SessionArgs`, for the thread of a client.
pub record SessionArgs : Type 0 where
  pub session_fd : ℕ
  pub session_ip : Text
  pub session_port : ℕ

-- What `accept` gives.
pub data Accept : Type 0 where
  accept_failed : Accept
  accepted_client : ℕ → Text → ℕ → Accept

-- One round of the loop in `server_run`: the thread it starts, and whether the loop goes on.
pub record AcceptRound : Type 0 where
  pub server : ServerState
  pub started : Option SessionArgs
  pub goes_on : Bool

pub server_round : ServerState → Accept → AcceptRound
unfolding clients_add
server_round s accept_failed = record { server = s; started = none; goes_on = s.is_running }
server_round s (accepted_client fd ip p) = record {
  server = (clients_add s fd ip p).0;
  started = some (record { session_fd = fd; session_ip = copied_ip ip; session_port = p });
  goes_on = s.is_running;
}

pub server_stop : ServerState → ServerState
server_stop s = record s { is_running = false }

-- What `handle_client_thread` does with the table behind `close`.
pub end_session : ServerState → ℕ → ServerState
unfolding clients_remove
end_session s fd = clients_remove s fd
