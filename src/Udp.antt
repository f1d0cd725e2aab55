-- ===== src/Udp.antt =====
-- What src/rdt/UDPSocket.cpp gives its callers: datagrams with the endpoint that they came from. The
-- socket calls themselves belong to the system, so what arrives is an input of the model.
pub mod Socket
pub mod Descriptors
use hybrid_ftp.Base.{ℕ, String, Bool, List, take}

pub record Endpoint : Type 0 where
  pub ip : String
  pub port : ℕ

abbrev pub no_endpoint : Endpoint
no_endpoint = record { ip = ""; port = 0 }

-- A datagram: its bytes and the endpoint that it came from, or that it is sent to.
pub record Datagram : Type 0 where
  pub bytes : List ℕ
  pub peer : Endpoint

-- `recvFrom` writes at most the size of the buffer; the rest of a datagram is lost.
unfoldable pub received : ℕ → Datagram → List ℕ
received buffer_size d = take buffer_size d.bytes

-- How one round of a loop ends: it goes on from a state, or the function returns. Both carry what
-- was sent in the round.
pub data Outcome {ℓ} (S : Type ℓ) : Type ℓ where
  continue : S → List Datagram → Outcome S
  return : Bool → S → List Datagram → Outcome S

-- Where a loop that takes one input a round stands.
pub data Phase : Type 0 where
  running : Phase
  returned : Bool → Phase
