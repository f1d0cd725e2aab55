-- ===== src/Header.antt =====
-- src/rdt/CustomUDPHeader.cpp and .h: the packet header, its flags, its 15 bytes in network order and
-- the checksum. A field is a number with its range in `IsValid`; `x & (2^k - 1)` and `x >> k` are
-- written `x % 2 ^ k` and `x / 2 ^ k`.
pub mod Wire
pub mod Checksum
pub mod Detection
pub mod Packet
use hybrid_ftp.Base.{
  ℕ, suc, ◌+◌, ◌-◌, ◌*◌, ◌/◌, ◌%◌, ◌^◌, ◌<◌, bit_and, bit_or, Bool, not, List, [], ◌∷◌, ◌++◌, ◌==◌,
  if◌then◌else◌, get_or,
}

pub record CustomUdpHeader : Type 0 where
  pub seq_num : ℕ
  pub ack_num : ℕ
  pub payload_len : ℕ
  pub window_size : ℕ
  pub checksum : ℕ
  pub flags : ℕ

pub record IsValid (h : CustomUdpHeader) : Type 0 where
  pub seq_num : h.seq_num < 2 ^ 32
  pub ack_num : h.ack_num < 2 ^ 32
  pub payload_len : h.payload_len < 2 ^ 16
  pub window_size : h.window_size < 2 ^ 16
  pub checksum : h.checksum < 2 ^ 16
  pub flags : h.flags < 2 ^ 8

abbrev pub header_size : ℕ
header_size = 15

-- `CustomUDPHeader hdr{}`
abbrev pub empty_header : CustomUdpHeader
empty_header = record {
  seq_num = 0;
  ack_num = 0;
  payload_len = 0;
  window_size = 0;
  checksum = 0;
  flags = 0;
}

abbrev pub flag_syn : ℕ
flag_syn = 1

abbrev pub flag_ack : ℕ
flag_ack = 2

abbrev pub flag_data : ℕ
flag_data = 4

abbrev pub flag_fin : ℕ
flag_fin = 8

abbrev pub flag_nak : ℕ
flag_nak = 16

unfoldable pub set_flag : CustomUdpHeader → ℕ → CustomUdpHeader
set_flag h flag = record h { flags = bit_or h.flags flag }

-- `static_cast<uint8_t>(~flag)` is 255 - flag.
pub clear_flag : CustomUdpHeader → ℕ → CustomUdpHeader
clear_flag h flag = record h { flags = bit_and h.flags (255 - flag) }

unfoldable pub has_flag : CustomUdpHeader → ℕ → Bool
has_flag h flag = not (bit_and h.flags flag == 0)

-- The bytes of `htons` and `htonl` of a word in memory, highest first.
pub put_u16 : ℕ → List ℕ
put_u16 x = (x / 2 ^ 8 % 256) ∷ (x % 256) ∷ []

pub put_u32 : ℕ → List ℕ
put_u32 x = (x / 2 ^ 24 % 256) ∷ (x / 2 ^ 16 % 256) ∷ (x / 2 ^ 8 % 256) ∷ (x % 256) ∷ []

unfoldable pub serialize_header : CustomUdpHeader → List ℕ
unfolding put_u16 put_u32
serialize_header h =
    put_u32 h.seq_num
    ++ (put_u32 h.ack_num
        ++ (put_u16 h.payload_len
            ++ (put_u16 h.window_size ++ (put_u16 h.checksum ++ (h.flags ∷ [])))))

-- `ntohs` and `ntohl` of the bytes that stand at an offset. The callers have checked the size.
pub get_u16 : List ℕ → ℕ → ℕ
get_u16 buffer i = get_or buffer i 0 * 2 ^ 8 + get_or buffer (suc i) 0

pub get_u32 : List ℕ → ℕ → ℕ
get_u32 buffer i =
    get_or buffer i 0 * 2 ^ 24
    + get_or buffer (suc i) 0 * 2 ^ 16
    + get_or buffer (suc (suc i)) 0 * 2 ^ 8
    + get_or buffer (suc (suc (suc i))) 0

unfoldable pub deserialize_header : List ℕ → CustomUdpHeader
unfolding get_u16 get_u32
deserialize_header buffer = record {
  seq_num = get_u32 buffer 0;
  ack_num = get_u32 buffer 4;
  payload_len = get_u16 buffer 8;
  window_size = get_u16 buffer 10;
  checksum = get_u16 buffer 12;
  flags = get_or buffer 14 0;
}

-- One addition of the checksum loop on a `uint32_t`, with the carry folded in.
unfoldable pub add_word : ℕ → ℕ → ℕ
add_word sum word =
    let total = (sum + word) % 2 ^ 32 in
    if total / 2 ^ 16 == 0 then total else total % 2 ^ 16 + total / 2 ^ 16

unfoldable pub checksum_loop : ℕ → List ℕ → ℕ
checksum_loop sum [] = sum
checksum_loop sum (x ∷ []) = add_word sum (x * 256)
checksum_loop sum (x ∷ y ∷ rest) = checksum_loop (add_word sum (bit_or (x * 256) y)) rest

-- `~sum & 0xFFFF`
unfoldable pub internet_checksum : List ℕ → ℕ
internet_checksum data_bytes = (2 ^ 32 - 1 - checksum_loop 0 data_bytes) % 2 ^ 16

unfoldable pub calculate_checksum : CustomUdpHeader → List ℕ → ℕ
calculate_checksum h payload =
    internet_checksum (serialize_header (record h { checksum = 0 }) ++ payload)

unfoldable pub verify_checksum : CustomUdpHeader → List ℕ → Bool
verify_checksum h payload = h.checksum == calculate_checksum h payload

-- What the senders do with a header: stamp it, and put the payload behind it.
unfoldable pub make_packet : CustomUdpHeader → List ℕ → List ℕ
make_packet h payload =
    serialize_header (record h { checksum = calculate_checksum h payload }) ++ payload
