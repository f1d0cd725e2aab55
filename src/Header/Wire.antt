-- ===== src/Header/Wire.antt =====
-- The bytes of a header and back.
use hybrid_ftp.Base.{ℕ, ◌<◌, ◌≡◌, refl, List, [], ◌∷◌, ◌++◌, arith, IsByte, length, All}
use hybrid_ftp.Header.{CustomUdpHeader, IsValid, header_size, serialize_header, deserialize_header}

pub length-serialize_header : (h : CustomUdpHeader) → length (serialize_header h) ≡ header_size
unfolding serialize_header
length-serialize_header h = refl

pub serialize_header-IsByte :
    (h : CustomUdpHeader) → h.flags < 256 → All IsByte (serialize_header h)
unfolding serialize_header
serialize_header-IsByte h small = omega arith

-- Reading the 15 bytes back gives every field that is in its range, whatever follows them.
pub deserialize-serialize :
    (h : CustomUdpHeader) (rest : List ℕ)
    → IsValid h
    → deserialize_header (serialize_header h ++ rest) ≡ h
unfolding deserialize_header serialize_header
deserialize-serialize h rest v = ground arith

-- Any 15 bytes are the bytes of a valid header, the one that is read from them.
pub serialize-deserialize :
    (buffer : List ℕ)
    → length buffer ≡ header_size
    → All IsByte buffer
    → IsValid (deserialize_header buffer) × (serialize_header (deserialize_header buffer) ≡ buffer)
unfolding deserialize_header serialize_header
serialize-deserialize
      (a0 ∷ a1 ∷ a2 ∷ a3 ∷ a4 ∷ a5 ∷ a6 ∷ a7 ∷ a8 ∷ a9 ∷ a10 ∷ a11 ∷ a12 ∷ a13 ∷ a14 ∷ []) size
      bytes =
    (ground arith, ground arith)
serialize-deserialize _ size bytes = absurd (omega arith)
