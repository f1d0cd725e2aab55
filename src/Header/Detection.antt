-- ===== src/Header/Detection.antt =====
-- A changed byte makes the checksum fail, wherever in the packet it stands.
use hybrid_ftp.Base.{
  ℕ, ◌+◌, ◌*◌, ◌≤◌, ◌<◌, ◌≡◌, sym, ap, ◌∙◌, ◌≢◌, ◌⊎◌, inl, inr, Bool, true, false, List, [], ◌∷◌,
  ◌++◌, arith, Bool-cases, IsByte, length, take, drop, All, length-append, take-append-drop,
  length-take, All-append, All-drop, All-take, All-append_parts,
}
use hybrid_ftp.Header.{
  CustomUdpHeader, header_size, serialize_header, deserialize_header, verify_checksum,
}
use hybrid_ftp.Header.Wire.{deserialize-serialize, serialize-deserialize}
use hybrid_ftp.Header.Checksum.{word_total, verified_multiple}

-- One byte counts for itself or for 256 times itself, by its place.
word_total_change :
    (front back : List ℕ) (a b : ℕ)
    → (word_total (front ++ a ∷ back) + b ≡ word_total (front ++ b ∷ back) + a)
      ⊎ (word_total (front ++ a ∷ back) + b * 256 ≡ word_total (front ++ b ∷ back) + a * 256)
unfolding word_total
word_total_change [] [] a b = inr (omega arith)
word_total_change [] (y ∷ back) a b = inr (omega arith)
word_total_change (x ∷ []) back a b = inl (omega arith)
word_total_change (x ∷ y ∷ front) back a b = elim (word_total_change front back a b) [
  | inl e ↦ inl (omega arith)
  | inr e ↦ inr (omega arith)
]

-- The check of the receivers, on the bytes that came in.
abbrev pub passes : List ℕ → Bool
passes packet = verify_checksum (deserialize_header packet) (drop header_size packet)

-- Bytes that pass the check have a total that 65535 divides.
passes_multiple :
    (packet : List ℕ)
    → header_size ≤ length packet
    → All IsByte packet
    → passes packet ≡ true
    → (k : ℕ) × (word_total packet ≡ 65535 * k)
passes_multiple packet size bytes passed =
    let front : List ℕ = take header_size packet in
    let payload : List ℕ = drop header_size packet in
    let h : CustomUdpHeader = deserialize_header front in
    let (valid, same) =
      serialize-deserialize front (omega (arith, length-take header_size packet))
        (All-take IsByte header_size packet bytes) in
    let split : serialize_header h ++ payload ≡ packet =
      ap (λ s. s ++ payload) same ∙ take-append-drop header_size packet in
    let read : deserialize_header packet ≡ h =
      ap deserialize_header (sym split) ∙ deserialize-serialize h payload valid in
    let passed' : verify_checksum h payload ≡ true = rw read at passed in
    rw split at
      (verified_multiple h payload valid (All-drop IsByte header_size packet bytes) passed')

-- One byte that was changed on the way, in the header or in the payload, is always found: of two
-- packets that differ in one byte, at most one passes the check.
pub one_byte_detected :
    (front back : List ℕ) (a b : ℕ)
    → header_size ≤ length (front ++ a ∷ back)
    → All IsByte (front ++ a ∷ back)
    → b < 256
    → a ≢ b
    → passes (front ++ a ∷ back) ≡ true
    → passes (front ++ b ∷ back) ≡ false
one_byte_detected front back a b size bytes hb ne passed =
    elim (Bool-cases (passes (front ++ b ∷ back))) [
      | inr refused ↦ refused
      | inl passed' ↦
          let (in_front, (ha, in_back)) = All-append_parts IsByte front (a ∷ back) bytes in
          let size' : header_size ≤ length (front ++ b ∷ back) =
            omega (arith, size, length-append front (a ∷ back), length-append front (b ∷ back)) in
          let bytes' : All IsByte (front ++ b ∷ back) =
            All-append IsByte front (b ∷ back) in_front (hb, in_back) in
          let (k, total) = passes_multiple (front ++ a ∷ back) size bytes passed in
          let (k', total') = passes_multiple (front ++ b ∷ back) size' bytes' passed' in
          absurd (
            ne (elim (word_total_change front back a b) [
              | inl e ↦ omega arith
              | inr e ↦ omega arith
            ]))
    ]
