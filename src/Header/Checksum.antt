-- ===== src/Header/Checksum.antt =====
-- The checksum of a stamped packet, and the arithmetic of the loop modulo 65535.
use hybrid_ftp.Base.{
  ℕ, ◌+◌, ◌-◌, ◌*◌, ◌/◌, ◌%◌, ◌^◌, ◌≤◌, ◌<◌, bit_or, ◌≡◌, sym, true, List, [], ◌∷◌, ◌++◌, arith,
  ==_iff, IsByte, drop, All, drop-append, All-append, bit_or-byte,
}
use hybrid_ftp.Header.{
  CustomUdpHeader, IsValid, header_size, serialize_header, deserialize_header, add_word,
  checksum_loop, internet_checksum, calculate_checksum, verify_checksum, make_packet,
}
use hybrid_ftp.Header.Wire.{length-serialize_header, serialize_header-IsByte, deserialize-serialize}

pub calculate_checksum-lt :
    (h : CustomUdpHeader) (payload : List ℕ) → calculate_checksum h payload < 2 ^ 16
unfolding calculate_checksum internet_checksum
calculate_checksum-lt h payload = omega arith

-- A packet that a sender has made is read back with the header that was stamped, and passes the
-- receiver's check, whatever its payload.
pub verify-make_packet :
    (h : CustomUdpHeader) (payload : List ℕ)
    → IsValid h
    → (deserialize_header (make_packet h payload)
        ≡ record h { checksum = calculate_checksum h payload })
      × (drop header_size (make_packet h payload) ≡ payload)
      × (verify_checksum (deserialize_header (make_packet h payload)) payload ≡ true)
verify-make_packet h payload v =
    let stamped : CustomUdpHeader = record h { checksum = calculate_checksum h payload } in
    let valid : IsValid stamped = record {
      seq_num = v.seq_num;
      ack_num = v.ack_num;
      payload_len = v.payload_len;
      window_size = v.window_size;
      checksum = calculate_checksum-lt h payload;
      flags = v.flags;
    } in
    let back : deserialize_header (make_packet h payload) ≡ stamped =
      unfold make_packet in deserialize-serialize stamped payload valid in
    let behind : drop header_size (make_packet h payload) ≡ payload =
      unfold make_packet in
      drop-append header_size (serialize_header stamped) payload
        (sym (length-serialize_header stamped)) in
    (back, behind, rw back (unfold verify_checksum calculate_checksum in ground arith))

-- The sum of the 16-bit words, the last one filled up with a zero byte.
unfoldable pub word_total : List ℕ → ℕ
word_total [] = 0
word_total (x ∷ []) = x * 256
word_total (x ∷ y ∷ rest) = x * 256 + y + word_total rest

add_word_residue :
    (sum word : ℕ)
    → sum ≤ 65535
    → word ≤ 65535
    → (add_word sum word ≤ 65535)
      × (add_word sum word + 65535 * ((sum + word) / 65536) ≡ sum + word)
unfolding add_word
add_word_residue sum word hs hw = ground arith

-- The loop's sum is the total, less a multiple of 65535.
pub checksum_loop_residue :
    (sum : ℕ) (bytes : List ℕ)
    → sum ≤ 65535
    → All IsByte bytes
    → (k : ℕ) × (checksum_loop sum bytes ≤ 65535)
      × (checksum_loop sum bytes + 65535 * k ≡ sum + word_total bytes)
unfolding checksum_loop word_total
checksum_loop_residue sum [] hs hb = (0, hs, omega arith)
checksum_loop_residue sum (x ∷ []) hs (hx, _) =
    let (small, eq) = add_word_residue sum (x * 256) hs (omega arith) in
    ((sum + x * 256) / 65536, small, eq)
checksum_loop_residue sum (x ∷ y ∷ rest) hs (hx, (hy, hr)) =
    let word : ℕ = bit_or (x * 256) y in
    let joined : word ≡ x * 256 + y = bit_or-byte x y hy in
    let (small, eq) = add_word_residue sum word hs (omega arith) in
    let (k, small', eq') = checksum_loop_residue (add_word sum word) rest small hr in
    (k + (sum + word) / 65536, small', omega arith)

-- The checksum field is a word of the packet of its own.
word_total_checksum :
    (h : CustomUdpHeader) (payload : List ℕ)
    → h.checksum < 2 ^ 16
    → word_total (serialize_header h ++ payload)
      ≡ word_total (serialize_header (record h { checksum = 0 }) ++ payload) + h.checksum
unfolding word_total serialize_header
word_total_checksum h [] small = omega arith
word_total_checksum h (x ∷ rest) small = omega arith

-- A header that passes the check makes the packet's total a multiple of 65535.
pub verified_multiple :
    (h : CustomUdpHeader) (payload : List ℕ)
    → IsValid h
    → All IsByte payload
    → verify_checksum h payload ≡ true
    → (k : ℕ) × (word_total (serialize_header h ++ payload) ≡ 65535 * k)
verified_multiple h payload v hb passed =
    let h₀ : CustomUdpHeader = record h { checksum = 0 } in
    let bytes : List ℕ = serialize_header h₀ ++ payload in
    let are_bytes : All IsByte bytes =
      All-append IsByte (serialize_header h₀) payload (serialize_header-IsByte h₀ v.flags) hb in
    let (k, small, eq) = checksum_loop_residue 0 bytes (omega arith) are_bytes in
    let field : h.checksum ≡ (2 ^ 32 - 1 - checksum_loop 0 bytes) % 2 ^ 16 =
      unfold verify_checksum calculate_checksum internet_checksum in (==_iff _ _).0 passed in
    (k + 1, omega (arith, field, eq, small, word_total_checksum h payload v.checksum))
