-- ===== src/Examples/Coding.antt =====
-- The encodings and the header at concrete inputs.
use hybrid_ftp.Base.{
  ℕ, ◌+◌, ◌*◌, ◌/◌, ◌≤◌, max, ◌≡◌, refl, ◌≢◌, true, false, List, [], ◌∷◌, ◌++◌, arith, length, drop,
  replicate,
}
use hybrid_ftp.Codec.{
  ascii, binary, stream, block, compressed, CodecError, ok, fail, stuck, block_count, block_loop,
  encode_block, count_run, literal_loop, compress_loop, encode_compressed, encode, decode,
}
use hybrid_ftp.Codec.RoundTrip.{decode-encode}
use hybrid_ftp.Codec.Total.{decode-ne-stuck}
use hybrid_ftp.Codec.Truncation.{decode_truncated}
use hybrid_ftp.Codec.Size.{length-encode}
use hybrid_ftp.Header.{
  CustomUdpHeader, IsValid, header_size, serialize_header, deserialize_header, add_word,
  checksum_loop, internet_checksum, calculate_checksum, verify_checksum, make_packet,
}
use hybrid_ftp.Header.Checksum.{verify-make_packet}
use hybrid_ftp.Header.Detection.{passes, one_byte_detected}

-- A run of zeros between two literals.
abbrev sample : List ℕ
sample = 7 ∷ 0 ∷ 0 ∷ 0 ∷ 0 ∷ 9 ∷ []

encode-sample : encode sample compressed ≡ 0x01 ∷ 7 ∷ 0x84 ∷ 0 ∷ 0x01 ∷ 9 ∷ 255 ∷ 64 ∷ []
unfolding encode encode_compressed compress_loop count_run literal_loop
encode-sample = refl

decode-encode_example : decode (encode sample compressed) compressed binary ≡ ok sample
decode-encode_example = decode-encode sample compressed binary

encode-block : encode sample block ≡ 64 ∷ 0 ∷ 6 ∷ 7 ∷ 0 ∷ 0 ∷ 0 ∷ 0 ∷ 9 ∷ []
unfolding encode encode_block block_loop block_count
encode-block = refl

decode_truncated_example :
    (e : CodecError) × (o : List ℕ) × (decode (64 ∷ 0 ∷ 6 ∷ 7 ∷ 0 ∷ 0 ∷ 0 ∷ 0 ∷ []) block binary
      ≡ fail e o)
decode_truncated_example =
    decode_truncated sample (64 ∷ 0 ∷ 6 ∷ 7 ∷ 0 ∷ 0 ∷ 0 ∷ 0 ∷ []) [] block binary 9 (λ e. cc)
      encode-block

decode-ne-stuck_example : decode sample compressed ascii ≢ stuck
decode-ne-stuck_example = decode-ne-stuck sample compressed ascii

length-encode_example :
    (length (encode sample stream) ≡ length sample)
    × (length (encode sample block) ≡ length sample + 3 * max 1 ((length sample + 65534) / 65535))
    × (length (encode sample compressed) ≤ 2 * length sample + 2)
length-encode_example = length-encode sample

-- A data header with every field set.
abbrev sample_header : CustomUdpHeader
sample_header = record {
  seq_num = 70000;
  ack_num = 3;
  payload_len = 2;
  window_size = 64;
  checksum = 513;
  flags = 1;
}

sample_header-IsValid : IsValid sample_header
sample_header-IsValid = record {
  seq_num = omega arith;
  ack_num = omega arith;
  payload_len = omega arith;
  window_size = omega arith;
  checksum = omega arith;
  flags = omega arith;
}

abbrev some_bytes : List ℕ
some_bytes = replicate 15 200

verify-make_packet_example :
    (deserialize_header (make_packet sample_header (1 ∷ 2 ∷ []))
      ≡ record sample_header { checksum = calculate_checksum sample_header (1 ∷ 2 ∷ []) })
    × (drop header_size (make_packet sample_header (1 ∷ 2 ∷ [])) ≡ 1 ∷ 2 ∷ [])
    × (verify_checksum (deserialize_header (make_packet sample_header (1 ∷ 2 ∷ []))) (1 ∷ 2 ∷ [])
        ≡ true)
verify-make_packet_example = verify-make_packet sample_header (1 ∷ 2 ∷ []) sample_header-IsValid

-- An ACK of segment 5 on the wire, and the same with another segment number.
abbrev ack_front : List ℕ
ack_front = 0 ∷ 0 ∷ 0 ∷ 0 ∷ 0 ∷ 0 ∷ 0 ∷ []

abbrev ack_back : List ℕ
ack_back = 0 ∷ 0 ∷ 0 ∷ 64 ∷ 0xfd ∷ 0xba ∷ 2 ∷ []

ack-passes : passes (ack_front ++ 5 ∷ ack_back) ≡ true
unfolding verify_checksum deserialize_header calculate_checksum internet_checksum checksum_loop
    serialize_header add_word
ack-passes = refl

one_byte_detected_example : passes (ack_front ++ 6 ∷ ack_back) ≡ false
one_byte_detected_example =
    one_byte_detected ack_front ack_back 5 6 (omega arith) (omega arith) (omega arith)
      (λ e. omega arith) ack-passes
