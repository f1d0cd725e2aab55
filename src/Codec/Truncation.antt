-- ===== src/Codec/Truncation.antt =====
-- Input that is added behind a complete stream, and streams that were cut.
use hybrid_ftp.Base.{
  ℕ, zero, suc, ◌*◌, ◌≤◌, bit_and, bit_or, ◌≡◌, refl, ◌≢◌, inl, inr, List, [], ◌∷◌, ◌++◌, arith,
  take, drop, replicate, length-append, take-append_le, drop-append_le,
}
use hybrid_ftp.Codec.{
  TransferType, TransferMode, stream, block, compressed, CodecError, after_eof_block,
  after_eof_descriptor, ok, fail, encode, finish, decode_block_loop, Loop, decode_escape,
  decode_literal, decode_repeated, filler_byte, decode_filler, decode_compressed_loop, decode,
}
use hybrid_ftp.Codec.RoundTrip.{decode-encode}
use hybrid_ftp.Codec.Total.{Decoded-cases, decode-ne-stuck}

finish-append :
    (e : CodecError) (l out o : List ℕ) (x : ℕ) (back : List ℕ)
    → finish e l out ≡ ok o
    → finish e (l ++ x ∷ back) out ≡ fail e o
finish-append e [] out o x back h = cc
finish-append e (y ∷ l) out o x back h = cc

module _ (x : ℕ) (back : List ℕ) where
  pub decode_block_loop-append :
      (n m : ℕ) (s out o : List ℕ)
      → n ≤ m
      → decode_block_loop n s out ≡ ok o
      → decode_block_loop m (s ++ x ∷ back) out ≡ fail after_eof_block o
  unfolding decode_block_loop
  decode_block_loop-append n m [] out o le h = cc
  decode_block_loop-append zero m (d ∷ rest) out o le h = cc
  decode_block_loop-append (suc n) m (d ∷ []) out o le h = cc
  decode_block_loop-append (suc n) m (d ∷ hi ∷ []) out o le h = cc
  decode_block_loop-append (suc n) zero (d ∷ hi ∷ lo ∷ rest) out o le h = absurd (omega arith)
  decode_block_loop-append (suc n) (suc m) (d ∷ hi ∷ lo ∷ rest) out o le h =
      let count : ℕ = bit_or (hi * 256) lo in
      let output : List ℕ = out ++ take count rest in
      ground (
        arith,
        length-append rest (x ∷ back),
        take-append_le count rest (x ∷ back),
        drop-append_le count rest (x ∷ back),
        finish-append after_eof_block (drop count rest) output o x back,
        decode_block_loop-append n m (drop count rest) output o,
      )

  -- What the loop does on the shorter rest it does on the longer one, up to the error at the end.
  abbrev Extends : Loop → Loop → Type 0
  Extends short long =
      (s out o : List ℕ)
      → short s out ≡ ok o
      → long (s ++ x ∷ back) out ≡ fail after_eof_descriptor o

  module _ (short long : Loop) (ih : Extends short long) where
    decode_escape-append : Extends (decode_escape short) (decode_escape long)
    unfolding decode_escape
    decode_escape-append [] out o h = cc
    decode_escape-append (d ∷ rest) out o h =
        ground (arith, ih rest out o, finish-append after_eof_descriptor rest out o x back)

    decode_literal-append :
        (count : ℕ) → Extends (decode_literal short count) (decode_literal long count)
    unfolding decode_literal
    decode_literal-append count rest out o h = ground (
      arith,
      length-append rest (x ∷ back),
      take-append_le count rest (x ∷ back),
      drop-append_le count rest (x ∷ back),
      ih (drop count rest) (out ++ take count rest) o,
    )

    decode_repeated-append :
        (count : ℕ) → Extends (decode_repeated short count) (decode_repeated long count)
    unfolding decode_repeated
    decode_repeated-append count [] out o h = cc
    decode_repeated-append count (b ∷ rest) out o h =
        ground (arith, ih rest (out ++ replicate count b) o)

    decode_filler-append :
        (type : TransferType) (count : ℕ)
        → Extends (decode_filler short type count) (decode_filler long type count)
    unfolding decode_filler
    decode_filler-append type count rest out o h =
        ground (arith, ih rest (out ++ replicate count (filler_byte type)) o)

  pub decode_compressed_loop-append :
      (type : TransferType) (n m : ℕ)
      → n ≤ m
      → Extends (decode_compressed_loop type n) (decode_compressed_loop type m)
  unfolding decode_compressed_loop
  decode_compressed_loop-append type n m le [] out o h = cc
  decode_compressed_loop-append type zero m le (c ∷ rest) out o h = cc
  decode_compressed_loop-append type (suc n) zero le (c ∷ rest) out o h = absurd (omega arith)
  decode_compressed_loop-append type (suc n) (suc m) le (c ∷ rest) out o h =
      let count : ℕ = bit_and c 0x3f in
      let short : Loop = decode_compressed_loop type n in
      let long : Loop = decode_compressed_loop type m in
      let ih : Extends short long = decode_compressed_loop-append type n m (omega arith) in
      ground (
        arith,
        decode_escape-append short long ih rest out o,
        decode_literal-append short long ih count rest out o,
        decode_repeated-append short long ih count rest out o,
        decode_filler-append short long ih type count rest out o,
      )

-- Input that is added behind a stream that `decode` accepts in MODE B or C makes it fail, with the
-- message for data behind the end and the same output.
decode-append :
    (s : List ℕ) (mode : TransferMode) (type : TransferType) (o : List ℕ) (x : ℕ) (back : List ℕ)
    → mode ≢ stream
    → decode s mode type ≡ ok o
    → (e : CodecError) × (decode (s ++ x ∷ back) mode type ≡ fail e o)
unfolding decode
decode-append s stream type o x back ne h = absurd (ne refl)
decode-append s block type o x back ne h = (
  after_eof_block,
  decode_block_loop-append x back _ _ s [] o (omega (arith, length-append s (x ∷ back))) h,
)
decode-append s compressed type o x back ne h = (
  after_eof_descriptor,
  decode_compressed_loop-append x back type _ _ (omega (arith, length-append s (x ∷ back))) s [] o
      h,
)

-- A proper front part of what `encode` writes in MODE B or C is refused: a transfer that was cut is
-- not taken for a complete one.
pub decode_truncated :
    (input front back : List ℕ) (mode : TransferMode) (type : TransferType) (x : ℕ)
    → mode ≢ stream
    → encode input mode ≡ front ++ x ∷ back
    → (e : CodecError) × (o : List ℕ) × (decode front mode type ≡ fail e o)
decode_truncated input front back mode type x ne e =
    elim (Decoded-cases (decode front mode type) (decode-ne-stuck front mode type)) [
      | inl (o, accepted) ↦
          let (error, refused) = decode-append front mode type o x back ne accepted in
          let whole : decode (front ++ x ∷ back) mode type ≡ ok input =
            rw e at (decode-encode input mode type) in
          cc
      | inr failed ↦ failed
    ]
