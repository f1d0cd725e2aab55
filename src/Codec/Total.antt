-- ===== src/Codec/Total.antt =====
-- The decoders on any input: enough fuel, and the length of what they write.
use hybrid_ftp.Base.{
  ℕ, zero, suc, ◌*◌, ◌≤◌, bit_and, bit_or, ◌≡◌, refl, ◌≢◌, ◌⊎◌, inl, inr, List, [], ◌∷◌, ◌++◌,
  arith, length, take, drop, replicate, length-drop,
}
use hybrid_ftp.Codec.{
  TransferType, TransferMode, stream, block, compressed, CodecError, Decoded, ok, fail, stuck,
  decode_block_loop, Loop, decode_escape, decode_literal, decode_repeated, filler_byte,
  decode_filler, decode_compressed_loop, decode,
}

pub Decoded-cases :
    (d : Decoded)
    → d ≢ stuck
    → ((o : List ℕ) × (d ≡ ok o)) ⊎ ((e : CodecError) × (o : List ℕ) × (d ≡ fail e o))
Decoded-cases (ok o) h = inl (o, refl)
Decoded-cases (fail e o) h = inr (e, o, refl)
Decoded-cases stuck h = absurd (h refl)

decode_block_loop-ne-stuck :
    (n : ℕ) (s out : List ℕ) → length s ≤ n → decode_block_loop n s out ≢ stuck
unfolding decode_block_loop
decode_block_loop-ne-stuck n [] out le h = cc
decode_block_loop-ne-stuck zero (d ∷ rest) out le h = absurd (omega arith)
decode_block_loop-ne-stuck (suc n) (d ∷ []) out le h = cc
decode_block_loop-ne-stuck (suc n) (d ∷ hi ∷ []) out le h = cc
decode_block_loop-ne-stuck (suc n) (d ∷ hi ∷ lo ∷ rest) out le h =
    let count : ℕ = bit_or (hi * 256) lo in
    ground (
      arith,
      length-drop count rest,
      decode_block_loop-ne-stuck n (drop count rest) (out ++ take count rest),
    )

-- A loop that decides every input of `n` bytes at most.
abbrev Decides : ℕ → Loop → Type 0
Decides n loop = (s out : List ℕ) → length s ≤ n → loop s out ≢ stuck

module _ (n : ℕ) (loop : Loop) (ih : Decides n loop) where
  decode_escape-ne-stuck : Decides n (decode_escape loop)
  unfolding decode_escape
  decode_escape-ne-stuck [] out le = λ e. cc
  decode_escape-ne-stuck (d ∷ []) out le = ground (arith, ih [] out)
  decode_escape-ne-stuck (d ∷ b ∷ rest) out le = ground (arith, ih (b ∷ rest) out)

  decode_literal-ne-stuck : (count : ℕ) → Decides n (decode_literal loop count)
  unfolding decode_literal
  decode_literal-ne-stuck count rest out le =
      ground (arith, length-drop count rest, ih (drop count rest) (out ++ take count rest))

  decode_repeated-ne-stuck : (count : ℕ) → Decides n (decode_repeated loop count)
  unfolding decode_repeated
  decode_repeated-ne-stuck count [] out le = λ e. cc
  decode_repeated-ne-stuck count (b ∷ rest) out le =
      ground (arith, ih rest (out ++ replicate count b))

  decode_filler-ne-stuck :
      (type : TransferType) (count : ℕ) → Decides n (decode_filler loop type count)
  unfolding decode_filler
  decode_filler-ne-stuck type count rest out le =
      ground (arith, ih rest (out ++ replicate count (filler_byte type)))

decode_compressed_loop-ne-stuck :
    (type : TransferType) (n : ℕ) → Decides n (decode_compressed_loop type n)
unfolding decode_compressed_loop
decode_compressed_loop-ne-stuck type n [] out le = λ e. cc
decode_compressed_loop-ne-stuck type zero (c ∷ rest) out le = absurd (omega arith)
decode_compressed_loop-ne-stuck type (suc n) (c ∷ rest) out le =
    let count : ℕ = bit_and c 0x3f in
    let loop : Loop = decode_compressed_loop type n in
    let ih : Decides n loop = decode_compressed_loop-ne-stuck type n in
    ground (
      arith,
      decode_escape-ne-stuck n loop ih rest out,
      decode_literal-ne-stuck n loop ih count rest out,
      decode_repeated-ne-stuck n loop ih count rest out,
      decode_filler-ne-stuck n loop ih type count rest out,
    )

-- The loops of `decode` end on every input: the model's fuel, the length of the input, is enough.
pub decode-ne-stuck :
    (s : List ℕ) (mode : TransferMode) (type : TransferType) → decode s mode type ≢ stuck
unfolding decode
decode-ne-stuck s stream type h = cc
decode-ne-stuck s block type h = decode_block_loop-ne-stuck _ s [] (omega arith) h
decode-ne-stuck s compressed type h = decode_compressed_loop-ne-stuck type _ s [] (omega arith) h
