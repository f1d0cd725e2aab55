-- ===== src/Codec/RoundTrip.antt =====
-- `decode` after `encode`, in every mode.
use hybrid_ftp.Base.{ℕ, ◌≡◌, refl, List, [], ◌∷◌, arith}
use hybrid_ftp.Codec.{
  TransferType, TransferMode, stream, block, compressed, ok, encode_block, encode_compressed,
  encode, decode_block_loop, decode,
}
use hybrid_ftp.Codec.Block.{decode_block_loop-block_loop}
use hybrid_ftp.Codec.Compressed.{decode_compressed_loop-compress_loop}

decode-encode_block :
    (input : List ℕ) (type : TransferType) → decode (encode_block input) block type ≡ ok input
unfolding decode encode_block
decode-encode_block [] type = unfold decode_block_loop in refl
decode-encode_block (x ∷ xs) type =
    decode_block_loop-block_loop _ _ (x ∷ xs) [] (omega arith) (omega arith) (omega arith)

-- In every mode and type, the decoder accepts what the encoder wrote and returns the input, whatever
-- its bytes: no loop of the model runs out of fuel on the way.
pub decode-encode :
    (input : List ℕ) (mode : TransferMode) (type : TransferType)
    → decode (encode input mode) mode type ≡ ok input
unfolding encode
decode-encode input stream type = unfold decode in refl
decode-encode input block type = decode-encode_block input type
decode-encode input compressed type =
    unfold decode encode_compressed in
    decode_compressed_loop-compress_loop type _ _ input [] (omega arith) (omega arith)
