-- ===== src/Codec.antt =====
-- src/common/TransferModeCodec.cpp and .h: the data representations of MODE S, B and C. A vector of
-- bytes is a list of numbers below 256, and an index into it is the list from that index on.
pub mod Runs
pub mod Block
pub mod Compressed
pub mod Total
pub mod Truncation
pub mod RoundTrip
pub mod Size
use hybrid_ftp.Base.{
  ℕ, zero, suc, ◌+◌, ◌-◌, ◌*◌, ◌/◌, ◌%◌, min, bit_and, bit_or, ◌&&◌, ◌||◌, List, [], ◌∷◌, ◌++◌, ltb,
  leb, ◌==◌, if◌then◌else◌, length, take, drop, replicate,
}

pub data TransferType : Type 0 where
  ascii binary : TransferType

pub data TransferMode : Type 0 where
  stream block compressed : TransferMode

-- The messages that `fail` stores.
pub data CodecError : Type 0 where
  truncated_header truncated_payload no_eof_block after_eof_block : CodecError
  truncated_escape invalid_literal invalid_repeated invalid_filler : CodecError
  no_eof_descriptor after_eof_descriptor : CodecError

-- What `decode` leaves behind: the output, on failure the part that was written. `stuck` is no
-- value of the source: a loop of the model ran out of fuel.
pub data Decoded : Type 0 where
  ok : List ℕ → Decoded
  fail : CodecError → List ℕ → Decoded
  stuck : Decoded

abbrev pub k_eof : ℕ
k_eof = 0x40

abbrev pub k_escape : ℕ
k_escape = 0xff

abbrev pub max_block : ℕ
max_block = 65535

-- The block that starts at the head of a list that is not empty, and the list behind it.
unfoldable pub block_count : List ℕ → ℕ
block_count rest = min max_block (length rest)

-- The loop of MODE B over `offset`; each round takes a byte at least.
unfoldable pub block_loop : ℕ → List ℕ → List ℕ
block_loop fuel [] = []
block_loop zero (x ∷ xs) = []
block_loop (suc fuel) (x ∷ xs) =
    let count = block_count (x ∷ xs) in
    (if count == length (x ∷ xs) then k_eof else 0)
    ∷ (count / 256 % 256)
    ∷ (count % 256)
    ∷ (take count (x ∷ xs) ++ block_loop fuel (drop count (x ∷ xs)))

unfoldable pub encode_block : List ℕ → List ℕ
encode_block [] = k_eof ∷ 0 ∷ 0 ∷ []
encode_block (x ∷ xs) = block_loop (length (x ∷ xs)) (x ∷ xs)

-- `while (pos + run < size && input[pos + run] == input[pos] && run < 63) ++run;`: the list is the
-- input from `pos + run` on, and `b` is `input[pos]`.
unfoldable pub count_run : ℕ → ℕ → List ℕ → ℕ
count_run run b [] = run
count_run run b (c ∷ cs) =
    let more = count_run (run + 1) b cs in if (c == b) && ltb run 63 then more else run

-- The inner loop of MODE C, which gathers a literal string until a run of three begins. Each round
-- takes a byte at least, and it ends at 63 bytes.
unfoldable pub literal_loop : ℕ → ℕ → List ℕ → ℕ
literal_loop fuel literal_count [] = literal_count
literal_loop zero literal_count (x ∷ xs) = literal_count
literal_loop (suc fuel) literal_count (x ∷ xs) =
    let run = count_run 1 x xs in
    let step = min run (63 - literal_count) in
    let more = literal_loop fuel (literal_count + step) (drop step (x ∷ xs)) in
    if ltb literal_count 63 then (if leb 3 run then literal_count else more) else literal_count

-- The outer loop of MODE C over `pos`.
unfoldable pub compress_loop : ℕ → List ℕ → List ℕ
compress_loop fuel [] = []
compress_loop zero (x ∷ xs) = []
compress_loop (suc fuel) (x ∷ xs) =
    let run = count_run 1 x xs in
    let literal_count = literal_loop 63 0 (x ∷ xs) in
    let repeated = (bit_or 0x80 run % 256) ∷ x ∷ compress_loop fuel (drop run (x ∷ xs)) in
    let literal =
      (literal_count % 256)
      ∷ (take literal_count (x ∷ xs) ++ compress_loop fuel (drop literal_count (x ∷ xs))) in
    if leb 3 run then repeated else literal

unfoldable pub encode_compressed : List ℕ → List ℕ
encode_compressed input = compress_loop (length input) input ++ k_escape ∷ k_eof ∷ []

unfoldable pub encode : List ℕ → TransferMode → List ℕ
encode input stream = input
encode input block = encode_block input
encode input compressed = encode_compressed input

-- Behind the loop, once the end was seen: nothing may follow.
abbrev pub finish : CodecError → List ℕ → List ℕ → Decoded
finish e [] output = ok output
finish e (x ∷ xs) output = fail e output

pub decode_block_loop : ℕ → List ℕ → List ℕ → Decoded
decode_block_loop fuel [] output = fail no_eof_block output
decode_block_loop zero (d ∷ rest) output = stuck
decode_block_loop (suc fuel) (d ∷ []) output = fail truncated_header output
decode_block_loop (suc fuel) (d ∷ hi ∷ []) output = fail truncated_header output
decode_block_loop (suc fuel) (d ∷ hi ∷ lo ∷ rest) output =
    let count = bit_or (hi * 256) lo in
    let output' = output ++ take count rest in
    let more = decode_block_loop fuel (drop count rest) output' in
    if ltb (length rest) count
    then fail truncated_payload output
    else if bit_and d k_eof == 0
    then more
    else finish after_eof_block (drop count rest) output'

-- What the loop does with the rest of the input and the output so far.
abbrev pub Loop : Type 0
Loop = List ℕ → List ℕ → Decoded

pub decode_escape : Loop → List ℕ → List ℕ → Decoded
decode_escape continue [] output = fail truncated_escape output
decode_escape continue (d ∷ rest) output =
    if bit_and d k_eof == 0 then continue rest output else finish after_eof_descriptor rest output

pub decode_literal : Loop → ℕ → List ℕ → List ℕ → Decoded
decode_literal continue count rest output =
    if (count == 0) || ltb (length rest) count
    then fail invalid_literal output
    else continue (drop count rest) (output ++ take count rest)

pub decode_repeated : Loop → ℕ → List ℕ → List ℕ → Decoded
decode_repeated continue count [] output = fail invalid_repeated output
decode_repeated continue count (b ∷ rest) output =
    if count == 0 then fail invalid_repeated output else continue rest (output ++ replicate count b)

abbrev pub filler_byte : TransferType → ℕ
filler_byte ascii = b' '
filler_byte binary = 0

pub decode_filler : Loop → TransferType → ℕ → List ℕ → List ℕ → Decoded
decode_filler continue type count rest output =
    if count == 0
    then fail invalid_filler output
    else continue rest (output ++ replicate count (filler_byte type))

pub decode_compressed_loop : TransferType → ℕ → List ℕ → List ℕ → Decoded
decode_compressed_loop type fuel [] output = fail no_eof_descriptor output
decode_compressed_loop type zero (control ∷ rest) output = stuck
decode_compressed_loop type (suc fuel) (control ∷ rest) output =
    let continue : Loop = decode_compressed_loop type fuel in
    let count = bit_and control 0x3f in
    let kind = bit_and control 0xc0 in
    if control == k_escape
    then decode_escape continue rest output
    else if kind == 0
    then decode_literal continue count rest output
    else if kind == 0x80
    then decode_repeated continue count rest output
    else decode_filler continue type count rest output

unfoldable pub decode : List ℕ → TransferMode → TransferType → Decoded
decode input stream type = ok input
decode input block type = decode_block_loop (length input) input []
decode input compressed type = decode_compressed_loop type (length input) input []
