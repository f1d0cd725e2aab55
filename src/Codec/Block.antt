-- ===== src/Codec/Block.antt =====
-- MODE B: what one block decodes to, and the round trip of the loop.
use hybrid_ftp.Base.{
  ℕ, zero, suc, ◌+◌, ◌*◌, ◌/◌, ◌%◌, ◌≤◌, ◌<◌, min, bit_and, bit_or, ◌≡◌, refl, ap, ◌∙◌, inl, inr,
  true, false, List, [], ◌∷◌, ◌++◌, append-nil, append_assoc, arith, ltb, leb, ◌==◌, if◌then◌else◌,
  leb→le, not_leb→lt, Bool-cases, length, take, drop, length-append, take-append-drop, length-take,
  length-drop, take-append, drop-append, take_all, bit_or-byte,
}
use hybrid_ftp.Codec.{
  after_eof_block, ok, k_eof, max_block, block_count, block_loop, finish, decode_block_loop,
}

pub decode_block_step :
    (n d count : ℕ) (chunk rest out : List ℕ)
    → count ≡ length chunk
    → count < 65536
    → decode_block_loop (suc n) (d ∷ (count / 256 % 256) ∷ (count % 256) ∷ (chunk ++ rest)) out ≡ (
        if bit_and d k_eof == 0
        then decode_block_loop n rest (out ++ chunk)
        else finish after_eof_block rest (out ++ chunk))
unfolding decode_block_loop
decode_block_step n d count chunk rest out e h =
    let joined : bit_or (count / 256 % 256 * 256) (count % 256) ≡ count =
      omega (arith, bit_or-byte (count / 256 % 256) (count % 256)) in
    let fits : ltb (length (chunk ++ rest)) count ≡ false =
      ground (arith, length-append chunk rest) in
    rw (joined, fits, take-append count chunk rest e, drop-append count chunk rest e) refl

pub block_loop_last :
    (fuel : ℕ) (l : List ℕ)
    → 0 < length l
    → length l ≤ max_block
    → block_loop (suc fuel) l ≡ k_eof ∷ (length l / 256 % 256) ∷ (length l % 256) ∷ (l ++ [])
unfolding block_loop block_count
block_loop_last fuel [] pos small = absurd (omega arith)
block_loop_last fuel (x ∷ xs) pos small =
    let whole : min max_block (length (x ∷ xs)) ≡ length (x ∷ xs) = omega arith in
    let same : (length (x ∷ xs) == length (x ∷ xs)) ≡ true = ground arith in
    let all : take (length xs) xs ≡ xs = take_all _ xs (omega arith) in
    let gone : drop (length xs) xs ≡ [] = rw append-nil at (drop-append (length xs) xs [] refl) in
    rw (whole, same, all, gone) (rw (nothing_left fuel) refl)
  where
    nothing_left : (f : ℕ) → block_loop f [] ≡ []
    nothing_left zero = refl
    nothing_left (suc f) = refl

pub block_loop_more :
    (fuel : ℕ) (l : List ℕ)
    → max_block < length l
    → block_loop (suc fuel) l
      ≡ 0
        ∷ (max_block / 256 % 256)
        ∷ (max_block % 256)
        ∷ (take max_block l ++ block_loop fuel (drop max_block l))
unfolding block_loop block_count
block_loop_more fuel [] big = absurd (omega arith)
block_loop_more fuel (x ∷ xs) big =
    let full : min max_block (length (x ∷ xs)) ≡ max_block = omega arith in
    let other : (max_block == length (x ∷ xs)) ≡ false = ground arith in rw (full, other) refl

-- A whole run of the encoder's loop, read with any output before it.
pub decode_block_loop-block_loop :
    (fuel n : ℕ) (l out : List ℕ)
    → 0 < length l
    → length l ≤ fuel
    → length (block_loop fuel l) ≤ n
    → decode_block_loop n (block_loop fuel l) out ≡ ok (out ++ l)
decode_block_loop-block_loop zero n l out pos hf hn = absurd (omega arith)
decode_block_loop-block_loop (suc fuel) n l out pos hf hn =
    elim (Bool-cases (leb (length l) max_block)) [
      | inl small ↦
          last n (leb→le _ _ small) (rw (block_loop_last fuel l pos (leb→le _ _ small)) at hn)
      | inr big ↦
          more n (not_leb→lt _ _ big)
            (omega (arith, ap length (block_loop_more fuel l (not_leb→lt _ _ big))))
            (λ n' h.
              decode_block_loop-block_loop fuel n' (drop max_block l) (out ++ take max_block l)
                (omega (arith, length-drop max_block l, not_leb→lt _ _ big))
                (omega (arith, length-drop max_block l)) h)
    ]
  where
    last :
        (n : ℕ)
        → length l ≤ max_block
        → length (k_eof ∷ (length l / 256 % 256) ∷ (length l % 256) ∷ (l ++ [])) ≤ n
        → decode_block_loop n (block_loop (suc fuel) l) out ≡ ok (out ++ l)
    last zero small hn = absurd (omega arith)
    last (suc n) small hn =
        ap (λ s. decode_block_loop (suc n) s out) (block_loop_last fuel l pos small)
        ∙ decode_block_step n k_eof (length l) l [] out refl (omega arith)

    more :
        (n : ℕ)
        → max_block < length l
        → 3 + length (take max_block l ++ block_loop fuel (drop max_block l)) ≤ n
        → ((n' : ℕ)
            → length (block_loop fuel (drop max_block l)) ≤ n'
            → decode_block_loop n' (block_loop fuel (drop max_block l)) (out ++ take max_block l)
              ≡ ok ((out ++ take max_block l) ++ drop max_block l))
        → decode_block_loop n (block_loop (suc fuel) l) out ≡ ok (out ++ l)
    more zero big hn ih = absurd (omega arith)
    more (suc n) big hn ih =
        ap (λ s. decode_block_loop (suc n) s out) (block_loop_more fuel l big)
        ∙ decode_block_step n 0 max_block (take max_block l) _ out
            (omega (arith, length-take max_block l)) (omega arith)
        ∙ ih n
            (omega (arith, length-append (take max_block l) (block_loop fuel (drop max_block l))))
        ∙ ap ok (append_assoc out _ _ ∙ ap (λ s. out ++ s) (take-append-drop max_block l))
