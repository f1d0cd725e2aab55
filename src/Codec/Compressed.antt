-- ===== src/Codec/Compressed.antt =====
-- MODE C: what each kind of string decodes to, and the round trip of the loop.
use hybrid_ftp.Base.{
  ℕ, zero, suc, ◌+◌, ◌%◌, ◌≤◌, ◌<◌, bit_and, bit_or, ◌≡◌, refl, sym, ap, ◌∙◌, inl, inr, true, false,
  List, [], ◌∷◌, ◌++◌, append-nil, append_assoc, arith, ltb, leb, ◌==◌, leb→le, not_leb→lt,
  Bool-cases, length, take, drop, replicate, length-append, take-append-drop, length-take,
  length-drop, take-append, drop-append, low_six, top_two, set_top_bit,
}
use hybrid_ftp.Codec.{
  TransferType, ok, k_eof, k_escape, count_run, literal_loop, compress_loop, decode_escape,
  decode_literal, decode_repeated, decode_compressed_loop,
}
use hybrid_ftp.Codec.Runs.{
  count_run_bounds, take-count_run, literal_loop_bounds, literal_loop_takes,
}

module _ (type : TransferType) (n : ℕ) where
  pub literal_step :
      (chunk rest out : List ℕ)
      → 0 < length chunk
      → length chunk < 64
      → decode_compressed_loop type (suc n) ((length chunk % 256) ∷ (chunk ++ rest)) out
        ≡ decode_compressed_loop type n rest (out ++ chunk)
  unfolding decode_compressed_loop decode_literal
  literal_step chunk rest out pos small =
      let byte : length chunk % 256 ≡ length chunk = omega arith in
      let low : bit_and (length chunk) 0x3f ≡ length chunk =
        omega (arith, low_six (length chunk)) in
      let kind : bit_and (length chunk) 0xc0 ≡ 0 = omega (arith, top_two (length chunk)) in
      let other : (length chunk == k_escape) ≡ false = ground arith in
      let some_bytes : (length chunk == 0) ≡ false = ground arith in
      let fits : ltb (length (chunk ++ rest)) (length chunk) ≡ false =
        ground (arith, length-append chunk rest) in
      rw
        (
          byte,
          other,
          kind,
          low,
          some_bytes,
          fits,
          take-append _ chunk rest refl,
          drop-append _ chunk rest refl,
        )
        refl

  pub repeated_step :
      (run b : ℕ) (rest out : List ℕ)
      → 0 < run
      → run < 64
      → decode_compressed_loop type (suc n) ((bit_or 0x80 run % 256) ∷ b ∷ rest) out
        ≡ decode_compressed_loop type n rest (out ++ replicate run b)
  unfolding decode_compressed_loop decode_repeated
  repeated_step run b rest out pos small =
      let byte : bit_or 0x80 run % 256 ≡ run + 128 = omega (arith, set_top_bit run) in
      let low : bit_and (run + 128) 0x3f ≡ run = omega (arith, low_six (run + 128)) in
      let kind : bit_and (run + 128) 0xc0 ≡ 128 = omega (arith, top_two (run + 128)) in
      let other : (run + 128 == k_escape) ≡ false = ground arith in
      let some_bytes : (run == 0) ≡ false = ground arith in
      rw (byte, other, kind, low, some_bytes) refl

  pub eof_step :
      (out : List ℕ) → decode_compressed_loop type (suc n) (k_escape ∷ k_eof ∷ []) out ≡ ok out
  unfolding decode_compressed_loop decode_escape
  eof_step out = refl

compress_loop_repeated :
    (fuel x : ℕ) (xs : List ℕ)
    → 3 ≤ count_run 1 x xs
    → compress_loop (suc fuel) (x ∷ xs)
      ≡ (bit_or 0x80 (count_run 1 x xs) % 256)
        ∷ x
        ∷ compress_loop fuel (drop (count_run 1 x xs) (x ∷ xs))
unfolding compress_loop
compress_loop_repeated fuel x xs h =
    let t : leb 3 (count_run 1 x xs) ≡ true = ground arith in rw t refl

compress_loop_literal :
    (fuel x k : ℕ) (xs : List ℕ)
    → count_run 1 x xs < 3
    → literal_loop 63 0 (x ∷ xs) ≡ k
    → compress_loop (suc fuel) (x ∷ xs)
      ≡ (k % 256) ∷ (take k (x ∷ xs) ++ compress_loop fuel (drop k (x ∷ xs)))
unfolding compress_loop
compress_loop_literal fuel x k xs h e =
    let t : leb 3 (count_run 1 x xs) ≡ false = ground arith in rw (t, e) refl

abbrev pub eof_string : List ℕ
eof_string = k_escape ∷ k_eof ∷ []

module _ (type : TransferType) where
  -- One literal string and what it leaves, given that the rest decodes.
  literal_round :
      (n k : ℕ) (l rest out : List ℕ)
      → 0 < k
      → k < 64
      → k ≤ length l
      → decode_compressed_loop type n rest (out ++ take k l) ≡ ok ((out ++ take k l) ++ drop k l)
      → decode_compressed_loop type (suc n) ((k % 256) ∷ (take k l ++ rest)) out ≡ ok (out ++ l)
  literal_round n k l rest out pos small fits ih =
      let size : length (take k l) ≡ k = omega (arith, length-take k l) in
      let step : decode_compressed_loop type (suc n) ((k % 256) ∷ (take k l ++ rest)) out
          ≡ decode_compressed_loop type n rest (out ++ take k l) =
        rw size at
          (literal_step type n (take k l) rest out (omega (arith, size)) (omega (arith, size))) in
      step ∙ ih ∙ ap ok (append_assoc out _ _ ∙ ap (λ s. out ++ s) (take-append-drop k l))

  repeated_round :
      (n x : ℕ) (xs rest out : List ℕ)
      → decode_compressed_loop type n rest (out ++ take (count_run 1 x xs) (x ∷ xs))
        ≡ ok ((out ++ take (count_run 1 x xs) (x ∷ xs)) ++ drop (count_run 1 x xs) (x ∷ xs))
      → decode_compressed_loop type (suc n) ((bit_or 0x80 (count_run 1 x xs) % 256) ∷ x ∷ rest) out
        ≡ ok (out ++ x ∷ xs)
  repeated_round n x xs rest out ih =
      repeated_step type n (count_run 1 x xs) x rest out (omega (arith, count_run_bounds 1 x xs))
        (omega (arith, count_run_bounds 1 x xs))
      ∙ ap (λ s. decode_compressed_loop type n rest (out ++ s)) (sym (take-count_run x xs))
      ∙ ih
      ∙ ap ok
          (append_assoc out _ _ ∙ ap (λ s. out ++ s) (take-append-drop (count_run 1 x xs) (x ∷ xs)))

  -- A whole run of the encoder's loop, read with any output before it.
  pub decode_compressed_loop-compress_loop :
      (fuel n : ℕ) (l out : List ℕ)
      → length l ≤ fuel
      → length (compress_loop fuel l ++ eof_string) ≤ n
      → decode_compressed_loop type n (compress_loop fuel l ++ eof_string) out ≡ ok (out ++ l)
  decode_compressed_loop-compress_loop fuel zero l out hf hn =
      absurd (omega (arith, length-append (compress_loop fuel l) eof_string))
  decode_compressed_loop-compress_loop zero (suc n) [] out hf hn =
      rw append-nil (unfold compress_loop in eof_step type n out)
  decode_compressed_loop-compress_loop (suc fuel) (suc n) [] out hf hn =
      rw append-nil (unfold compress_loop in eof_step type n out)
  decode_compressed_loop-compress_loop zero (suc n) (x ∷ xs) out hf hn = absurd (omega arith)
  decode_compressed_loop-compress_loop (suc fuel) (suc n) (x ∷ xs) out hf hn =
      elim (Bool-cases (leb 3 (count_run 1 x xs))) [
        | inl long ↦
            let run : ℕ = count_run 1 x xs in
            let form = compress_loop_repeated fuel x xs (leb→le _ _ long) in
            let left : length (drop run (x ∷ xs)) ≤ fuel =
              omega (arith, length-drop run (x ∷ xs), leb→le _ _ long) in
            let room : length (compress_loop fuel (drop run (x ∷ xs)) ++ eof_string) ≤ n =
              omega (arith, ap (λ s. length (s ++ eof_string)) form) in
            ap (λ s. decode_compressed_loop type (suc n) (s ++ eof_string) out) form
            ∙ repeated_round n x xs (compress_loop fuel (drop run (x ∷ xs)) ++ eof_string) out
                (decode_compressed_loop-compress_loop fuel n _ (out ++ take run (x ∷ xs)) left room)
        | inr short ↦
            let k : ℕ = literal_loop 63 0 (x ∷ xs) in
            let form = compress_loop_literal fuel x k xs (not_leb→lt _ _ short) refl in
            let bounds = literal_loop_bounds 63 0 (x ∷ xs) (omega arith) in
            let pos : 0 < k = literal_loop_takes 62 x xs (not_leb→lt _ _ short) in
            let left : length (drop k (x ∷ xs)) ≤ fuel = omega (arith, length-drop k (x ∷ xs)) in
            let size = length-append (take k (x ∷ xs)) (compress_loop fuel (drop k (x ∷ xs))) in
            let room : length (compress_loop fuel (drop k (x ∷ xs)) ++ eof_string) ≤ n = omega (
              arith,
              ap (λ s. length (s ++ eof_string)) form,
              size,
              length-append (compress_loop fuel (drop k (x ∷ xs))) eof_string,
              length-append (take k (x ∷ xs) ++ compress_loop fuel (drop k (x ∷ xs))) eof_string,
            ) in
            ap (λ s. decode_compressed_loop type (suc n) (s ++ eof_string) out) form
            ∙ ap (λ s. decode_compressed_loop type (suc n) ((k % 256) ∷ s) out)
                (append_assoc (take k (x ∷ xs)) (compress_loop fuel (drop k (x ∷ xs))) eof_string)
            ∙ literal_round n k (x ∷ xs) (compress_loop fuel (drop k (x ∷ xs)) ++ eof_string) out
                pos (omega arith) (omega arith)
                (decode_compressed_loop-compress_loop fuel n _ (out ++ take k (x ∷ xs)) left room)
      ]
