-- ===== src/Codec/Size.antt =====
-- How long the encodings are, and where a literal string of MODE C ends.
use mathlib.Core.Path.{subst, subst₂}
use native.Mathlib.Decide.{dec_lt}
use hybrid_ftp.Base.{
  ℕ, zero, suc, ◌+◌, ◌-◌, ◌*◌, ◌/◌, ◌≤◌, ◌<◌, min, max, ◌≡◌, refl, sym, ap, ◌∙◌, ◌⊎◌, inl, inr,
  true, false, List, [], ◌∷◌, arith, ltb, leb, leb→le, not_leb→lt, Bool-cases, length, take, drop,
  length-append, length-take, length-drop,
}
use hybrid_ftp.Codec.{
  stream, block, compressed, max_block, block_loop, encode_block, count_run, literal_loop,
  compress_loop, encode_compressed, encode,
}
use hybrid_ftp.Codec.Runs.{count_run_bounds, literal_loop_bounds, literal_loop_takes}
use hybrid_ftp.Codec.Block.{block_loop_last, block_loop_more}
use hybrid_ftp.Codec.Compressed.{eof_string}

length-block_loop :
    (fuel : ℕ) (l : List ℕ)
    → length l ≤ fuel
    → length (block_loop fuel l) ≡ length l + 3 * ((length l + 65534) / 65535)
length-block_loop zero [] le = unfold block_loop in omega arith
length-block_loop (suc fuel) [] le = unfold block_loop in omega arith
length-block_loop zero (x ∷ xs) le = absurd (omega arith)
length-block_loop (suc fuel) (x ∷ xs) le = elim (Bool-cases (leb (length (x ∷ xs)) max_block)) [
  | inl small ↦
      let h : length (x ∷ xs) ≤ max_block = leb→le _ _ small in
      omega (
        arith,
        ap length (block_loop_last fuel (x ∷ xs) (omega arith) h),
        length-append (x ∷ xs) [],
      )
  | inr big ↦
      let h : max_block < length (x ∷ xs) = not_leb→lt _ _ big in
      omega (
        arith,
        h,
        ap length (block_loop_more fuel (x ∷ xs) h),
        length-append (take max_block (x ∷ xs)) (block_loop fuel (drop max_block (x ∷ xs))),
        length-take max_block (x ∷ xs),
        length-drop max_block (x ∷ xs),
        length-block_loop fuel (drop max_block (x ∷ xs))
            (omega (arith, length-drop max_block (x ∷ xs))),
      )
]

-- Each round of the loop of MODE C writes at most one byte more than it takes.
length-compress_loop :
    (fuel : ℕ) (l : List ℕ) → length l ≤ fuel → length (compress_loop fuel l) ≤ 2 * length l
unfolding compress_loop
length-compress_loop zero [] le = omega arith
length-compress_loop (suc fuel) [] le = omega arith
length-compress_loop zero (x ∷ xs) le = absurd (omega arith)
length-compress_loop (suc fuel) (x ∷ xs) le =
    let run : ℕ = count_run 1 x xs in
    let k : ℕ = literal_loop 63 0 (x ∷ xs) in
    ground (
      arith,
      length-drop run (x ∷ xs),
      length-drop k (x ∷ xs),
      length-take k (x ∷ xs),
      length-append (take k (x ∷ xs)) (compress_loop fuel (drop k (x ∷ xs))),
      count_run_bounds 1 x xs,
      literal_loop_bounds 63 0 (x ∷ xs),
      literal_loop_takes 62 x xs,
      length-compress_loop fuel (drop run (x ∷ xs)),
      length-compress_loop fuel (drop k (x ∷ xs)),
    )

-- MODE S adds nothing; MODE B adds three bytes for each block of 65535 that is begun, and one block
-- for the empty input; MODE C at most doubles the input and adds its end of two bytes.
pub length-encode :
    (input : List ℕ)
    → (length (encode input stream) ≡ length input)
      × (length (encode input block) ≡ length input + 3 * max 1 ((length input + 65534) / 65535))
      × (length (encode input compressed) ≤ 2 * length input + 2)
unfolding encode encode_block encode_compressed
length-encode [] = unfold compress_loop in omega arith
length-encode (x ∷ xs) = (
  refl,
  omega (arith, length-block_loop (length (x ∷ xs)) (x ∷ xs) (omega arith)),
  omega (
    arith,
    length-append (compress_loop (length (x ∷ xs)) (x ∷ xs)) eof_string,
    length-compress_loop (length (x ∷ xs)) (x ∷ xs) (omega arith),
  ),
)

drop-add : (a b : ℕ) (l : List ℕ) → drop (a + b) l ≡ drop b (drop a l)
drop-add zero b l = let e : zero + b ≡ b = omega arith in rw e refl
drop-add (suc a) b [] = drop_nil (suc a + b) ∙ sym (drop_nil b)
  where
    drop_nil : (n : ℕ) → drop {A = ℕ} n [] ≡ []
    drop_nil zero = refl
    drop_nil (suc n) = refl
drop-add (suc a) b (x ∷ xs) =
    let e : suc a + b ≡ suc (a + b) = omega arith in rw e (drop-add a b xs)

-- The run that begins at the head.
abbrev pub head_run : List ℕ → ℕ
head_run [] = 0
head_run (x ∷ xs) = count_run 1 x xs

-- A literal string of `m` bytes before `rest` was not ended early.
abbrev pub Stops : ℕ → List ℕ → Type 0
Stops m rest = (m ≡ 63) ⊎ (rest ≡ []) ⊎ (3 ≤ head_run rest)

literal_loop-next :
    (fuel n x : ℕ) (xs : List ℕ)
    → n < 63
    → count_run 1 x xs < 3
    → literal_loop (suc fuel) n (x ∷ xs)
      ≡ literal_loop fuel
          (n + min (count_run 1 x xs) (63 - n))
          (drop (min (count_run 1 x xs) (63 - n)) (x ∷ xs))
unfolding literal_loop
literal_loop-next fuel n x xs h short =
    let room : ltb n 63 ≡ true = ground arith in
    let no_run : leb 3 (count_run 1 x xs) ≡ false = ground arith in rw (room, no_run) refl

literal_loop-Stops_at :
    (fuel n k : ℕ) (l : List ℕ)
    → n ≤ 63
    → 63 ≤ fuel + n
    → literal_loop fuel n l ≡ n + k
    → Stops (n + k) (drop k l)
literal_loop-Stops_at fuel n zero [] hn hf e = inr (inl refl)
literal_loop-Stops_at fuel n (suc k) [] hn hf e = inr (inl refl)
literal_loop-Stops_at zero n k (x ∷ xs) hn hf e =
    inl (omega (arith, literal_loop_bounds zero n (x ∷ xs), e))
literal_loop-Stops_at (suc fuel) n k (x ∷ xs) hn hf e = elim (dec_lt n 63) [
  | no full ↦ inl (omega (arith, literal_loop_bounds (suc fuel) n (x ∷ xs), e))
  | yes room ↦ elim (dec_lt (count_run 1 x xs) 3) [
    | no long ↦
        let nothing : k ≡ 0 = unfold literal_loop in ground arith in
        rw nothing (inr (inr (omega arith)))
    | yes short ↦
        let step : ℕ = min (count_run 1 x xs) (63 - n) in
        let rest : List ℕ = drop step (x ∷ xs) in
        let e' : literal_loop fuel (n + step) rest ≡ n + k =
          sym (literal_loop-next fuel n x xs room short) ∙ e in
        let bounds = literal_loop_bounds fuel (n + step) rest (omega arith) in
        let split : k ≡ step + (k - step) = omega (arith, e', bounds) in
        let total : n + k ≡ (n + step) + (k - step) = omega arith in
        let ih : Stops ((n + step) + (k - step)) (drop (k - step) rest) =
          literal_loop-Stops_at fuel (n + step) (k - step) rest (omega arith)
            (omega (arith, count_run_bounds 1 x xs)) (e' ∙ total) in
        subst₂ Stops (sym total)
          (sym (drop-add step (k - step) (x ∷ xs)) ∙ ap (λ j. drop j (x ∷ xs)) (sym split)) ih
  ]
]

-- A literal string of MODE C goes on until it has 63 bytes, the input ends, or a run of three bytes
-- or more begins: the encoder gives up no bytes to a shorter string.
literal_loop-Stops : (l : List ℕ) → Stops (literal_loop 63 0 l) (drop (literal_loop 63 0 l) l)
literal_loop-Stops l =
    let e : literal_loop 63 0 l ≡ 0 + literal_loop 63 0 l = omega arith in
    let stops : Stops (0 + literal_loop 63 0 l) (drop (literal_loop 63 0 l) l) =
      literal_loop-Stops_at 63 0 (literal_loop 63 0 l) l (omega arith) (omega arith) e in
    subst (λ m. Stops m (drop (literal_loop 63 0 l) l)) (sym e) stops
