-- ===== src/Codec/Runs.antt =====
-- What the two scanning loops of MODE C find in the input.
use hybrid_ftp.Base.{
  ℕ, zero, suc, ◌+◌, ◌-◌, ◌≤◌, ◌<◌, min, ◌≡◌, refl, ap, List, [], ◌∷◌, arith, length, take, drop,
  replicate, length-drop,
}
use hybrid_ftp.Codec.{count_run, literal_loop}

-- The run is a repetition of `b`, between what was counted already and 63.
pub count_run_bounds :
    (run b : ℕ) (xs : List ℕ)
    → run ≤ 63
    → (run ≤ count_run run b xs)
      × (count_run run b xs ≤ 63)
      × (count_run run b xs ≤ run + length xs)
unfolding count_run
count_run_bounds run b [] h = omega arith
count_run_bounds run b (c ∷ cs) h = ground (arith, count_run_bounds (run + 1) b cs)

counted_is_run :
    (run b : ℕ) (xs : List ℕ) (k : ℕ)
    → run ≤ 63
    → count_run run b xs ≡ run + k
    → take k xs ≡ replicate k b
unfolding count_run
counted_is_run run b xs zero h e = refl
counted_is_run run b [] (suc k) h e = absurd (omega arith)
counted_is_run run b (c ∷ cs) (suc k) h e =
    ground (arith, count_run_bounds (run + 1) b cs, counted_is_run (run + 1) b cs k)

pub take-count_run :
    (b : ℕ) (xs : List ℕ) → take (count_run 1 b xs) (b ∷ xs) ≡ replicate (count_run 1 b xs) b
take-count_run b xs =
    let k : ℕ = count_run 1 b xs - 1 in
    let e : count_run 1 b xs ≡ suc k = omega (arith, count_run_bounds 1 b xs) in
    rw e (ap (λ l. b ∷ l) (counted_is_run 1 b xs k (omega arith) (omega arith)))

pub literal_loop_bounds :
    (fuel n : ℕ) (xs : List ℕ)
    → n ≤ 63
    → (n ≤ literal_loop fuel n xs)
      × (literal_loop fuel n xs ≤ 63)
      × (literal_loop fuel n xs ≤ n + length xs)
unfolding literal_loop
literal_loop_bounds fuel n [] h = omega arith
literal_loop_bounds zero n (x ∷ xs) h = omega arith
literal_loop_bounds (suc fuel) n (x ∷ xs) h =
    let step : ℕ = min (count_run 1 x xs) (63 - n) in
    ground (
      arith,
      count_run_bounds 1 x xs,
      literal_loop_bounds fuel (n + step) (drop step (x ∷ xs)),
      length-drop step (x ∷ xs),
    )

-- Where no run of three stands at the head, the literal string takes a byte at least.
pub literal_loop_takes :
    (fuel x : ℕ) (xs : List ℕ) → count_run 1 x xs < 3 → 1 ≤ literal_loop (suc fuel) 0 (x ∷ xs)
unfolding literal_loop
literal_loop_takes fuel x xs h =
    let step : ℕ = min (count_run 1 x xs) (63 - 0) in
    ground
      (arith, count_run_bounds 1 x xs, literal_loop_bounds fuel (0 + step) (drop step (x ∷ xs)))
