-- ===== src/Path/FreeName.antt =====
-- That `generateUniqueFilename` ends with the first name that is free.
use native.Mathlib.Decide.{dec_lt}
use hybrid_ftp.Base.{
  ℕ, zero, suc, ◌+◌, ◌≤◌, ◌<◌, ◌≡◌, refl, inl, inr, true, false, some, arith, Bool-cases,
}
use hybrid_ftp.Text.{Text}
use hybrid_ftp.Path.{FileSystem, PathManager}
use hybrid_ftp.Path.Unique.{candidate, is_taken, unique_loop, generate_unique_filename}

module _ {F : Type 0} ⦃fs : FileSystem F⦄ (f : F) (m : PathManager) (base : Text) where
  -- The `j`th name is free, and those from the `k`th up to it are taken.
  pub IsFirstFree : ℕ → ℕ → Type 0
  IsFirstFree k j =
      (is_taken f m base (candidate base j) ≡ false)
      × ((i : ℕ) → k ≤ i → i < j → is_taken f m base (candidate base i) ≡ true)

  unique_loop_lem :
      (fuel k n : ℕ)
      → k ≤ n
      → n < k + fuel
      → is_taken f m base (candidate base n) ≡ false
      → (j : ℕ) × (k ≤ j)
        × (j ≤ n)
        × (unique_loop f m base fuel k ≡ some (candidate base j))
        × IsFirstFree k j
  unfolding unique_loop IsFirstFree
  unique_loop_lem zero k n lo hi free = absurd (omega arith)
  unique_loop_lem (suc fuel) k n lo hi free =
      elim (Bool-cases (is_taken f m base (candidate base k))) [
        | inr vacant ↦ (k, omega arith, lo, rw vacant refl, (vacant, λ i a b. absurd (omega arith)))
        | inl taken ↦
            let below : k < n = differs k n taken lo free in
            let (j, above, le, found, last) =
              unique_loop_lem fuel (suc k) n below (omega arith) free in
            (j, omega arith, le, rw taken found, (last.0, λ i a b. at_least k j taken last.1 i a b))
      ]
    where
      differs :
          (k n : ℕ)
          → is_taken f m base (candidate base k) ≡ true
          → k ≤ n
          → is_taken f m base (candidate base n) ≡ false
          → k < n
      differs k n taken lo free = elim (dec_lt k n) [
        | yes lt ↦ lt
        | no ge ↦
            let same : k ≡ n = omega arith in
            let clash : is_taken f m base (candidate base n) ≡ true = rw same at taken in cc
      ]

      at_least :
          (k j : ℕ)
          → is_taken f m base (candidate base k) ≡ true
          → ((i : ℕ) → suc k ≤ i → i < j → is_taken f m base (candidate base i) ≡ true)
          → (i : ℕ) → k ≤ i
          → i < j
          → is_taken f m base (candidate base i) ≡ true
      at_least k j taken before i a b = elim (dec_lt k i) [
        | yes lt ↦ before i lt b
        | no ge ↦ let same : k ≡ i = omega arith in rw same at taken
      ]

  -- If the name with some number is free, the loop ends within that many rounds and one more. It
  -- returns the first free name: every name that it tried before is taken.
  pub generate_unique_lem :
      (fuel n : ℕ)
      → n < fuel
      → is_taken f m base (candidate base n) ≡ false
      → (j : ℕ) × (j ≤ n)
        × (generate_unique_filename f m base fuel ≡ some (candidate base j))
        × IsFirstFree 0 j
  unfolding generate_unique_filename
  generate_unique_lem fuel n h free =
      let (j, _, le, found, first) = unique_loop_lem fuel 0 n (omega arith) (omega arith) free in
      (j, le, found, first)
