-- ===== src/Client/Digits.antt =====
-- The decimal numbers that the server writes, as the client reads them.
use hybrid_ftp.Base.{
  ℕ, zero, suc, ◌+◌, ◌-◌, ◌*◌, ◌/◌, ◌%◌, ◌≤◌, ◌<◌, ◌≡◌, refl, inl, inr, true, false, some, [], ◌∷◌,
  ◌++◌, arith, ltb, ltb→lt, lt→ltb, not_ltb→le, Bool-cases, length, All, length-append, All-append,
}
use hybrid_ftp.Text.{Text, is_empty}
use hybrid_ftp.Path.Listing.{decimal_loop, decimal}
use hybrid_ftp.Client.Replies.{is_digit, span_digits, match_number, value_of}

abbrev pub IsDigits : Text → Type 0
IsDigits t = All (λ c. is_digit c ≡ true) t

is_digit_lem : (n : ℕ) → n < 10 → is_digit (48 + n) ≡ true
unfolding is_digit
is_digit_lem n h = ground arith

decimal_loop-IsDigits : (fuel n : ℕ) → IsDigits (decimal_loop fuel n)
unfolding decimal_loop
decimal_loop-IsDigits zero n = tt
decimal_loop-IsDigits (suc fuel) n = elim (Bool-cases (ltb n 10)) [
  | inl small ↦ rw small (is_digit_lem n (ltb→lt n 10 small), tt)
  | inr large ↦ rw large (
      All-append (λ c. is_digit c ≡ true) (decimal_loop fuel (n / 10)) _
        (decimal_loop-IsDigits fuel (n / 10)) (is_digit_lem (n % 10) (omega arith), tt))
]

pub decimal-IsDigits : (n : ℕ) → IsDigits (decimal n)
unfolding decimal
decimal-IsDigits n = decimal_loop-IsDigits (suc n) n

value_of-append :
    (k : ℕ) (t : Text) (c : ℕ) → value_of k (t ++ c ∷ []) ≡ value_of k t * 10 + (c - 48)
unfolding value_of
value_of-append k [] c = refl
value_of-append k (d ∷ t) c = value_of-append (k * 10 + (d - 48)) t c

value_of-decimal_loop : (fuel n : ℕ) → n < fuel → value_of 0 (decimal_loop fuel n) ≡ n
unfolding decimal_loop value_of
value_of-decimal_loop zero n h = absurd (omega arith)
value_of-decimal_loop (suc fuel) n h = elim (Bool-cases (ltb n 10)) [
  | inl small ↦ rw small (omega arith)
  | inr large ↦
      let ten : 10 ≤ n = not_ltb→le n 10 large in
      rw
        (
          large,
          value_of-append 0 (decimal_loop fuel (n / 10)) (48 + n % 10),
          value_of-decimal_loop fuel (n / 10) (omega arith),
        )
        (omega arith)
]

-- What is written in decimal digits reads as the same number.
pub value_of-decimal : (n : ℕ) → value_of 0 (decimal n) ≡ n
unfolding decimal
value_of-decimal n = value_of-decimal_loop (suc n) n (omega arith)

-- One more digit for ten times as many numbers.
one_more_digit :
    (k bound : ℕ)
    → ((fuel m : ℕ) → m < bound → length (decimal_loop fuel m) ≤ k)
    → (fuel n : ℕ) → n < 10 * bound
    → length (decimal_loop fuel n) ≤ suc k
unfolding decimal_loop
one_more_digit k bound shorter zero n h = omega arith
one_more_digit k bound shorter (suc fuel) n h = elim (Bool-cases (ltb n 10)) [
  | inl small ↦ rw small (omega arith)
  | inr large ↦
      let front = shorter fuel (n / 10) (omega arith) in
      rw large
        (omega (arith, length-append (decimal_loop fuel (n / 10)) ((48 + n % 10) ∷ []), front))
]

one_digit : (fuel m : ℕ) → m < 10 → length (decimal_loop fuel m) ≤ 1
unfolding decimal_loop
one_digit zero m h = omega arith
one_digit (suc fuel) m h = rw (lt→ltb m 10 h) (omega arith)

-- A byte has at most three digits.
pub length-decimal : (n : ℕ) → n < 1000 → length (decimal n) ≤ 3
unfolding decimal
length-decimal n h = one_more_digit 2 100 (one_more_digit 1 10 one_digit) (suc n) n (omega arith)

append-is_empty : (t : Text) (c : ℕ) → is_empty (t ++ c ∷ []) ≡ false
append-is_empty [] c = refl
append-is_empty (d ∷ t) c = refl

span_digits-append :
    (d : Text) (c : ℕ) (r : Text)
    → IsDigits d
    → is_digit c ≡ false
    → span_digits (d ++ c ∷ r) ≡ (d, c ∷ r)
unfolding span_digits
span_digits-append [] c r h e = rw e refl
span_digits-append (x ∷ d) c r h e = rw (h.0, span_digits-append d c r h.1 e) refl

decimal-is_empty : (n : ℕ) → is_empty (decimal n) ≡ false
unfolding decimal decimal_loop
decimal-is_empty n = elim (Bool-cases (ltb n 10)) [
  | inl small ↦ rw small refl
  | inr large ↦ rw large (append-is_empty (decimal_loop n (n / 10)) (48 + n % 10))
]

-- A number in front of another character.
pub match_number-decimal :
    (n c : ℕ) (r : Text)
    → is_digit c ≡ false
    → match_number (decimal n ++ c ∷ r) ≡ some (decimal n, c ∷ r)
unfolding match_number
match_number-decimal n c r e =
    rw (span_digits-append (decimal n) c r (decimal-IsDigits n) e, decimal-is_empty n) refl
