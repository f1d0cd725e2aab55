-- ===== src/Base/Bits.antt =====
-- Facts about `bit_and` and `bit_or` at variables: over a byte by evaluation, and for a byte joined
-- below a higher number from the digits.
use Prim.Native.Nat.{
  ℕ, zero, suc, ◌+◌, ◌*◌, ◌/◌, ◌%◌, ◌≤◌, ◌<◌, max, bit_and, bit_or, digits, bit_or-bitwise,
}
use mathlib.Core.Path.{◌≡◌, refl}
use mathlib.Core.Bool.{Bool, true, ◌&&◌}
use native.Mathlib.Omega.{arith}
use native.Mathlib.Decide.{dec_lt}
use hybrid_ftp.Base.Tests.{◌==◌, ==_iff}

-- A test that holds of 0, 1, … below a bound.
pub every_below : (ℕ → Bool) → ℕ → Bool
every_below test zero = true
every_below test (suc bound) = every_below test bound && test bound

every_below-at :
    (test : ℕ → Bool) (bound i : ℕ) → i < bound → every_below test bound ≡ true → test i ≡ true
unfolding every_below
every_below-at test zero i below all = absurd (omega arith)
every_below-at test (suc bound) i below all = ground (arith, every_below-at test bound i)

agree_on_bytes :
    (f g : ℕ → ℕ) → every_below (λ x. f x == g x) 256 ≡ true → (x : ℕ) → x < 256 → f x ≡ g x
agree_on_bytes f g table x h =
    (==_iff (f x) (g x)).0 (every_below-at (λ x. f x == g x) 256 x h table)

-- The masks of the compressed mode's control byte.
pub low_six : (b : ℕ) → b < 256 → bit_and b 0x3f ≡ b % 64
unfolding every_below
low_six = agree_on_bytes _ _ refl

pub top_two : (b : ℕ) → b < 256 → bit_and b 0xc0 ≡ b / 64 * 64
unfolding every_below
top_two = agree_on_bytes _ _ refl

pub set_top_bit : (b : ℕ) → b < 64 → bit_or 0x80 b ≡ b + 128
unfolding every_below
set_top_bit b h =
    let f : ℕ → ℕ = λ x. bit_or 0x80 (x % 64) in
    let fact : f b ≡ b % 64 + 128 = agree_on_bytes f (λ x. x % 64 + 128) refl b (omega arith) in
    let small : b % 64 ≡ b = omega arith in rw small at fact

-- What `bit_or` stands for, one binary place at a time; the fuel does not matter from `a` on.
abbrev joined : ℕ → ℕ → ℕ → ℕ
joined a b fuel = digits (λ y. y) max fuel a b

joined_fuel : (a b k l : ℕ) → a ≤ l → a ≤ k → joined a b k ≡ joined a b l
joined_fuel zero b zero zero hl hk = refl
joined_fuel zero b zero (suc l) hl hk = refl
joined_fuel zero b (suc k) zero hl hk = refl
joined_fuel zero b (suc k) (suc l) hl hk = refl
joined_fuel (suc a) b zero l hl hk = absurd (omega arith)
joined_fuel (suc a) b (suc k) zero hl hk = absurd (omega arith)
joined_fuel (suc a) b (suc k) (suc l) hl hk =
    let rest : joined (suc a / 2) (b / 2) k ≡ joined (suc a / 2) (b / 2) l =
      joined_fuel (suc a / 2) (b / 2) k l (omega arith) (omega arith) in
    omega (arith, rest)

nothing_joined : (b : ℕ) → bit_or 0 b ≡ b
nothing_joined b = bit_or-bitwise 0 b

bit_or_step : (a b : ℕ) → bit_or a b ≡ max (a % 2) (b % 2) + 2 * bit_or (a / 2) (b / 2)
bit_or_step zero b = omega (arith, nothing_joined (b / 2), nothing_joined b)
bit_or_step (suc a) b =
    let h = suc a / 2 in
    let same_fuel : joined h (b / 2) a ≡ joined h (b / 2) h =
      joined_fuel h (b / 2) a h (omega arith) (omega arith) in
    omega (arith, same_fuel, bit_or-bitwise h (b / 2), bit_or-bitwise (suc a) b)

or_nothing : (bound a : ℕ) → a ≤ bound → bit_or a 0 ≡ a
or_nothing zero a small = let nil : a ≡ 0 = omega arith in rw nil refl
or_nothing (suc bound) a small = elim (dec_lt 0 a) [
  | yes positive ↦ omega (arith, or_nothing bound (a / 2) (omega arith), bit_or_step a 0)
  | no ne ↦ or_nothing bound a (omega arith)
]

bit_or-zero : (a : ℕ) → bit_or a 0 ≡ a
bit_or-zero a = or_nothing a a (omega arith)

bit_or_above : (a lo : ℕ) → bit_or a (lo / 2) ≡ a + lo / 2 → bit_or (a * 2) lo ≡ a * 2 + lo
bit_or_above a lo h =
    let half : a * 2 / 2 ≡ a = omega arith in
    let step : bit_or (a * 2) lo ≡ max (a * 2 % 2) (lo % 2) + 2 * bit_or a (lo / 2) =
      rw half at (bit_or_step (a * 2) lo) in
    omega (arith, h, step)

-- `a` shifted up by `k` binary places.
abbrev shift_up : ℕ → ℕ → ℕ
shift_up zero a = a
shift_up (suc k) a = shift_up k a * 2

bit_or-shift_up : (k hi lo : ℕ) → lo < shift_up k 1 → bit_or (shift_up k hi) lo ≡ shift_up k hi + lo
bit_or-shift_up zero hi lo h =
    let none_left : lo ≡ 0 = omega arith in rw none_left (omega (arith, bit_or-zero hi))
bit_or-shift_up (suc k) hi lo h =
    bit_or_above (shift_up k hi) lo (bit_or-shift_up k hi (lo / 2) (omega arith))

-- `(hi << 8) | lo` of two bytes.
pub bit_or-byte : (hi lo : ℕ) → lo < 256 → bit_or (hi * 256) lo ≡ hi * 256 + lo
bit_or-byte hi lo h =
    let shifted : shift_up 8 hi ≡ hi * 256 = omega arith in
    rw shifted at (bit_or-shift_up 8 hi lo (omega arith))
