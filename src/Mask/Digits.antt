-- ===== src/Mask/Digits.antt =====
-- Masks of the form that the sysctl handler tests, digit by digit.
use sedarwin.Prelude.{
  ℕ, zero, suc, ◌+◌, ◌*◌, ◌/◌, ◌%◌, ◌^◌, ◌<◌, bit_and, ◌≡◌, refl, ◌↔◌, arith, nth_bit, ◌==◌,
  if◌then◌else◌, true, ==_iff, holds_below, holds_below_sound, weight, bit_and_halves, bit_and-zero,
  bit_and-weight, nth_bit-lt, nth_bit-bit_and,
}

-- `n` ones.
ones : ℕ → ℕ
ones zero = 0
ones (suc n) = ones n * 2 + 1

bit_and-ones : (n x : ℕ) → x < weight n → bit_and x (ones n) ≡ x
unfolding ones weight
bit_and-ones zero x h = omega (arith, bit_and-zero x)
bit_and-ones (suc n) x h = omega (arith, stepped, bit_and-ones n (x / 2) (omega arith))
  where
    half : (ones n * 2 + 1) / 2 ≡ ones n
    half = omega arith

    halved : bit_and (x / 2) ((ones n * 2 + 1) / 2) ≡ bit_and (x / 2) (ones n)
    halved = rw half

    stepped : bit_and x (ones n * 2 + 1) ≡ bit_and (x / 2) (ones n) * 2 + x % 2
    stepped = omega (arith, bit_and_halves x (ones n * 2 + 1), halved)

-- `n` ones above `k` zeros: what `~(ALL | UNSAFE)` is.
high_ones : ℕ → ℕ → ℕ
unfolding ones
high_ones zero n = ones n
high_ones (suc k) n = high_ones k n * 2

high_ones_step : (k n x : ℕ) → bit_and x (high_ones (suc k) n) ≡ bit_and (x / 2) (high_ones k n) * 2
unfolding high_ones
high_ones_step k n x = omega (arith, bit_and_halves x (high_ones k n * 2), halved)
  where
    half : high_ones k n * 2 / 2 ≡ high_ones k n
    half = omega arith

    halved : bit_and (x / 2) (high_ones k n * 2 / 2) ≡ bit_and (x / 2) (high_ones k n)
    halved = rw half

-- A mask of the high digits leaves nothing of a number exactly if the number lies below them.
bit_and-high_ones :
    (k n x : ℕ) → x < weight k * weight n → (bit_and x (high_ones k n) ≡ 0) ↔ (x < weight k)
unfolding high_ones weight
bit_and-high_ones zero n x h = (
  (λ e. omega (arith, bit_and-ones n x (omega arith))),
  (λ l. omega (arith, bit_and-ones n x (omega arith))),
)
bit_and-high_ones (suc k) n x h =
    let bound : x < weight k * weight n * 2 = omega arith in
    let ih = bit_and-high_ones k n (x / 2) (omega arith) in
    (
      (λ e. let l = ih.0 (omega (arith, high_ones_step k n x)) in omega arith),
      (λ l. let e = ih.1 (omega arith) in omega (arith, high_ones_step k n x)),
    )

-- `value & ~(ALL | UNSAFE)` is zero exactly if `value` has no digit from 2 ^ 21 on.
pub bit_and-known : (x : ℕ) → x < 2 ^ 32 → (bit_and x 0xffe0_0000 ≡ 0) ↔ (x < 0x20_0000)
unfolding high_ones ones weight
bit_and-known x h = bit_and-high_ones 21 11 x h

-- Digit 4 is the quarantined hook.
pub bit_and-quarantined : (x : ℕ) → bit_and x 0x10 ≡ nth_bit 4 x * 16
unfolding weight
bit_and-quarantined x = bit_and-weight 4 x

-- Digit by digit, the mask that clears digit 4.
cleared_table : holds_below 32 (λ k. nth_bit k 0xffff_ffef == (if k == 4 then 0 else 1)) ≡ true
unfolding holds_below nth_bit
cleared_table = refl

-- Clearing digit 4 leaves the other digits of a 32-bit mask alone.
pub nth_bit-cleared :
    (k x : ℕ) → k < 32 → nth_bit k (bit_and x 0xffff_ffef) ≡ (if k == 4 then 0 else nth_bit k x)
nth_bit-cleared k x h =
    let digit = (==_iff _ _).0 (holds_below_sound 32 _ k cleared_table h) in
    ground (arith, nth_bit-bit_and k x 0xffff_ffef, nth_bit-lt k x, digit)
