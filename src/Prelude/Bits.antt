-- ===== src/Prelude/Bits.antt =====
-- Binary digits of the native numbers, and what a mask keeps of them.
use Prim.Native.Nat.{
  ℕ, zero, suc, ◌+◌, ◌*◌, ◌/◌, ◌%◌, ◌≤◌, ◌<◌, min, bit_and, digits, bit_and-bitwise,
}
use mathlib.Core.Path.{◌≡◌, ◌∙◌, refl, sym, ap}
use native.Mathlib.Omega.{arith}

module _ (z : ℕ → ℕ) (f : ℕ → ℕ → ℕ) where
  run_out : (n b : ℕ) → digits z f n 0 b ≡ z b
  run_out zero b = refl
  run_out (suc n) b = refl

  -- The rounds beyond the number of digits change nothing.
  enough_rounds :
      (bound a b n m : ℕ) → a ≤ bound → a ≤ n → a ≤ m → digits z f n a b ≡ digits z f m a b
  enough_rounds bound zero b n m l p q = run_out n b ∙ sym (run_out m b)
  enough_rounds zero (suc a) b n m l p q = absurd (omega arith)
  enough_rounds (suc bound) (suc a) b zero m l p q = absurd (omega arith)
  enough_rounds (suc bound) (suc a) b (suc n) zero l p q = absurd (omega arith)
  enough_rounds (suc bound) (suc a) b (suc n) (suc m) l p q =
      ap (λ high. high * 2 + f (suc a % 2) (b % 2))
        (enough_rounds bound (suc a / 2) (b / 2) n m (omega arith) (omega arith) (omega arith))

abbrev both : ℕ → ℕ → ℕ → ℕ
both = digits (λ _. zero) min

opened : (a b : ℕ) → bit_and a b ≡ both a a b
opened a b = bit_and-bitwise a b

-- The lowest digit of a conjunction, and the digits above it.
pub bit_and_halves : (a b : ℕ) → bit_and a b ≡ bit_and (a / 2) (b / 2) * 2 + min (a % 2) (b % 2)
bit_and_halves zero b = omega (arith, opened 0 b, opened 0 (b / 2))
bit_and_halves (suc a) b =
    let half : ℕ = suc a / 2 in
    let same : both a half (b / 2) ≡ both half half (b / 2) =
      enough_rounds (λ _. zero) min a half (b / 2) a half (omega arith) (omega arith)
        (omega arith) in
    omega (arith, opened (suc a) b, opened half (b / 2), same)

no_digits : (n a : ℕ) → both n a 0 ≡ 0
no_digits zero a = refl
no_digits (suc n) zero = refl
no_digits (suc n) (suc a) = omega (arith, no_digits n (suc a / 2))

pub bit_and-zero : (a : ℕ) → bit_and a 0 ≡ 0
bit_and-zero a = opened a 0 ∙ no_digits a a

-- The digit of weight 2 ^ k.
unfoldable pub nth_bit : ℕ → ℕ → ℕ
nth_bit zero x = x % 2
nth_bit (suc k) x = nth_bit k (x / 2)

pub nth_bit-lt : (k x : ℕ) → nth_bit k x < 2
unfolding nth_bit
nth_bit-lt zero x = omega arith
nth_bit-lt (suc k) x = nth_bit-lt k (x / 2)

pub nth_bit-bit_and : (k a b : ℕ) → nth_bit k (bit_and a b) ≡ min (nth_bit k a) (nth_bit k b)
unfolding nth_bit
nth_bit-bit_and zero a b = omega (arith, bit_and_halves a b)
nth_bit-bit_and (suc k) a b = rw halved (nth_bit-bit_and k (a / 2) (b / 2))
  where
    halved : bit_and a b / 2 ≡ bit_and (a / 2) (b / 2)
    halved = omega (arith, bit_and_halves a b)

-- 2 ^ k, by doubling.
unfoldable pub weight : ℕ → ℕ
weight zero = 1
weight (suc k) = weight k * 2

-- A mask of the one digit `k` keeps that digit.
pub bit_and-weight : (k a : ℕ) → bit_and a (weight k) ≡ nth_bit k a * weight k
unfolding nth_bit weight
bit_and-weight zero a = omega (arith, bit_and_halves a 1, bit_and-zero (a / 2))
bit_and-weight (suc k) a = omega (arith, stepped, bit_and-weight k (a / 2))
  where
    half : weight k * 2 / 2 ≡ weight k
    half = omega arith

    stepped : bit_and a (weight k * 2) ≡ bit_and (a / 2) (weight k) * 2
    stepped = omega (arith, bit_and_halves a (weight k * 2), ap_half)
      where
        ap_half : bit_and (a / 2) (weight k * 2 / 2) ≡ bit_and (a / 2) (weight k)
        ap_half = rw half
