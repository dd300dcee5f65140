-- ===== src/Base/Bits.antt =====
-- Bits of a mask at variables: what `&`, `|` and `1 << n` do to each bit.
use Prim.Native.Nat.{
  ℕ, zero, suc, ◌+◌, ◌-◌, ◌*◌, ◌/◌, ◌%◌, ◌^◌, ◌≤◌, ◌<◌, min, max, bit_and, bit_or, digits,
  bit_and-bitwise, bit_or-bitwise,
}
use mathlib.Core.Path.{◌≡◌, refl, ap, ◌∙◌}
use mathlib.Core.Bool.{Bool, true, false, ◌||◌}
use native.Mathlib.Omega.{arith, pow_step}
use chakra_jxx.Base.Tests.{◌==◌, if◌then◌else◌}

-- Bit `i` of `m`.
unfoldable pub test_bit : ℕ → ℕ → Bool
test_bit m zero = m % 2 == 1
test_bit m (suc i) = test_bit (m / 2) i

-- The operations on bits are one recursion over the digits of the left operand. The number of
-- rounds does not matter, once it is enough.
module _ (base : ℕ → ℕ) (op : ℕ → ℕ → ℕ) where
  digits-rounds : (a b k l : ℕ) → a ≤ k → a ≤ l → digits base op k a b ≡ digits base op l a b
  digits-rounds zero b zero zero p q = refl
  digits-rounds zero b zero (suc l) p q = refl
  digits-rounds zero b (suc k) zero p q = refl
  digits-rounds zero b (suc k) (suc l) p q = refl
  digits-rounds (suc a) b zero l p q = absurd (omega arith)
  digits-rounds (suc a) b (suc k) zero p q = absurd (omega arith)
  digits-rounds (suc a) b (suc k) (suc l) p q =
      let half = suc a / 2 in
      ap (λ (d : ℕ). d * 2 + op (suc a % 2) (b % 2))
        (digits-rounds half (b / 2) k l (omega arith) (omega arith))

  digits-step :
      (a b : ℕ)
      → digits base op (suc a) (suc a) b
        ≡ digits base op (suc a / 2) (suc a / 2) (b / 2) * 2 + op (suc a % 2) (b % 2)
  digits-step a b =
      ap (λ (d : ℕ). d * 2 + op (suc a % 2) (b % 2))
        (digits-rounds (suc a / 2) (b / 2) a (suc a / 2) (omega arith) (omega arith))

none-bit_and : (b : ℕ) → bit_and 0 b ≡ 0
none-bit_and b = bit_and-bitwise 0 b

none-bit_or : (b : ℕ) → bit_or 0 b ≡ b
none-bit_or b = bit_or-bitwise 0 b

-- The lowest digit of both operands, and the others.
bit_and-halves : (a b : ℕ) → bit_and a b ≡ bit_and (a / 2) (b / 2) * 2 + min (a % 2) (b % 2)
bit_and-halves zero b = omega (arith, none-bit_and b, none-bit_and (b / 2))
bit_and-halves (suc a) b = omega (
  arith,
  digits-step (λ c. zero) min a b,
  bit_and-bitwise (suc a / 2) (b / 2),
  bit_and-bitwise (suc a) b,
)

bit_or-halves : (a b : ℕ) → bit_or a b ≡ bit_or (a / 2) (b / 2) * 2 + max (a % 2) (b % 2)
bit_or-halves zero b = omega (arith, none-bit_or b, none-bit_or (b / 2))
bit_or-halves (suc a) b = omega (
  arith,
  digits-step (λ c. c) max a b,
  bit_or-bitwise (suc a / 2) (b / 2),
  bit_or-bitwise (suc a) b,
)

pub test_bit-bit_or : (a b i : ℕ) → test_bit (bit_or a b) i ≡ (test_bit a i || test_bit b i)
unfolding test_bit
test_bit-bit_or a b zero = ground (arith, bit_or-halves a b)
test_bit-bit_or a b (suc i) =
    let e : bit_or a b / 2 ≡ bit_or (a / 2) (b / 2) = omega (arith, bit_or-halves a b) in
    rw e (test_bit-bit_or (a / 2) (b / 2) i)

pub zero-test_bit : (i : ℕ) → test_bit 0 i ≡ false
unfolding test_bit
zero-test_bit zero = refl
zero-test_bit (suc i) = zero-test_bit i

pub test_bit-pow : (j i : ℕ) → test_bit (2 ^ j) i ≡ (j == i)
unfolding test_bit
test_bit-pow zero zero = refl
test_bit-pow zero (suc i) = zero-test_bit i ∙ ground arith
test_bit-pow (suc j) zero = ground (arith, pow_step 2 j)
test_bit-pow (suc j) (suc i) =
    let e : 2 ^ suc j / 2 ≡ 2 ^ j = omega (arith, pow_step 2 j) in
    rw e (test_bit-pow j i ∙ ground arith)

-- `(1 << i) & m` is the bit itself, or nothing.
pub bit_and-pow : (i m : ℕ) → bit_and (2 ^ i) m ≡ (if test_bit m i then 2 ^ i else 0)
unfolding test_bit
bit_and-pow zero m = ground (arith, bit_and-halves 1 m, none-bit_and (m / 2))
bit_and-pow (suc i) m =
    let e : 2 ^ suc i / 2 ≡ 2 ^ i = omega (arith, pow_step 2 i) in
    bit_and-halves (2 ^ suc i) m ∙ rw e (ground (arith, pow_step 2 i, bit_and-pow i (m / 2)))

pub pow-pos : (i : ℕ) → 0 < 2 ^ i
pow-pos zero = omega arith
pow-pos (suc i) = omega (arith, pow_step 2 i, pow-pos i)

pub lt-pow : (i : ℕ) → i < 2 ^ i
lt-pow zero = omega arith
lt-pow (suc i) = omega (arith, pow_step 2 i, lt-pow i)

-- Every bit below `n` of the number with the lowest `n` bits is set.
pub test_bit-ones : (n i : ℕ) → i < n → test_bit (2 ^ n - 1) i ≡ true
unfolding test_bit
test_bit-ones zero i h = absurd (omega arith)
test_bit-ones (suc n) zero h = ground (arith, pow_step 2 n, pow-pos n)
test_bit-ones (suc n) (suc i) h =
    let e : (2 ^ suc n - 1) / 2 ≡ 2 ^ n - 1 = omega (arith, pow_step 2 n, pow-pos n) in
    rw e (test_bit-ones n i (omega arith))

pub pow-lt : (i j : ℕ) → i < j → 2 ^ i < 2 ^ j
pow-lt i zero h = absurd (omega arith)
pow-lt zero (suc j) h = omega (arith, pow_step 2 j, pow-pos j)
pow-lt (suc i) (suc j) h = omega (arith, pow_step 2 i, pow_step 2 j, pow-lt i j (omega arith))

digits-none : (k a : ℕ) → digits (λ c. zero) min k a 0 ≡ 0
digits-none zero zero = refl
digits-none zero (suc a) = refl
digits-none (suc k) zero = refl
digits-none (suc k) (suc a) = omega (arith, digits-none k (suc a / 2))

bit_and-none : (a : ℕ) → bit_and a 0 ≡ 0
bit_and-none a = bit_and-bitwise a 0 ∙ digits-none a a

-- The same with the bit on the right.
pub bit_and-pow_right : (m i : ℕ) → bit_and m (2 ^ i) ≡ (if test_bit m i then 2 ^ i else 0)
unfolding test_bit
bit_and-pow_right m zero = ground (arith, bit_and-halves m 1, bit_and-none (m / 2))
bit_and-pow_right m (suc i) =
    let e : 2 ^ suc i / 2 ≡ 2 ^ i = omega (arith, pow_step 2 i) in
    bit_and-halves m (2 ^ suc i) ∙ rw e (ground (arith, pow_step 2 i, bit_and-pow_right (m / 2) i))
