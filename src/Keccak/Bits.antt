-- ===== src/Keccak/Bits.antt =====
-- Bounds on the operations on binary digits.
use flash_loan.Prelude.{ℕ, zero, suc, ◌/◌, ◌%◌, ◌^◌, ◌≤◌, ◌<◌, min, arith}
use Prim.Native.Nat.{bit_and, bit_xor, digits, differ, bit_and-bitwise, bit_xor-bitwise}

-- An operation that makes a digit of two digits, and no more than the second number when the
-- first has run out, stays below the same power of two.
digits_lt :
    (z : ℕ → ℕ) (f : ℕ → ℕ → ℕ)
    → ((b : ℕ) → z b ≤ b)
    → ((c d : ℕ) → c < 2 → d < 2 → f c d < 2)
    → (n k a b : ℕ) → a < 2 ^ k
    → b < 2 ^ k
    → digits z f n a b < 2 ^ k
digits_lt z f hz hf zero k a b ha hb = omega (arith, hz b)
digits_lt z f hz hf (suc n) k zero b ha hb = omega (arith, hz b)
digits_lt z f hz hf (suc n) zero (suc a) b ha hb = absurd (omega arith)
digits_lt z f hz hf (suc n) (suc k) (suc a) b ha hb =
    let lower = digits_lt z f hz hf n k (suc a / 2) (b / 2) (omega arith) (omega arith) in
    omega (arith, lower, hf (suc a % 2) (b % 2) (omega arith) (omega arith))

-- The digits that two numbers share are no more than the second number.
digits_and : (n a b : ℕ) → digits (λ c. zero) min n a b ≤ b
digits_and zero a b = omega arith
digits_and (suc n) zero b = omega arith
digits_and (suc n) (suc a) b = omega (arith, digits_and n (suc a / 2) (b / 2))

pub bit_and_le : (a b : ℕ) → bit_and a b ≤ b
bit_and_le a b = rw (bit_and-bitwise a b) (digits_and a a b)

differ_lt : (c d k : ℕ) → c < k → d < k → differ c d < k
differ_lt zero d k hc hd = hd
differ_lt (suc c) zero k hc hd = hc
differ_lt (suc c) (suc d) k hc hd = differ_lt c d k (omega arith) (omega arith)

pub bit_xor_lt : (k a b : ℕ) → a < 2 ^ k → b < 2 ^ k → bit_xor a b < 2 ^ k
bit_xor_lt k a b ha hb = rw (bit_xor-bitwise a b) (
    digits_lt (λ c. c) differ (λ c. omega arith) (λ c d hc hd. differ_lt c d 2 hc hd) a k a b ha hb)
