-- ===== src/Base/Bits/Digits.antt =====
-- The native operations are defined by a recursion on digits with fuel. Here the fuel is dropped.
use Prim.Native.Nat.{
  ℕ, zero, suc, ◌+◌, ◌*◌, ◌/◌, ◌%◌, ◌≤◌, ◌<◌, min, max, differ, digits, bitwise, bit_and, bit_or,
  bit_xor, bit_and-bitwise, bit_or-bitwise, bit_xor-bitwise,
}
use mathlib.Core.Path.{◌≡◌, refl}
use mathlib.Core.Bool.{Bool, ◌&&◌, ◌||◌, not}
use native.Mathlib.Omega.{arith}
use native.Mathlib.Nat.{le_refl}
use sri_glibc_malloc.Base.Tests.{◌==◌, if◌then◌else◌}

module _ (z : ℕ → ℕ) (f : ℕ → ℕ → ℕ) where
  enough : (n m a b : ℕ) → a ≤ n → a ≤ m → digits z f n a b ≡ digits z f m a b
  enough zero zero zero b p q = refl
  enough zero zero (suc a) b p q = refl
  enough zero (suc m) zero b p q = refl
  enough zero (suc m) (suc a) b p q = absurd (omega arith)
  enough (suc n) zero zero b p q = refl
  enough (suc n) zero (suc a) b p q = absurd (omega arith)
  enough (suc n) (suc m) zero b p q = refl
  enough (suc n) (suc m) (suc a) b p q =
      rw (enough n m (suc a / 2) (b / 2) (omega arith) (omega arith))

  lowest :
      (a b : ℕ)
      → bitwise z f (suc a) b ≡ bitwise z f (suc a / 2) (b / 2) * 2 + f (suc a % 2) (b % 2)
  lowest a b = omega (arith, enough a (suc a / 2) (suc a / 2) (b / 2) (omega arith) (le_refl _))

pub bit_and-digit : (a b : ℕ) → bit_and a b ≡ bit_and (a / 2) (b / 2) * 2 + min (a % 2) (b % 2)
bit_and-digit zero b = simp bit_and-bitwise (omega arith)
bit_and-digit (suc a) b = simp bit_and-bitwise (lowest (λ y. 0) min a b)

pub zero-bit_and : (b : ℕ) → bit_and 0 b ≡ 0
zero-bit_and b = simp bit_and-bitwise

pub bit_or-digit : (a b : ℕ) → bit_or a b ≡ bit_or (a / 2) (b / 2) * 2 + max (a % 2) (b % 2)
bit_or-digit zero b = simp bit_or-bitwise (omega arith)
bit_or-digit (suc a) b = simp bit_or-bitwise (lowest (λ y. y) max a b)

pub bit_xor-digit : (a b : ℕ) → bit_xor a b ≡ bit_xor (a / 2) (b / 2) * 2 + differ (a % 2) (b % 2)
bit_xor-digit zero b = simp bit_xor-bitwise (omega arith)
bit_xor-digit (suc a) b = simp bit_xor-bitwise (lowest (λ y. y) differ a b)

-- Digit `i` of `m`.
abbrev pub digit : ℕ → ℕ → Bool
digit zero m = m % 2 == 1
digit (suc i) m = digit i (m / 2)

half-bit_and : (a b : ℕ) → bit_and a b / 2 ≡ bit_and (a / 2) (b / 2)
half-bit_and a b = omega (arith, bit_and-digit a b)

half-bit_or : (a b : ℕ) → bit_or a b / 2 ≡ bit_or (a / 2) (b / 2)
half-bit_or a b = omega (arith, bit_or-digit a b)

pub differ_bits : (a b : ℕ) → a < 2 → b < 2 → differ a b ≡ (if a == b then 0 else 1)
differ_bits zero zero p q = refl
differ_bits zero (suc zero) p q = refl
differ_bits zero (suc (suc b)) p q = absurd (omega arith)
differ_bits (suc zero) zero p q = refl
differ_bits (suc zero) (suc zero) p q = refl
differ_bits (suc zero) (suc (suc b)) p q = absurd (omega arith)
differ_bits (suc (suc a)) b p q = absurd (omega arith)

half-bit_xor : (a b : ℕ) → bit_xor a b / 2 ≡ bit_xor (a / 2) (b / 2)
half-bit_xor a b = ground (arith, bit_xor-digit a b, differ_bits (a % 2) (b % 2))

pub digit-bit_and : (i a b : ℕ) → digit i (bit_and a b) ≡ (digit i a && digit i b)
digit-bit_and zero a b = ground (arith, bit_and-digit a b)
digit-bit_and (suc i) a b = rw half-bit_and (digit-bit_and i (a / 2) (b / 2))

pub digit-bit_or : (i a b : ℕ) → digit i (bit_or a b) ≡ (digit i a || digit i b)
digit-bit_or zero a b = ground (arith, bit_or-digit a b)
digit-bit_or (suc i) a b = rw half-bit_or (digit-bit_or i (a / 2) (b / 2))

pub digit-bit_xor :
    (i a b : ℕ) → digit i (bit_xor a b) ≡ (if digit i a then not (digit i b) else digit i b)
digit-bit_xor zero a b = ground (arith, bit_xor-digit a b, differ_bits (a % 2) (b % 2))
digit-bit_xor (suc i) a b = rw half-bit_xor (digit-bit_xor i (a / 2) (b / 2))
