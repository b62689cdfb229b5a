-- ===== src/Base/Bits/Masks.antt =====
-- Words of `k` digits: single bits, masks of ones, bounds, and extensionality by digits.
use Prim.Native.Nat.{ℕ, zero, suc, ◌+◌, ◌-◌, ◌*◌, ◌/◌, ◌%◌, ◌^◌, ◌≤◌, ◌<◌, bit_and, bit_or, bit_xor}
use mathlib.Core.Path.{◌≡◌, refl, ap, ◌∙◌}
use mathlib.Core.Bool.{false, not}
use native.Mathlib.Omega.{arith}
use native.Mathlib.Nat.{pow-suc, one-le-pow}
use native.Mathlib.Numerals.{add-one}
use sri_glibc_malloc.Base.Tests.{◌==◌, ltb}
use sri_glibc_malloc.Base.Bits.Digits.{
  digit, zero-bit_and, bit_and-digit, bit_or-digit, bit_xor-digit, differ_bits,
}

pub two_pow-suc : (k : ℕ) → 2 ^ suc k ≡ 2 * 2 ^ k
two_pow-suc k = omega (arith, pow-suc 2 k)

pub two_pow-add_one : (k : ℕ) → 2 ^ (k + 1) ≡ 2 * 2 ^ k
two_pow-add_one k = rw add-one (two_pow-suc k)

pub two_pow-pos : (k : ℕ) → 1 ≤ 2 ^ k
two_pow-pos k = one-le-pow k 2 (omega arith)

pub digit-zero : (i : ℕ) → digit i 0 ≡ false
digit-zero zero = refl
digit-zero (suc i) = digit-zero i

pub digit-two_pow : (i j : ℕ) → digit i (2 ^ j) ≡ (i == j)
digit-two_pow zero zero = refl
digit-two_pow zero (suc j) = ground (arith, two_pow-suc j)
digit-two_pow (suc i) zero = ground (arith, digit-zero i)
digit-two_pow (suc i) (suc j) =
    let h : 2 ^ suc j / 2 ≡ 2 ^ j = omega (arith, two_pow-suc j) in
    rw h (ground (arith, digit-two_pow i j))

pub digit-ones : (i k : ℕ) → digit i (2 ^ k - 1) ≡ ltb i k
digit-ones i zero = ground (arith, digit-zero i)
digit-ones zero (suc k) = ground (arith, two_pow-suc k, two_pow-pos k)
digit-ones (suc i) (suc k) =
    let h : (2 ^ suc k - 1) / 2 ≡ 2 ^ k - 1 = omega (arith, two_pow-suc k, two_pow-pos k) in
    rw h (ground (arith, digit-ones i k))

-- Two words of `k` bits with the same digits are equal.
pub eq_of_digits :
    (k a b : ℕ) → a < 2 ^ k → b < 2 ^ k → ((i : ℕ) → i < k → digit i a ≡ digit i b) → a ≡ b
eq_of_digits zero a b p q same = omega arith
eq_of_digits (suc k) a b p q same = ground (
  arith,
  two_pow-suc k,
  same 0 (omega arith),
  eq_of_digits k (a / 2) (b / 2) (omega (arith, two_pow-suc k)) (omega (arith, two_pow-suc k))
      (λ i h. same (suc i) (omega arith)),
)

pub bit_or-lt : (k a b : ℕ) → a < 2 ^ k → b < 2 ^ k → bit_or a b < 2 ^ k
bit_or-lt zero zero zero p q = omega (arith, bit_or-digit 0 0)
bit_or-lt zero zero (suc b) p q = absurd (omega arith)
bit_or-lt zero (suc a) b p q = absurd (omega arith)
bit_or-lt (suc k) a b p q = omega (
  arith,
  two_pow-suc k,
  bit_or-digit a b,
  bit_or-lt k (a / 2) (b / 2) (omega (arith, two_pow-suc k)) (omega (arith, two_pow-suc k)),
)

pub bit_and-lt : (k a b : ℕ) → a < 2 ^ k → bit_and a b < 2 ^ k
bit_and-lt zero zero b p = omega (arith, zero-bit_and b)
bit_and-lt zero (suc a) b p = absurd (omega arith)
bit_and-lt (suc k) a b p = omega (
  arith,
  two_pow-suc k,
  bit_and-digit a b,
  bit_and-lt k (a / 2) (b / 2) (omega (arith, two_pow-suc k)),
)

pub bit_xor-lt : (k a b : ℕ) → a < 2 ^ k → b < 2 ^ k → bit_xor a b < 2 ^ k
bit_xor-lt zero zero zero p q = omega arith
bit_xor-lt zero zero (suc b) p q = absurd (omega arith)
bit_xor-lt zero (suc a) b p q = absurd (omega arith)
bit_xor-lt (suc k) a b p q = ground (
  arith,
  two_pow-suc k,
  bit_xor-digit a b,
  differ_bits (a % 2) (b % 2),
  bit_xor-lt k (a / 2) (b / 2) (omega (arith, two_pow-suc k)) (omega (arith, two_pow-suc k)),
)

bit_and-zero : (k a : ℕ) → a < 2 ^ k → bit_and a 0 ≡ 0
bit_and-zero zero zero h = refl
bit_and-zero zero (suc a) h = absurd (omega arith)
bit_and-zero (suc k) a h =
    omega (arith, bit_and-digit a 0, bit_and-zero k (a / 2) (omega (arith, two_pow-suc k)))

lt-two_pow : (a : ℕ) → a < 2 ^ a
lt-two_pow zero = omega arith
lt-two_pow (suc a) = omega (arith, two_pow-suc a, lt-two_pow a)

mul-two_pow-suc : (q k : ℕ) → q * 2 ^ suc k ≡ 2 * (q * 2 ^ k)
mul-two_pow-suc q k = omega (arith, ap (λ (t : ℕ). q * t) (two_pow-suc k))

-- The low field of a word that is put together from two.
bit_and-low_field : (k q r : ℕ) → r < 2 ^ k → bit_and (q * 2 ^ k + r) (2 ^ k - 1) ≡ r
bit_and-low_field zero q r h = omega (arith, bit_and-zero (q * 1 + r) (q * 1 + r) (lt-two_pow _))
bit_and-low_field (suc k) q r h =
    let e : (q * 2 ^ suc k + r) / 2 ≡ q * 2 ^ k + r / 2 = omega (arith, mul-two_pow-suc q k) in
    let m : (2 ^ suc k - 1) / 2 ≡ 2 ^ k - 1 = omega (arith, two_pow-suc k, two_pow-pos k) in
    let b : bit_and (q * 2 ^ k + r / 2) (2 ^ k - 1) ≡ r / 2 =
      bit_and-low_field k q (r / 2) (omega (arith, two_pow-suc k)) in
    rw (bit_and-digit, e, m, b) (omega (arith, mul-two_pow-suc q k, two_pow-suc k, two_pow-pos k))

-- `a & (2^k - 1)` is the remainder by `2^k`.
pub bit_and-ones : (k a : ℕ) → bit_and a (2 ^ k - 1) ≡ a % 2 ^ k
bit_and-ones k a = ground (arith, two_pow-pos k, bit_and-low_field k (a / 2 ^ k) (a % 2 ^ k))

-- `(a & (1 << i)) == 0` reads digit `i`.
pub bit_and-two_pow : (i a : ℕ) → (bit_and a (2 ^ i) == 0) ≡ not (digit i a)
bit_and-two_pow zero a =
    ground (arith, bit_and-digit a 1, bit_and-zero (a / 2) (a / 2) (lt-two_pow _))
bit_and-two_pow (suc i) a =
    let m : 2 ^ suc i / 2 ≡ 2 ^ i = omega (arith, two_pow-suc i) in
    let z : 2 ^ suc i % 2 ≡ 0 = omega (arith, two_pow-suc i) in
    let e : bit_and a (2 ^ suc i) ≡ bit_and (a / 2) (2 ^ i) * 2 =
      bit_and-digit a (2 ^ suc i) ∙ rw (m, z) (omega arith) in
    rw e (ground (arith, bit_and-two_pow i (a / 2)))

pub two_pow-lt : (i k : ℕ) → i < k → 2 ^ i < 2 ^ k
two_pow-lt i zero h = elim h [ ]
two_pow-lt zero (suc k) h = omega (arith, two_pow-suc k, two_pow-pos k)
two_pow-lt (suc i) (suc k) h =
    omega (arith, two_pow-suc i, two_pow-suc k, two_pow-lt i k (omega arith))
