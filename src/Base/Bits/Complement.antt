-- ===== src/Base/Bits/Complement.antt =====
-- A mask and its complement part the digits of a word.
use Prim.Native.Nat.{ℕ, zero, suc, ◌+◌, ◌-◌, ◌/◌, ◌%◌, ◌^◌, ◌<◌, min, bit_and}
use mathlib.Core.Path.{◌≡◌}
use native.Mathlib.Omega.{arith}
use sri_glibc_malloc.Base.Bits.Digits.{bit_and-digit, zero-bit_and}
use sri_glibc_malloc.Base.Bits.Masks.{two_pow-suc, two_pow-pos, two_pow-lt, bit_and-ones}

-- The lowest digits of a mask and of its complement
lowest : (x b c : ℕ) → x < 2 → b + c ≡ 1 → min x b + min x c ≡ x
lowest x b c small one = ground arith

bit_and-complement : (w a b c : ℕ) → a < 2 ^ w → b + c ≡ 2 ^ w - 1 → bit_and a b + bit_and a c ≡ a
bit_and-complement zero a b c small parts =
    let none_left : a ≡ 0 = omega arith in
    rw none_left (omega (arith, zero-bit_and b, zero-bit_and c))
bit_and-complement (suc w) a b c small parts =
    let pow = two_pow-suc w in
    let pos = two_pow-pos w in
    let later =
      bit_and-complement w (a / 2) (b / 2) (c / 2) (omega (arith, pow))
        (omega (arith, pow, pos, parts)) in
    omega (
      arith,
      later,
      bit_and-digit a b,
      bit_and-digit a c,
      lowest (a % 2) (b % 2) (c % 2) (omega arith) (omega (arith, pow, pos, parts)),
    )

-- `a & ~(2 ^ k - 1)` in `w` bits clears the digits below `k`.
pub bit_and-high : (w k a : ℕ) → a < 2 ^ w → k < w → bit_and a (2 ^ w - 2 ^ k) ≡ a - a % 2 ^ k
bit_and-high w k a small h =
    let below = two_pow-lt k w h in
    let pos = two_pow-pos k in
    let parts =
      bit_and-complement w a (2 ^ w - 2 ^ k) (2 ^ k - 1) small (omega (arith, below, pos)) in
    omega (arith, parts, bit_and-ones k a)
