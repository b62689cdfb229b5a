-- ===== src/Utils/Powers.antt =====
-- `is_power_of_two` of utils.c.
use native.Mathlib.Nat.{mod_self}
use sri_glibc_malloc.Base.{
  ℕ, ◌+◌, ◌-◌, ◌%◌, ◌^◌, ◌<◌, ◌≡◌, ◌∙◌, true, arith, bit_and, bit_and-ones, two_pow-pos, two_pow-lt,
}
use sri_glibc_malloc.Utils.{u32_mod, is_power_of_two}

-- `n & (n - 1)` is zero for a power of two.
bit_and-pred_two_pow : (k : ℕ) → bit_and (2 ^ k) (2 ^ k - 1) ≡ 0
bit_and-pred_two_pow k = bit_and-ones k (2 ^ k) ∙ mod_self _

-- `is_power_of_two` accepts every power of two that a `uint32_t` holds.
pub is_power_of_two-two_pow : (k : ℕ) → k < 32 → is_power_of_two (2 ^ k) ≡ true
unfolding is_power_of_two
is_power_of_two-two_pow k h =
    let small : 2 ^ k % u32_mod ≡ 2 ^ k = omega (arith, two_pow-lt k 32) in
    let pred : (2 ^ k + u32_mod - 1) % u32_mod ≡ 2 ^ k - 1 =
      omega (arith, two_pow-lt k 32, two_pow-pos k) in
    rw (small, pred, bit_and-pred_two_pow)
