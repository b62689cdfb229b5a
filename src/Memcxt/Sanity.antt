-- ===== src/Memcxt/Sanity.antt =====
-- `sane_bucket_pool` of memcxt.c, as SRI_POOL_DEBUG turns it on: the count of free elements is the
-- number of bits that are clear.
use sri_glibc_malloc.Base.{
  ℕ, zero, suc, ◌+◌, ◌^◌, ◌%◌, ◌≤◌, ◌≡◌, refl, bit_and, Bool, true, List, [], ◌∷◌, ◌==◌,
  if◌then◌else◌, arith,
}
use sri_glibc_malloc.Utils.{u64_mod}
use sri_glibc_malloc.Memcxt.{Pool, bits_in_mask, get_bit}
use sri_glibc_malloc.Memcxt.Masks.{zeros, get_bit_lem}
use sri_glibc_malloc.Memcxt.Slots.{IsPool, free_bits}

-- The inner loop, over the first `n` bits of a mask
unfoldable pub count_clear : ℕ → ℕ → ℕ
count_clear zero mask = 0
count_clear (suc bit) mask =
    count_clear bit mask + (if bit_and mask (2 ^ bit % u64_mod) == 0 then 1 else 0)

unfoldable pub bit_free_count : List ℕ → ℕ
bit_free_count [] = 0
bit_free_count (mask ∷ masks) = count_clear bits_in_mask mask + bit_free_count masks

unfoldable pub sane_bucket_pool : Pool → Bool
sane_bucket_pool p = p.free_count == bit_free_count p.bitmasks

count_clear-zeros : (k m : ℕ) → k ≤ 64 → count_clear k m ≡ zeros k m
unfolding count_clear zeros get_bit
count_clear-zeros zero m h = refl
count_clear-zeros (suc k) m h =
    ground (arith, count_clear-zeros k m (omega arith), get_bit_lem m k (omega arith))

bit_free_count-free_bits : (ms : List ℕ) → bit_free_count ms ≡ free_bits ms
unfolding bit_free_count free_bits
bit_free_count-free_bits [] = refl
bit_free_count-free_bits (m ∷ ms) =
    omega (arith, count_clear-zeros 64 m (omega arith), bit_free_count-free_bits ms)

-- A pool that satisfies the invariant passes the sanity check.
pub sane_bucket_pool-IsPool : (scale : ℕ) (p : Pool) → IsPool scale p → sane_bucket_pool p ≡ true
unfolding sane_bucket_pool
sane_bucket_pool-IsPool scale p is = ground (arith, is.counted, bit_free_count-free_bits p.bitmasks)
