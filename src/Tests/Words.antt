-- ===== src/Tests/Words.antt =====
-- Runs of utils.c and of the masks of memcxt.c.
use sri_glibc_malloc.Base.{
  ◌≡◌, ◌^◌, ◌*◌, ◌+◌, ltb, if◌then◌else◌, true, false, none, some, Returns, arith,
}
use sri_glibc_malloc.Utils.{add_size, mul_size, ctz64, is_power_of_two, u64_mod}
use sri_glibc_malloc.Utils.Sizes.{add_size_lem, mul_size_lem}
use sri_glibc_malloc.Utils.Ctz.{IsLowest, ctz64-IsLowest}
use sri_glibc_malloc.Utils.Powers.{is_power_of_two-two_pow}

add_size_lem_example :
    add_size (2 ^ 63) (2 ^ 63)
    ≡ (if ltb (2 ^ 63 + 2 ^ 63) u64_mod then (true, some (2 ^ 63 + 2 ^ 63)) else (false, none))
add_size_lem_example = add_size_lem (2 ^ 63) (2 ^ 63) (omega arith) (omega arith)

mul_size_lem_example :
    mul_size (2 ^ 40) (2 ^ 30)
    ≡ (if ltb (2 ^ 40 * 2 ^ 30) u64_mod then (true, some (2 ^ 40 * 2 ^ 30)) else (false, none))
mul_size_lem_example = mul_size_lem (2 ^ 40) (2 ^ 30) (omega arith) (omega arith)

ctz64-IsLowest_example : Returns (ctz64 40) (IsLowest 40)
ctz64-IsLowest_example = ctz64-IsLowest 40 (omega arith) (omega arith)

is_power_of_two-two_pow_example : is_power_of_two (2 ^ 10) ≡ true
is_power_of_two-two_pow_example = is_power_of_two-two_pow 10 (omega arith)
