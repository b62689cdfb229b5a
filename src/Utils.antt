-- ===== src/Utils.antt =====
-- utils.c and utils.h of src/sri-glibc/malloc: the Jenkins hash, overflow checks on `size_t`, the
-- lowest set bit, and the wrappers of `mmap` and `munmap`.
pub mod Sizes
pub mod Ctz
pub mod Powers
use sri_glibc_malloc.Base.{
  ℕ, zero, suc, ◌+◌, ◌-◌, ◌*◌, ◌/◌, ◌%◌, ◌^◌, bit_and, bit_or, bit_xor, Bool, true, false, ◌||◌,
  not, Option, none, some, ltb, ◌==◌, if◌then◌else◌, ◌>>=◌, ◌>>◌, assert,
}

abbrev pub u64_mod : ℕ
u64_mod = 2 ^ 64

abbrev pub u32_mod : ℕ
u32_mod = 2 ^ 32

-- The argument is a `uint32_t`, so a caller's `size_t` is cut to 32 bits.
unfoldable pub is_power_of_two : ℕ → Bool
is_power_of_two size = let n = size % u32_mod in bit_and n ((n + u32_mod - 1) % u32_mod) == 0

-- `rot(x,k)` on `uint32_t`
unfoldable pub rot : ℕ → ℕ → ℕ
rot x k = bit_or (x * 2 ^ k % u32_mod) (x / 2 ^ (32 - k))

-- `c ^= b; c -= rot(b,k);`
unfoldable pub mix : ℕ → ℕ → ℕ → ℕ
unfolding rot
mix c b k = (bit_xor c b + u32_mod - rot b k) % u32_mod

-- the macro `final(a,b,c)`, for the value that it leaves in `c`
unfoldable pub final : ℕ → ℕ → ℕ → ℕ
unfolding mix
final a₀ b₀ c₀ =
    let c₁ = mix c₀ b₀ 14 in
    let a₁ = mix a₀ c₁ 11 in
    let b₁ = mix b₀ a₁ 25 in
    let c₂ = mix c₁ b₁ 16 in let a₂ = mix a₁ c₂ 4 in let b₂ = mix b₁ a₂ 14 in mix c₂ b₂ 24

unfoldable pub jenkins_hash_uint64 : ℕ → ℕ
unfolding final
jenkins_hash_uint64 x = final (x % u32_mod) (x / 2 ^ 32 % u32_mod) 0xdeadbeef

unfoldable pub jenkins_hash_ptr : ℕ → ℕ
unfolding jenkins_hash_uint64
jenkins_hash_ptr p = jenkins_hash_uint64 (p % u64_mod)

-- The result is what the function returns, and what it stores through its last argument, if it
-- stores anything.
unfoldable pub add_size : ℕ → ℕ → Bool × Option ℕ
add_size s1 s2 =
    let result = (s1 + s2) % u64_mod in
    if ltb result s1 || ltb result s2 then (false, none) else (true, some result)

-- The last `return result` turns the product into a `bool`.
unfoldable pub mul_size : ℕ → ℕ → Bool × Option ℕ
mul_size s1 s2 =
    let result = s1 * s2 % u64_mod in
    if s1 == 0 || s2 == 0
    then (true, some 0)
    else if not (result / s2 == s1)
    then (false, none)
    else (not (result == 0), some result)

-- The loop of `ctz64`. `none` stands for a loop that has not ended within the fuel.
unfoldable pub ctz_loop : ℕ → ℕ → ℕ → ℕ → Option ℕ
ctz_loop zero x m i = none
ctz_loop (suc fuel) x m i =
    let rest = ctz_loop fuel x ((m + m) % u64_mod) (i + 1) in
    if bit_and x m == 0 then rest else some i

unfoldable pub ctz64 : ℕ → Option ℕ
ctz64 x = do assert (not (x == 0)); ctz_loop 64 x 1 0

-- What `mmap` answers during one operation, by its address hint and its size. The operations of
-- this allocator make no two calls with the same arguments in one operation.
abbrev pub Mmap : Type 0
Mmap = ℕ → ℕ → ℕ

-- `MAP_FAILED` is `(void *) -1`.
abbrev pub map_failed : ℕ
map_failed = 2 ^ 64 - 1

abbrev pub null : ℕ
null = 0

unfoldable pub sri_mmap : Mmap → ℕ → ℕ → ℕ
sri_mmap mmap oldaddr size =
    let first = mmap oldaddr size in
    let memory =
      if not (oldaddr == null)
      then (if first == map_failed then mmap 0 size else first)
      else first in
    if memory == map_failed then null else memory

-- The `int` that `munmap` returns is a bit pattern of 32 bits, -1 on failure.
unfoldable pub sri_munmap : (ℕ → ℕ → ℕ) → ℕ → ℕ → Bool
sri_munmap munmap memory size = not (munmap memory size == 2 ^ 32 - 1)
