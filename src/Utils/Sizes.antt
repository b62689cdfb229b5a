-- ===== src/Utils/Sizes.antt =====
-- The overflow checks `add_size` and `mul_size` of utils.c.
use native.Mathlib.Decide.{dec_lt}
use native.Mathlib.Nat.{mul-div_cancel, div-mul-le_self}
use sri_glibc_malloc.Base.{
  ℕ, zero, suc, ◌+◌, ◌*◌, ◌/◌, ◌%◌, ◌<◌, ◌≡◌, ◌≢◌, true, false, none, some, ltb, if◌then◌else◌,
  arith, ap,
}
use sri_glibc_malloc.Utils.{u64_mod, add_size, mul_size}

-- On 64-bit words `add_size` returns true and stores the sum exactly when the sum fits 64 bits, and
-- stores nothing otherwise.
pub add_size_lem :
    (s1 s2 : ℕ)
    → s1 < u64_mod
    → s2 < u64_mod
    → add_size s1 s2 ≡ (if ltb (s1 + s2) u64_mod then (true, some (s1 + s2)) else (false, none))
unfolding add_size
add_size_lem s1 s2 p q = ground arith

-- On 64-bit words `mul_size` returns true and stores the product exactly when the product fits 64
-- bits, and stores nothing otherwise.
pub mul_size_lem :
    (s1 s2 : ℕ)
    → s1 < u64_mod
    → s2 < u64_mod
    → mul_size s1 s2 ≡ (if ltb (s1 * s2) u64_mod then (true, some (s1 * s2)) else (false, none))
unfolding mul_size
mul_size_lem zero s2 p q = ground arith
mul_size_lem (suc a) zero p q = ground arith
mul_size_lem (suc a) (suc b) p q = elim (dec_lt (suc a * suc b) u64_mod) [
  | yes fits ↦
      let e : suc a * suc b % u64_mod ≡ suc a * suc b = omega arith in
      let d : suc a * suc b / suc b ≡ suc a = mul-div_cancel (suc a) (omega arith) in
      let pos : 0 < suc a * suc b = omega arith in rw (e, d) (ground arith)
  | no over ↦
      let d : suc a * suc b % u64_mod / suc b ≢ suc a = λ h.
        omega
          (arith, div-mul-le_self (suc a * suc b % u64_mod) (suc b), ap (λ (t : ℕ). t * suc b) h) in
      ground arith
]

-- A product that is known to fit
pub mul_size-fits :
    (s1 s2 : ℕ)
    → s1 < u64_mod
    → s2 < u64_mod
    → s1 * s2 < u64_mod
    → mul_size s1 s2 ≡ (true, some (s1 * s2))
mul_size-fits s1 s2 p q h = ground (arith, mul_size_lem s1 s2 p q)
