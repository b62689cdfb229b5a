-- ===== src/Utils/Ctz.antt =====
-- `ctz64` of utils.h.
use sri_glibc_malloc.Base.{
  ◌==◌, ℕ, zero, suc, ◌+◌, ◌%◌, ◌^◌, ◌<◌, ◌≡◌, ◌≢◌, true, false, Returns, arith, digit, Bool-cases,
  bit_and-two_pow, two_pow-add_one, two_pow-lt, eq_of_digits, inl, inr, refl, sym, digit-zero, ◌∙◌,
}
use sri_glibc_malloc.Utils.{u64_mod, ctz_loop, ctz64}

-- `i` is the index of the lowest digit of `x` that is set.
pub record IsLowest (x i : ℕ) : Type 0 where
  pub in_word : i < 64
  pub here : digit i x ≡ true
  pub none_below : (j : ℕ) → j < i → digit j x ≡ false

module _ (x : ℕ) (nonzero : x ≢ 0) (word : x < u64_mod) where
  -- With the digits below `i` clear, the loop at `i` finds the lowest digit.
  ctz_loop-IsLowest :
      (fuel i : ℕ)
      → i + fuel ≡ 64
      → ((j : ℕ) → j < i → digit j x ≡ false)
      → Returns (ctz_loop fuel x (2 ^ i % u64_mod) i) (IsLowest x)
  unfolding ctz_loop
  ctz_loop-IsLowest zero i e clear = absurd (
      nonzero (
        eq_of_digits 64 x 0 word (omega arith) (λ j h. clear j (omega arith) ∙ sym (digit-zero j))))
  ctz_loop-IsLowest (suc fuel) i e clear =
      let small : 2 ^ i % u64_mod ≡ 2 ^ i = omega (arith, two_pow-lt i 64) in
      let test = bit_and-two_pow i x in
      elim (Bool-cases (digit i x)) [
        | inl hit ↦
            rw (small, test, hit)
              (i, refl, record { in_word = omega arith; here = hit; none_below = clear })
        | inr miss ↦
            let next : (2 ^ i + 2 ^ i) % u64_mod ≡ 2 ^ (i + 1) % u64_mod =
              omega (arith, two_pow-add_one i) in
            rw (small, test, miss, next)
              (ctz_loop-IsLowest fuel (i + 1) (omega arith) (λ j h. grind (arith, clear j)))
      ]

  -- For a nonzero 64-bit word `ctz64` ends, and returns the index of the lowest bit that is set.
  pub ctz64-IsLowest : Returns (ctz64 x) (IsLowest x)
  unfolding ctz64
  ctz64-IsLowest =
      let set : (x == 0) ≡ false = ground arith in
      rw set (ctz_loop-IsLowest 64 0 refl (λ j h. elim h [ ]))
