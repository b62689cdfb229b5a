-- ===== src/Memcxt/Masks.antt =====
-- One bit mask: what `get_bit`, `set_bit`, `clear_bit` and `get_free_bit` of memcxt.c do to the
-- digits of a word, and the number of digits that are clear.
use native.Mathlib.Decide.{dec_lt}
use sri_glibc_malloc.Base.{
  ℕ, zero, suc, ◌+◌, ◌%◌, ◌^◌, ◌≤◌, ◌<◌, ◌≡◌, ◌≢◌, ◌∙◌, refl, true, false, ◌&&◌, ◌||◌, not, ltb,
  ◌==◌, if◌then◌else◌, Returns, arith, digit, digit-bit_and, digit-bit_or, digit-bit_xor,
  digit-two_pow, digit-ones, bit_and-two_pow, bit_or-lt, bit_and-lt, bit_xor-lt, two_pow-lt,
  eq_of_digits, digit-zero, ap,
}
use sri_glibc_malloc.Utils.{u64_mod}
use sri_glibc_malloc.Utils.Ctz.{ctz64-IsLowest}
use sri_glibc_malloc.Memcxt.{uint64_max, complement, get_free_bit, get_bit, set_bit, clear_bit}

digit-complement : (j m : ℕ) → j < 64 → digit j (complement m) ≡ not (digit j m)
digit-complement j m h = ground (arith, digit-bit_xor j m uint64_max, digit-ones j 64)

-- `1 << index` as a `uint64_t`
shift_lem : (i : ℕ) → i < 64 → 2 ^ i % u64_mod ≡ 2 ^ i
shift_lem i h = omega (arith, two_pow-lt i 64)

module _ (m i : ℕ) (h : i < 64) where
  pub get_bit_lem : get_bit m i ≡ digit i m
  unfolding get_bit
  get_bit_lem = rw (shift_lem i h) (ground (arith, bit_and-two_pow i m))

  pub digit-set_bit : (j : ℕ) → digit j (set_bit m i) ≡ (j == i || digit j m)
  unfolding set_bit
  digit-set_bit j = rw (shift_lem i h) (ground (arith, digit-bit_or j m (2 ^ i), digit-two_pow j i))

  pub set_bit-lt : m < u64_mod → set_bit m i < u64_mod
  unfolding set_bit
  set_bit-lt p = rw (shift_lem i h) (bit_or-lt 64 m (2 ^ i) p (two_pow-lt i 64 h))

  pub digit-clear_bit : (j : ℕ) → j < 64 → digit j (clear_bit m i) ≡ (digit j m && not (j == i))
  unfolding clear_bit
  digit-clear_bit j p = rw (shift_lem i h) (
      ground (
        arith,
        digit-bit_and j m (complement (2 ^ i)),
        digit-complement j (2 ^ i),
        digit-two_pow j i,
      ))

  pub clear_bit-lt : m < u64_mod → clear_bit m i < u64_mod
  unfolding clear_bit
  clear_bit-lt p = bit_and-lt 64 m _ p

digit_of_full : (m i : ℕ) → i < 64 → digit i (complement m) ≡ false → digit i m ≡ digit i uint64_max
digit_of_full m i h e = ground (arith, digit-complement i m h, digit-ones i 64)

complement-ne-zero : (m : ℕ) → m < uint64_max → complement m ≢ 0
complement-ne-zero m h e =
    let full : m ≡ uint64_max =
      eq_of_digits 64 m uint64_max (omega arith) (omega arith)
        (λ i p. digit_of_full m i p (ap (digit i) e ∙ digit-zero i)) in
    omega arith

-- For a mask that is not full `get_free_bit` passes its assertion and returns the index of a digit
-- that is clear.
pub get_free_bit_lem :
    (m : ℕ) → m < uint64_max → Returns (get_free_bit m) (λ i. (i < 64) × (digit i m ≡ false))
unfolding get_free_bit
get_free_bit_lem m h =
    let partial : (m == uint64_max) ≡ false = ground arith in
    let (i, run, lowest) =
      ctz64-IsLowest (complement m) (complement-ne-zero m h)
        (bit_xor-lt 64 m uint64_max (omega arith) (omega arith)) in
    (
      i,
      rw partial run,
      (lowest.in_word, ground (arith, digit-complement i m lowest.in_word, lowest.here)),
    )

-- The number of digits below `k` that are clear.
unfoldable pub zeros : ℕ → ℕ → ℕ
zeros zero m = 0
zeros (suc k) m = zeros k m + (if digit k m then 0 else 1)

-- Two masks that differ in digit `i` alone, which is clear in the first.
pub zeros_flip :
    (k i m m' : ℕ)
    → k ≤ 64
    → digit i m ≡ false
    → digit i m' ≡ true
    → ((j : ℕ) → j < 64 → j ≢ i → digit j m' ≡ digit j m)
    → zeros k m ≡ zeros k m' + (if ltb i k then 1 else 0)
unfolding zeros
zeros_flip zero i m m' b p q same = ground arith
zeros_flip (suc k) i m m' b p q same =
    ground (arith, zeros_flip k i m m' (omega arith) p q same, same k (omega arith))

pub all_of_zeros : (k j m : ℕ) → zeros k m ≡ 0 → j < k → digit j m ≡ true
unfolding zeros
all_of_zeros zero j m e h = absurd (omega arith)
all_of_zeros (suc k) j m e h = elim (dec_lt j k) [
  | yes p ↦ all_of_zeros k j m (omega arith) p
  | no p ↦ let same : j ≡ k = omega arith in rw same (ground arith)
]

pub zeros-le : (k m : ℕ) → zeros k m ≤ k
unfolding zeros
zeros-le zero m = omega arith
zeros-le (suc k) m = ground (arith, zeros-le k m)

pub zeros_full : zeros 64 uint64_max ≡ 0
unfolding zeros
zeros_full = refl

pub zeros_empty : zeros 64 0 ≡ 64
unfolding zeros
zeros_empty = refl
