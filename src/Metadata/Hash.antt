-- ===== src/Metadata/Hash.antt =====
-- The address of a chunk: the bin that `metadata_bindex` computes, and how it moves when `p` does.
use native.Mathlib.Decide.{dec_lt}
use native.Mathlib.Nat.{mod-eq-sub-mod, mod-lt, mod-eq_of_lt, mul-add-mod_self_left, div-add-mod}
use sri_glibc_malloc.Base.{
  ℕ, ◌+◌, ◌-◌, ◌*◌, ◌/◌, ◌%◌, ◌^◌, ◌≤◌, ◌<◌, ◌≡◌, ◌≢◌, ◌⊎◌, inl, inr, sym, ◌∙◌, ap, true, some,
  arith, ltb, ◌==◌, if◌then◌else◌, bit_and-ones, two_pow-lt, two_pow-pos, two_pow-add_one,
}
use sri_glibc_malloc.Utils.{u64_mod, u32_mod}
use sri_glibc_malloc.Utils.Powers.{is_power_of_two-two_pow}
use sri_glibc_malloc.Metadata.{Metadata, mod_power_of_two, metadata_bindex, bincount_max}
use sri_glibc_malloc.Variant.{Variant}

-- `mod_power_of_two` passes its assertion and is the remainder, for a power of two of 32 bits.
pub mod_power_of_two_lem : (x k : ℕ) → k < 32 → mod_power_of_two x (2 ^ k) ≡ some (x % 2 ^ k)
unfolding mod_power_of_two
mod_power_of_two_lem x k h =
    let low : (2 ^ k + u64_mod - 1) % u64_mod ≡ 2 ^ k - 1 =
      omega (arith, two_pow-lt k 32, two_pow-pos k) in
    rw (is_power_of_two-two_pow k h, low, bit_and-ones k x)

-- The remainder by twice `m`
mod_double : (h m : ℕ) → 0 < m → (h % (2 * m) ≡ h % m) ⊎ (h % (2 * m) ≡ m + h % m)
mod_double h m pos =
    let q = h / (2 * m) in
    let r = h % (2 * m) in
    let parts : m * (2 * q) + r ≡ h = omega (arith, div-add-mod h (2 * m)) in
    let same : r % m ≡ h % m =
      sym (mul-add-mod_self_left m (2 * q) r) ∙ ap (λ (x : ℕ). x % m) parts in
    let small : r < 2 * m = mod-lt h (omega arith) in
    elim (dec_lt r m) [
      | yes low ↦ inl (sym (mod-eq_of_lt low) ∙ same)
      | no high ↦
          let less : r % m ≡ r - m = mod-eq-sub-mod (omega arith) ∙ mod-eq_of_lt (omega arith) in
          inr (omega arith)
    ]

-- The step of `p` and `maxp`
unfoldable pub next_limit : ℕ → ℕ → ℕ
next_limit m p = if p + 1 == m then 2 * m else m

unfoldable pub next_split : ℕ → ℕ → ℕ
next_split m p = if p + 1 == m then 0 else p + 1

module _ ⦃code : Variant⦄ where
  -- Larson's address of `k` with limit `m`, of which the first `p` bins are split.
  unfoldable pub home : ℕ → ℕ → ℕ → ℕ
  home m p k = if ltb (code.hash k % m) p then code.hash k % (2 * m) else code.hash k % m

  -- For a limit of up to 2 ^ 30, a power of two, `metadata_bindex` returns Larson's address.
  pub metadata_bindex-home :
      (t : Metadata) (e k : ℕ)
      → e ≤ 30
      → t.maxp ≡ 2 ^ e
      → metadata_bindex t k ≡ some (home t.maxp t.p k)
  unfolding metadata_bindex home
  metadata_bindex-home t e k h limit =
      let small = two_pow-lt e 31 (omega arith) in
      let pos = two_pow-pos e in
      let next : 2 ^ e * 2 % u64_mod ≡ 2 ^ (e + 1) = omega (arith, two_pow-add_one e) in
      let double : 2 * 2 ^ e ≡ 2 ^ (e + 1) = omega (arith, two_pow-add_one e) in
      let under : ltb (2 ^ (e + 1)) bincount_max ≡ true = ground (arith, two_pow-add_one e) in
      let r : code.hash k % 2 ^ e % u32_mod ≡ code.hash k % 2 ^ e =
        omega (arith, mod-lt (code.hash k) (two_pow-pos e)) in
      let r' : code.hash k % 2 ^ (e + 1) % u32_mod ≡ code.hash k % 2 ^ (e + 1) =
        omega (arith, mod-lt (code.hash k) (two_pow-pos (e + 1)), two_pow-add_one e) in
      rw
        (
          limit,
          next,
          double,
          mod_power_of_two_lem (code.hash k) e (omega arith),
          mod_power_of_two_lem (code.hash k) (e + 1) (omega arith),
          under,
          r,
          r',
        )
        (ground arith)

  pub home-lt : (m p k : ℕ) → p < m → home m p k < m + p
  unfolding home
  home-lt m p k h = ground (arith, mod_double (code.hash k) m, mod-lt (code.hash k) {m = m})

  module _ (m p k : ℕ) (split : p < m) where
    -- An address in the bin that is split stays or goes to the new bin.
    pub home-next_split :
        home m p k ≡ p
        → (home (next_limit m p) (next_split m p) k ≡ p)
          ⊎ (home (next_limit m p) (next_split m p) k ≡ m + p)
    unfolding home next_limit next_split
    home-next_split e = ground (arith, mod_double (code.hash k) m)

    -- Every other address stays.
    pub home-next_same : home m p k ≢ p → home (next_limit m p) (next_split m p) k ≡ home m p k
    unfolding home next_limit next_split
    home-next_same e = ground (arith, mod_double (code.hash k) m)
