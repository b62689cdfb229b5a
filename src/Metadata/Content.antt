-- ===== src/Metadata/Content.antt =====
-- The bins as a function from their index, apart from segments: where buckets stand, what a chunk's
-- buckets are, and sums over all the buckets.
pub mod Split
pub mod Join
use sri_glibc_malloc.Base.{
  ℕ, zero, suc, ◌+◌, ◌*◌, ◌≤◌, ◌<◌, ◌≡◌, ◌≢◌, refl, Bool, true, false, not, Option, none, some,
  List, [], ◌∷◌, ◌++◌, arith, ltb, ◌==◌, if◌then◌else◌, keep, All, ap, ==_true, Bool-cases, inl,
  inr,
}
use sri_glibc_malloc.Metadata.{Bucket}
use native.Mathlib.Decide.{ℕ_discrete}
use sri_glibc_malloc.Metadata.Hash.{home}
use sri_glibc_malloc.Variant.{Variant}

module _ ⦃code : Variant⦄ where
  abbrev pub Bins : Type 0
  Bins = ℕ → List Bucket

  -- Every bucket stands in the bin of its chunk.
  abbrev pub Placed : ℕ → ℕ → Bins → Type 0
  Placed m p f = (i : ℕ) → All (λ b. home m p b.chunk == i) (f i)

  -- The buckets of a chunk in a list, in order
  abbrev pub of_chunk : ℕ → List Bucket → List Bucket
  of_chunk k = keep (λ b. b.chunk == k)

  -- The buckets of a chunk: those in its bin, in order
  abbrev pub view : ℕ → ℕ → Bins → ℕ → List Bucket
  view m p f k = of_chunk k (f (home m p k))

  -- A sum over the buckets of a list, and over those of the first `n` bins
  unfoldable pub sum : (Bucket → ℕ) → List Bucket → ℕ
  sum w [] = 0
  sum w (b ∷ bs) = w b + sum w bs

  unfoldable pub sum_bins : (Bucket → ℕ) → ℕ → Bins → ℕ
  sum_bins w zero f = 0
  sum_bins w (suc n) f = sum_bins w n f + sum w (f n)

  pub sum-append : (w : Bucket → ℕ) (xs ys : List Bucket) → sum w (xs ++ ys) ≡ sum w xs + sum w ys
  unfolding sum
  sum-append w [] ys = omega arith
  sum-append w (x ∷ xs) ys = omega (arith, sum-append w xs ys)

  pub sum_bins-same :
      (w : Bucket → ℕ) (n : ℕ) (f g : Bins)
      → ((i : ℕ) → i < n → g i ≡ f i)
      → sum_bins w n g ≡ sum_bins w n f
  unfolding sum_bins
  sum_bins-same w zero f g same = refl
  sum_bins-same w (suc n) f g same =
      ground (arith, sum_bins-same w n f g (λ i h. same i (omega arith)), same n (omega arith))

  -- A change of one bin
  pub sum_bins-change :
      (w : Bucket → ℕ) (n i : ℕ) (f g : Bins)
      → i < n
      → ((j : ℕ) → j < n → j ≢ i → g j ≡ f j)
      → sum_bins w n g + sum w (f i) ≡ sum_bins w n f + sum w (g i)
  unfolding sum_bins
  sum_bins-change w zero i f g h same = elim h [ ]
  sum_bins-change w (suc n) i f g h same = elim (ℕ_discrete n i) [
    | yes here ↦ omega (
      arith,
      sum_bins-same w n f g (λ j p. same j (omega arith) (omega arith)),
      ap (λ j. sum w (f j)) here,
      ap (λ j. sum w (g j)) here,
    )
    | no there ↦ ground (
      arith,
      sum_bins-change w n i f g (omega arith) (λ j p. same j (omega arith)),
      same n (omega arith) there,
    )
  ]

  -- No bucket of `k` stands outside the bin of `k`.
  pub of_chunk-other :
      (m p k i : ℕ) (bs : List Bucket)
      → All (λ b. home m p b.chunk == i) bs
      → (home m p k == i) ≡ false
      → of_chunk k bs ≡ []
  unfolding keep
  of_chunk-other m p k i [] a ne = refl
  of_chunk-other m p k i (b ∷ bs) a ne = elim (Bool-cases (b.chunk == k)) [
    | inl e ↦
        let same : home m p b.chunk ≡ home m p k = ap (home m p) (==_true b.chunk k e) in
        absurd (ground (arith, a.0))
    | inr e ↦ rw e (of_chunk-other m p k i bs a.1 ne)
  ]

  -- A part of a list that is chosen by chunk has all the buckets of a chunk, or none.
  pub of_chunk-keep :
      (g : ℕ → Bool) (k : ℕ) (bs : List Bucket)
      → of_chunk k (keep (λ b. g b.chunk) bs) ≡ (if g k then of_chunk k bs else [])
  unfolding keep
  of_chunk-keep g k [] = ground arith
  of_chunk-keep g k (b ∷ bs) = elim (Bool-cases (b.chunk == k)) [
    | inl e ↦ ground (arith, ap g (==_true b.chunk k e), of_chunk-keep g k bs)
    | inr e ↦ ground (arith, of_chunk-keep g k bs)
  ]

  pub sum-keep_parts :
      (w : Bucket → ℕ) (g : ℕ → Bool) (bs : List Bucket)
      → sum w (keep (λ b. not (g b.chunk)) bs) + sum w (keep (λ b. g b.chunk) bs) ≡ sum w bs
  unfolding keep sum
  sum-keep_parts w g [] = omega arith
  sum-keep_parts w g (b ∷ bs) = ground (arith, sum-keep_parts w g bs)
