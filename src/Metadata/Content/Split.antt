-- ===== src/Metadata/Content/Split.antt =====
-- The split of a bin: the buckets whose new address is the new bin go there, in order.
use sri_glibc_malloc.Base.{
  ℕ, suc, ◌+◌, ◌<◌, ◌≡◌, inl, inr, ◌∙◌, Bool, true, false, not, List, [], ◌∷◌, arith, ◌==◌,
  if◌then◌else◌, keep, All, Bool-cases, ==_true, ==_refl,
}
use sri_glibc_malloc.Metadata.{Bucket}
use sri_glibc_malloc.Metadata.Hash.{
  home, home-lt, home-next_split, home-next_same, next_limit, next_split,
}
use sri_glibc_malloc.Metadata.Content.{
  Bins, Placed, view, sum_bins, sum_bins-change, of_chunk-keep, sum-keep_parts,
}
use sri_glibc_malloc.Variant.{Variant}

module _ ⦃code : Variant⦄ where
  -- The bins after the split of bin `p`: the new bin is `m + p`.
  abbrev pub goes : ℕ → ℕ → ℕ → Bool
  goes m p chunk = home (next_limit m p) (next_split m p) chunk == m + p

  abbrev pub split : ℕ → ℕ → Bins → Bins
  split m p f i =
      if i == p
      then keep (λ b. not (goes m p b.chunk)) (f p)
      else if i == m + p
      then keep (λ b. goes m p b.chunk) (f p)
      else f i

  module _ (m p : ℕ) (lt : p < m) where
    All-goes :
        (bs : List Bucket)
        → All
            (λ b. home (next_limit m p) (next_split m p) b.chunk == m + p)
            (keep (λ b. goes m p b.chunk) bs)
    unfolding keep
    All-goes [] = tt
    All-goes (b ∷ bs) = elim (Bool-cases (goes m p b.chunk)) [
      | inl e ↦ rw e (e, All-goes bs)
      | inr e ↦ rw e (All-goes bs)
    ]

    All-stays :
        (bs : List Bucket)
        → All (λ b. home m p b.chunk == p) bs
        → All
            (λ b. home (next_limit m p) (next_split m p) b.chunk == p)
            (keep (λ b. not (goes m p b.chunk)) bs)
    unfolding keep
    All-stays [] a = tt
    All-stays (b ∷ bs) a = elim (Bool-cases (goes m p b.chunk)) [
      | inl e ↦ rw e (All-stays bs a.1)
      | inr e ↦ rw e (ground (arith, home-next_split m p b.chunk lt), All-stays bs a.1)
    ]

    All-apart :
        (i : ℕ) (bs : List Bucket)
        → (i == p) ≡ false
        → All (λ b. home m p b.chunk == i) bs
        → All (λ b. home (next_limit m p) (next_split m p) b.chunk == i) bs
    All-apart i [] ne a = tt
    All-apart i (b ∷ bs) ne a =
        (ground (arith, a.0, home-next_same m p b.chunk lt), All-apart i bs ne a.1)

    -- After the split every bucket stands in the bin of its new address.
    pub split-Placed :
        (f : Bins) → Placed m p f → Placed (next_limit m p) (next_split m p) (split m p f)
    split-Placed f placed i = elim (Bool-cases (i == p)) [
      | inl e ↦ rw (e, ==_true i p e) (All-stays (f p) (placed p))
      | inr e ↦ elim (Bool-cases (i == m + p)) [
        | inl e' ↦ rw (e, e', ==_true i (m + p) e') (All-goes (f p))
        | inr e' ↦ rw (e, e') (All-apart i (f i) e (placed i))
      ]
    ]

    -- The split changes no chunk's buckets.
    pub split-view :
        (f : Bins) (k : ℕ) → view (next_limit m p) (next_split m p) (split m p f) k ≡ view m p f k
    split-view f k = elim (Bool-cases (home m p k == p)) [
      | inl e ↦ elim (home-next_split m p k lt (==_true _ _ e)) [
        | inl stay ↦
            let part : not (goes m p k) ≡ true = ground arith in
            rw (stay, ==_true _ _ e, ==_refl p)
              (of_chunk-keep (λ c. not (goes m p c)) k (f p) ∙ rw part)
        | inr go ↦
            let part : goes m p k ≡ true = ground arith in
            let apart : (m + p == p) ≡ false = ground arith in
            rw (go, ==_true _ _ e, apart, ==_refl (m + p))
              (of_chunk-keep (goes m p) k (f p) ∙ rw part)
      ]
      | inr e ↦
          let apart : (home m p k == m + p) ≡ false = ground (arith, home-lt m p k lt) in
          rw (home-next_same m p k lt (ground arith), e, apart)
    ]

    -- Nor any sum over all the buckets.
    pub split-sum_bins :
        (w : Bucket → ℕ) (f : Bins) → sum_bins w (suc (m + p)) (split m p f) ≡ sum_bins w (m + p) f
    unfolding sum_bins
    split-sum_bins w f =
        let apart : (m + p == p) ≡ false = ground arith in
        let change =
          sum_bins-change w (m + p) p f (split m p f) (omega arith) (λ j h ne. ground arith) in
        rw (apart, ==_refl (m + p))
          (omega (arith, (rw (==_refl p) at change), sum-keep_parts w (goes m p) (f p)))
