-- ===== src/Metadata/Content/Join.antt =====
-- The inverse: the last bin is spliced onto the end of its partner.
use sri_glibc_malloc.Base.{
  ℕ, suc, ◌+◌, ◌<◌, ◌≡◌, ◌⊎◌, inl, inr, refl, true, false, List, [], ◌∷◌, ◌++◌, arith, ◌==◌,
  if◌then◌else◌, keep-append, All, All-append, Bool-cases, ==_true, ==_refl,
}
use mathlib.Core.List.{append-nil}
use sri_glibc_malloc.Metadata.{Bucket}
use sri_glibc_malloc.Metadata.Hash.{
  home, home-lt, home-next_split, home-next_same, next_limit, next_split,
}
use sri_glibc_malloc.Metadata.Content.{
  Bins, Placed, of_chunk-other, view, sum_bins, sum_bins-change, sum-append,
}
use sri_glibc_malloc.Variant.{Variant}

module _ ⦃code : Variant⦄ where
  -- The bins after bin `m + p` has been spliced onto bin `p`.
  abbrev pub join : ℕ → ℕ → Bins → Bins
  join m p f i = if i == p then f p ++ f (m + p) else if i == m + p then [] else f i

  -- The limits before the join are those after the step from `m` and `p`.
  module _ (m p : ℕ) (lt : p < m) (f : Bins)
      (placed : Placed (next_limit m p) (next_split m p) f) where
    All-back :
        (i j : ℕ) (bs : List Bucket)
        → ((k : ℕ)
            → (home (next_limit m p) (next_split m p) k == i) ≡ true
            → (home m p k == j) ≡ true)
        → All (λ b. home (next_limit m p) (next_split m p) b.chunk == i) bs
        → All (λ b. home m p b.chunk == j) bs
    All-back i j [] back a = tt
    All-back i j (b ∷ bs) back a = (back b.chunk a.0, All-back i j bs back a.1)

    back_to_split :
        (i k : ℕ)
        → (i ≡ p) ⊎ (i ≡ m + p)
        → (home (next_limit m p) (next_split m p) k == i) ≡ true
        → (home m p k == p) ≡ true
    back_to_split i k at e = elim (Bool-cases (home m p k == p)) [
      | inl e' ↦ e'
      | inr ne ↦ absurd (ground (arith, home-next_same m p k lt, home-lt m p k lt))
    ]

    -- After the join every bucket stands in the bin of its address before the step.
    pub join-Placed : Placed m p (join m p f)
    join-Placed i = elim (Bool-cases (i == p)) [
      | inl e ↦
          rw (e, ==_true i p e)
            (All-append (λ b. home m p b.chunk == p) (f p) (f (m + p))
              (All-back p p (f p) (λ k. back_to_split p k (inl refl)) (placed p))
              (All-back (m + p) p (f (m + p)) (λ k. back_to_split (m + p) k (inr refl))
                (placed (m + p))))
      | inr e ↦ elim (Bool-cases (i == m + p)) [
        | inl e' ↦ rw (e, e') tt
        | inr e' ↦
            rw (e, e')
              (All-back i i (f i)
                (λ k h. ground (arith, home-next_split m p k lt, home-next_same m p k lt))
                (placed i))
      ]
    ]

    -- The join changes no chunk's buckets.
    pub join-view : (k : ℕ) → view m p (join m p f) k ≡ view (next_limit m p) (next_split m p) f k
    join-view k = elim (Bool-cases (home m p k == p)) [
      | inl e ↦
          let apart : (p == m + p) ≡ false = ground arith in
          let apart' : (m + p == p) ≡ false = ground arith in
          elim (home-next_split m p k lt (==_true _ _ e)) [
            | inl stay ↦
                let none_there =
                  of_chunk-other (next_limit m p) (next_split m p) k (m + p) (f (m + p))
                    (placed (m + p)) (rw stay apart) in
                rw (==_true _ _ e, stay, ==_refl p, keep-append, none_there) (append-nil _)
            | inr go ↦
                let none_here =
                  of_chunk-other (next_limit m p) (next_split m p) k p (f p) (placed p)
                    (rw go apart') in
                rw (==_true _ _ e, go, ==_refl p, keep-append, none_here)
          ]
      | inr e ↦
          let apart : (home m p k == m + p) ≡ false = ground (arith, home-lt m p k lt) in
          rw (home-next_same m p k lt (ground arith), e, apart)
    ]

    -- Nor any sum over all the buckets.
    pub join-sum_bins :
        (w : Bucket → ℕ) → sum_bins w (m + p) (join m p f) ≡ sum_bins w (suc (m + p)) f
    unfolding sum_bins
    join-sum_bins w =
        let change =
          sum_bins-change w (m + p) p f (join m p f) (omega arith) (λ j h ne. ground arith) in
        omega (arith, (rw (==_refl p) at change), sum-append w (f p) (f (m + p)))
