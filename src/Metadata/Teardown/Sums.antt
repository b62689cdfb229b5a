-- ===== src/Metadata/Teardown/Sums.antt =====
-- Sums over some of the bins.
use sri_glibc_malloc.Base.{ℕ, zero, suc, ◌+◌, ◌≤◌, ◌<◌, ◌≡◌, refl, ap, ◌∙◌, [], arith}
use sri_glibc_malloc.Metadata.{Bucket}
use sri_glibc_malloc.Metadata.Content.{Bins, sum, sum_bins}
use sri_glibc_malloc.Variant.{Variant}

module _ ⦃code : Variant⦄ where
  -- The sum over the `n` bins from `i` on
  unfoldable pub rest : (Bucket → ℕ) → ℕ → ℕ → Bins → ℕ
  rest w zero i f = 0
  rest w (suc n) i f = sum w (f i) + rest w n (i + 1) f

  pub sum_bins-rest :
      (w : Bucket → ℕ) (n i : ℕ) (f : Bins) → sum_bins w i f + rest w n i f ≡ sum_bins w (i + n) f
  unfolding rest
  sum_bins-rest w zero i f = let all : i + 0 ≡ i = omega arith in rw all (omega arith)
  sum_bins-rest w (suc n) i f =
      let later = sum_bins-rest w n (i + 1) f in
      let next : i + suc n ≡ i + 1 + n = omega arith in
      let plus : i + 1 ≡ suc i = omega arith in
      let one_more : sum_bins w (i + 1) f ≡ sum_bins w i f + sum w (f i) =
        rw plus (unfold sum_bins in refl) in
      rw next (omega (arith, later, one_more))

  pub rest-add :
      (w : Bucket → ℕ) (a b i : ℕ) (f : Bins)
      → rest w (a + b) i f ≡ rest w a i f + rest w b (i + a) f
  rest-add w a b i f =
      let split : i + (a + b) ≡ i + a + b = omega arith in
      let whole : sum_bins w i f + rest w (a + b) i f ≡ sum_bins w (i + a + b) f =
        sum_bins-rest w (a + b) i f ∙ ap (λ k. sum_bins w k f) split in
      omega (arith, whole, sum_bins-rest w a i f, sum_bins-rest w b (i + a) f)

  -- The same bins at another place
  pub rest-moved :
      (w : Bucket → ℕ) (n i j : ℕ) (f g : Bins)
      → ((k : ℕ) → k < n → f (i + k) ≡ g (j + k))
      → rest w n i f ≡ rest w n j g
  unfolding rest
  rest-moved w zero i j f g same = refl
  rest-moved w (suc n) i j f g same =
      let first : f i ≡ g j = ap f (omega arith) ∙ (same 0 (omega arith) ∙ ap g (omega arith)) in
      let later =
        rest-moved w n (i + 1) (j + 1) f g
          (λ k h. ap f (omega arith) ∙ (same (suc k) (omega (arith, h)) ∙ ap g (omega arith))) in
      rw (first, later)

  pub rest-empty :
      (w : Bucket → ℕ) (n i : ℕ) (f : Bins) → ((j : ℕ) → i ≤ j → f j ≡ []) → rest w n i f ≡ 0
  unfolding rest sum
  rest-empty w zero i f empty = refl
  rest-empty w (suc n) i f empty =
      rw (empty i (omega arith), rest-empty w n (i + 1) f (λ j h. empty j (omega (arith, h))))
