-- ===== src/Metadata/Teardown/Chains.antt =====
-- The release of the buckets of a bin, and of those of a segment.
use sri_glibc_malloc.Base.{
  ℕ, zero, suc, ◌+◌, ◌≡◌, refl, ◌∙◌, ◌&&◌, List, [], ◌∷◌, arith, ◌==◌, Returns,
}
use sri_glibc_malloc.Memcxt.{Memcxt, Slot}
use sri_glibc_malloc.Memcxt.Laws.{IsMemcxt, bucket_used, segment_used}
use sri_glibc_malloc.Metadata.{Bucket, Metadata}
use sri_glibc_malloc.Metadata.Content.{sum}
use sri_glibc_malloc.Metadata.Store.Live.{Live, at_slot, release-Live}
use sri_glibc_malloc.Metadata.Teardown.{release_chain, release_bins}
use sri_glibc_malloc.Metadata.Teardown.Sums.{rest}
use sri_glibc_malloc.Variant.{Variant}

module _ ⦃code : Variant⦄ where
  -- The buckets that `taken` counts are free in `m'`.
  pub record Torn (m : Memcxt) (taken : Slot → ℕ) (m' : Memcxt) : Type 0 where
    pub memcxt : IsMemcxt m'
    pub buckets : (s : Slot) → bucket_used m' s ≡ (bucket_used m s && (taken s == 0))
    pub segments : (s : Slot) → segment_used m' s ≡ segment_used m s

  release_chain-Torn :
      (m : Memcxt) (bs : List Bucket) (n : Slot → ℕ)
      → IsMemcxt m
      → Live m (λ s. sum (at_slot s) bs + n s)
      → Returns (release_chain m bs) (λ m'. Torn m (λ s. sum (at_slot s) bs) m' × Live m' n)
  unfolding release_chain sum
  release_chain-Torn m [] n is live = (
    m,
    refl,
    (
      record { memcxt = is; buckets = λ s. ground arith; segments = λ s. refl },
      λ s. omega (arith, live s),
    ),
  )
  release_chain-Torn m (b ∷ bs) n is live =
      let (m', run, (gone, live')) =
        release-Live m b (λ s. sum (at_slot s) bs + n s) is (λ s. omega (arith, live s)) in
      let (m'', run', (torn, live'')) = release_chain-Torn m' bs n gone.memcxt live' in
      (
        m'',
        rw (run, run'),
        (
          record {
            memcxt = torn.memcxt;
            buckets = λ s. ground (arith, torn.buckets s, gone.buckets s);
            segments = λ s. torn.segments s ∙ gone.segments s;
          },
          live'',
        ),
      )

  module _ (t : Metadata) where
    pub release_bins-Torn :
        (r : Slot) (count index : ℕ) (m : Memcxt) (n : Slot → ℕ)
        → IsMemcxt m
        → Live m (λ s. rest (at_slot s) count index (t.bins r) + n s)
        → Returns
            (release_bins t r count index m)
            (λ m'. Torn m (λ s. rest (at_slot s) count index (t.bins r)) m' × Live m' n)
    unfolding release_bins rest
    release_bins-Torn r zero index m n is live = (
      m,
      refl,
      (
        record { memcxt = is; buckets = λ s. ground arith; segments = λ s. refl },
        λ s. omega (arith, live s),
      ),
    )
    release_bins-Torn r (suc count) index m n is live =
        let (m', run, (torn, live')) =
          release_chain-Torn m (t.bins r index)
            (λ s. rest (at_slot s) count (index + 1) (t.bins r) + n s) is
            (λ s. omega (arith, live s)) in
        let (m'', run', (torn', live'')) =
          release_bins-Torn r count (index + 1) m' n torn.memcxt live' in
        (
          m'',
          rw (run, run'),
          (
            record {
              memcxt = torn'.memcxt;
              buckets = λ s. ground (arith, torn'.buckets s, torn.buckets s);
              segments = λ s. torn'.segments s ∙ torn.segments s;
            },
            live'',
          ),
        )
