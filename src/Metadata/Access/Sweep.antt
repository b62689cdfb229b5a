-- ===== src/Metadata/Access/Sweep.antt =====
-- The walk of `metadata_delete_all` down a bin.
use sri_glibc_malloc.Base.{
  ℕ, ◌+◌, ◌≡◌, inl, inr, refl, ap, ◌∙◌, Bool, true, false, ◌&&◌, not, some, List, [], ◌∷◌, arith,
  ◌==◌, keep, if◌then◌else◌, Bool-cases, All,
}
use sri_glibc_malloc.Memcxt.{Memcxt, Slot, same_slot}
use sri_glibc_malloc.Memcxt.Laws.{IsMemcxt, bucket_used, segment_used}
use sri_glibc_malloc.Metadata.{Bucket}
use sri_glibc_malloc.Metadata.Content.{of_chunk, sum}
use sri_glibc_malloc.Metadata.Store.Live.{Live, at_slot, one, release-Live}
use sri_glibc_malloc.Metadata.Access.{sweep}
use sri_glibc_malloc.Variant.{Variant}

module _ ⦃code : Variant⦄ where
  -- The buckets of the other chunks
  abbrev pub others : ℕ → List Bucket → List Bucket
  others k bs = keep (λ b. not (k == b.chunk)) bs

  pub of_chunk-others :
      (k j : ℕ) (bs : List Bucket)
      → of_chunk j (others k bs) ≡ (if k == j then [] else of_chunk j bs)
  unfolding keep
  of_chunk-others k j [] = ground arith
  of_chunk-others k j (b ∷ bs) = ground (arith, of_chunk-others k j bs)

  pub sum-others :
      (w : Bucket → ℕ) (k : ℕ) (bs : List Bucket)
      → sum w (others k bs) + sum w (of_chunk k bs) ≡ sum w bs
  unfolding keep sum
  sum-others w k [] = refl
  sum-others w k (b ∷ bs) = ground (arith, sum-others w k bs)

  pub All-others : (p : Bucket → Bool) (k : ℕ) (bs : List Bucket) → All p bs → All p (others k bs)
  unfolding keep
  All-others p k [] a = tt
  All-others p k (b ∷ bs) a = elim (Bool-cases (k == b.chunk)) [
    | inl e ↦ rw e (All-others p k bs a.1)
    | inr e ↦ rw e (a.0, All-others p k bs a.1)
  ]

  -- What the walk leaves: the context without the buckets of the chunk, in which the other buckets of
  -- the bin and those held elsewhere, `n`, are live.
  pub record Swept (k : ℕ) (m : Memcxt) (bs : List Bucket) (n : Slot → ℕ) (m' : Memcxt)
      : Type 0 where
    pub memcxt : IsMemcxt m'
    pub live : Live m' (λ s. sum (at_slot s) (others k bs) + n s)
    pub segments : (s : Slot) → segment_used m' s ≡ segment_used m s
    pub buckets :
        (s : Slot) → bucket_used m' s ≡ (bucket_used m s && (sum (at_slot s) (of_chunk k bs) == 0))

  module _ (k : ℕ) where
    released-Swept :
        (m m' m'' : Memcxt) (b : Bucket) (bs : List Bucket) (n : Slot → ℕ)
        → (k == b.chunk) ≡ true
        → ((s : Slot) → bucket_used m' s ≡ (bucket_used m s && not (same_slot s b.slot)))
        → ((s : Slot) → segment_used m' s ≡ segment_used m s)
        → Swept k m' bs n m''
        → Swept k m (b ∷ bs) n m''
    unfolding keep sum
    released-Swept m m' m'' b bs n e gone same later = record {
      memcxt = later.memcxt;
      live = rw e later.live;
      segments = λ s. later.segments s ∙ same s;
      buckets = λ s. ground (arith, later.buckets s, gone s);
    }

    passed-Swept :
        (m m' : Memcxt) (b : Bucket) (bs : List Bucket) (n : Slot → ℕ)
        → (k == b.chunk) ≡ false
        → Swept k m bs (λ s. at_slot s b + n s) m'
        → Swept k m (b ∷ bs) n m'
    unfolding keep sum
    passed-Swept m m' b bs n e later = record {
      memcxt = later.memcxt;
      live = λ s. ground (arith, later.live s);
      segments = later.segments;
      buckets = λ s. ground (arith, later.buckets s);
    }

    -- If the buckets of the bin are live, the walk passes the assertions of the pools. It keeps the
    -- others, and counts those that it deletes.
    pub sweep-Swept :
        (m : Memcxt) (bs : List Bucket) (n : Slot → ℕ)
        → IsMemcxt m
        → Live m (λ s. sum (at_slot s) bs + n s)
        → (m' : Memcxt) × (sweep k m bs ≡ some (others k bs, sum one (of_chunk k bs), m'))
          × Swept k m bs n m'
    unfolding sweep keep sum
    sweep-Swept m [] n is live = (
      m,
      refl,
      record { memcxt = is; live = live; segments = λ s. refl; buckets = λ s. ground arith },
    )
    sweep-Swept m (b ∷ bs) n is live = elim (Bool-cases (k == b.chunk)) [
      | inl e ↦
          let (m', run, (gone, live')) =
            release-Live m b (λ s. sum (at_slot s) bs + n s) is (λ s. omega (arith, live s)) in
          let (m'', run', later) = sweep-Swept m' bs n gone.memcxt live' in
          let here : (b.chunk == k) ≡ true = ground arith in
          (
            m'',
            rw (e, here, run, run') (ap (λ c. some (others k bs, c, m'')) (omega arith)),
            released-Swept m m' m'' b bs n e gone.buckets gone.segments later,
          )
      | inr e ↦
          let (m', run, later) =
            sweep-Swept m bs (λ s. at_slot s b + n s) is (λ s. omega (arith, live s)) in
          let here : (b.chunk == k) ≡ false = ground arith in
          (m', rw (e, here, run), passed-Swept m m' b bs n e later)
    ]
