-- ===== src/Memcxt/Laws.antt =====
-- The context as its clients see it: which segments and buckets are in use.
use sri_glibc_malloc.Base.{
  List, [], ◌∷◌, ℕ, ◌*◌, ◌<◌, ◌≡◌, refl, Bool, true, false, ◌&&◌, ◌||◌, not, none, some, Returns,
  arith,
}
use sri_glibc_malloc.Utils.{Mmap, null, sri_mmap}
use sri_glibc_malloc.Memcxt.{
  Pool, Memcxt, Slot, same_slot, Pointer, nowhere, element, segment, bucket, sp_scale,
  segment_pool_size, alloc,
}
use sri_glibc_malloc.Memcxt.Context.{memcxt_allocate, memcxt_release}
use sri_glibc_malloc.Memcxt.Chain.{
  in_use, bases, IsChain, IsFresh, alloc-AllocatedOr, AllocatedOr, free_slot-Freed,
}
use sri_glibc_malloc.Variant.{Variant, is_nil}

unfoldable pub segment_used : Memcxt → Slot → Bool
segment_used m s = in_use m.segments s

unfoldable pub bucket_used : Memcxt → Slot → Bool
bucket_used m s = in_use m.buckets s

-- The system has refused a mapping.
abbrev pub Refused : Mmap → Type 0
Refused mmap = (hint : ℕ) × (sz : ℕ) × (sri_mmap mmap hint sz ≡ null)

ready-used :
    (wants : Bool) (ps : List Pool) (s : Slot) → in_use ps s ≡ true → (wants && is_nil ps) ≡ false
unfolding in_use
ready-used wants [] s used = cc
ready-used wants (p ∷ ps) s used = ground arith

ready-bases :
    (wants : Bool) (ps qs : List Pool)
    → bases ps ≡ bases qs
    → (wants && is_nil ps) ≡ false
    → (wants && is_nil qs) ≡ false
ready-bases wants [] [] same ready = ready
ready-bases wants [] (q ∷ qs) same ready = cc
ready-bases wants (p ∷ ps) [] same ready = cc
ready-bases wants (p ∷ ps) (q ∷ qs) same ready = ready

module _ ⦃code : Variant⦄ where
  -- The pools are right, and there is one of segments where the code asserts that.
  pub record IsMemcxt (m : Memcxt) : Type 0 where
    pub segments : IsChain sp_scale m.segments
    pub ready : (code.wants_pool && is_nil m.segments) ≡ false
    pub buckets : IsChain code.bp_scale m.buckets

  -- What the system answers for a pool of segments, or of buckets, is the address of no such pool.
  abbrev pub SegmentsFresh : Mmap → Memcxt → Type 0
  SegmentsFresh mmap m = IsFresh (sri_mmap mmap null segment_pool_size) m.segments

  abbrev pub BucketsFresh : Mmap → Memcxt → Type 0
  BucketsFresh mmap m = IsFresh (sri_mmap mmap null code.bucket_pool_size) m.buckets

  -- The outcome of allocating a segment
  abbrev pub SegmentTaken : Mmap → Memcxt → Pointer × Memcxt → Type 0
  SegmentTaken mmap m (nowhere, m') = (m' ≡ m) × Refused mmap
  SegmentTaken mmap m (element s, m') =
      IsMemcxt m'
      × (segment_used m s ≡ false)
      × (s.index < 64 * sp_scale)
      × ((t : Slot) → segment_used m' t ≡ (same_slot t s || segment_used m t))
      × ((t : Slot) → bucket_used m' t ≡ bucket_used m t)
  SegmentTaken mmap m (Pointer.region a, m') = ⊥

  pub allocate_segment_lem :
      (mmap : Mmap) (m : Memcxt) (sz : ℕ)
      → IsMemcxt m
      → SegmentsFresh mmap m
      → Returns (memcxt_allocate mmap m segment null sz) (SegmentTaken mmap m)
  unfolding memcxt_allocate segment_used bucket_used
  allocate_segment_lem mmap m sz is fresh =
      go (
        alloc-AllocatedOr sp_scale segment_pool_size mmap m.segments is.segments (omega arith)
          fresh)
    where
      go :
          Returns
            (alloc sp_scale segment_pool_size mmap m.segments)
            (AllocatedOr sp_scale segment_pool_size mmap m.segments is.segments (omega arith) fresh)
          → Returns (memcxt_allocate mmap m segment null sz) (SegmentTaken mmap m)
      go ((none, ps'), run, a) = (
        (nowhere, record m { segments = ps' }),
        rw (code.alloc_segment_lem mmap m.segments is.segments is.ready, run),
        (rw a.0, (null, segment_pool_size, a.2)),
      )
      go ((some s, ps'), run, a) = (
        (element s, record m { segments = ps' }),
        rw (code.alloc_segment_lem mmap m.segments is.segments is.ready, run),
        (
          record {
            segments = a.chain;
            ready = ready-used code.wants_pool ps' s (ground (arith, a.reads s));
            buckets = is.buckets;
          },
          a.was_free,
          a.in_range,
          a.reads,
          λ t. refl,
        ),
      )

  -- The outcome of allocating a bucket
  abbrev pub BucketTaken : Mmap → Memcxt → Pointer × Memcxt → Type 0
  BucketTaken mmap m (nowhere, m') = (m' ≡ m) × Refused mmap
  BucketTaken mmap m (element s, m') =
      IsMemcxt m'
      × (bucket_used m s ≡ false)
      × (s.index < 64 * code.bp_scale)
      × ((t : Slot) → bucket_used m' t ≡ (same_slot t s || bucket_used m t))
      × ((t : Slot) → segment_used m' t ≡ segment_used m t)
      × (m'.segments ≡ m.segments)
  BucketTaken mmap m (Pointer.region a, m') = ⊥

  pub allocate_bucket_lem :
      (mmap : Mmap) (m : Memcxt) (sz : ℕ)
      → IsMemcxt m
      → BucketsFresh mmap m
      → Returns (memcxt_allocate mmap m bucket null sz) (BucketTaken mmap m)
  unfolding memcxt_allocate segment_used bucket_used
  allocate_bucket_lem mmap m sz is fresh = go (
      alloc-AllocatedOr code.bp_scale code.bucket_pool_size mmap m.buckets is.buckets (omega arith)
        fresh)
    where
      go :
          Returns (alloc code.bp_scale code.bucket_pool_size mmap m.buckets) (
            AllocatedOr code.bp_scale code.bucket_pool_size mmap m.buckets is.buckets
              (omega arith)
              fresh)
          → Returns (memcxt_allocate mmap m bucket null sz) (BucketTaken mmap m)
      go ((none, ps'), run, a) = (
        (nowhere, record m { buckets = ps' }),
        rw run,
        (rw a.0, (null, code.bucket_pool_size, a.2)),
      )
      go ((some s, ps'), run, a) = (
        (element s, record m { buckets = ps' }),
        rw run,
        (
          record { segments = is.segments; ready = is.ready; buckets = a.chain },
          a.was_free,
          a.in_range,
          a.reads,
          λ t. refl,
          refl,
        ),
      )

  -- The outcome of releasing a segment or a bucket that is in use
  pub release_segment_lem :
      (m : Memcxt) (s : Slot)
      → IsMemcxt m
      → s.index < 64 * sp_scale
      → segment_used m s ≡ true
      → Returns (memcxt_release m segment (element s)) (λ m'.
        IsMemcxt m'
        × ((t : Slot) → segment_used m' t ≡ (segment_used m t && not (same_slot t s)))
        × ((t : Slot) → bucket_used m' t ≡ bucket_used m t))
  unfolding memcxt_release segment_used bucket_used
  release_segment_lem m s is h used =
      let (ps, run, f) = free_slot-Freed sp_scale m.segments s is.segments h used in
      (
        record m { segments = ps },
        rw run,
        (
          record {
            segments = f.chain;
            ready = ready-bases code.wants_pool m.segments ps f.same_bases is.ready;
            buckets = is.buckets;
          },
          f.reads,
          λ t. refl,
        ),
      )

  pub release_bucket_lem :
      (m : Memcxt) (s : Slot)
      → IsMemcxt m
      → s.index < 64 * code.bp_scale
      → bucket_used m s ≡ true
      → Returns (memcxt_release m bucket (element s)) (λ m'.
        IsMemcxt m'
        × ((t : Slot) → bucket_used m' t ≡ (bucket_used m t && not (same_slot t s)))
        × ((t : Slot) → segment_used m' t ≡ segment_used m t))
  unfolding memcxt_release segment_used bucket_used
  release_bucket_lem m s is h used =
      let (ps, run, f) = free_slot-Freed code.bp_scale m.buckets s is.buckets h used in
      (
        record m { buckets = ps },
        rw run,
        (
          record { segments = is.segments; ready = is.ready; buckets = f.chain },
          f.reads,
          λ t. refl,
        ),
      )
