-- ===== src/Metadata/Init/Ready.antt =====
-- The table that `init_metadata` makes.
use sri_glibc_malloc.Base.{
  ℕ, ◌<◌, ◌≡◌, refl, Bool, true, false, none, some, [], ◌==◌, arith, if◌then◌else◌, Bool-cases, inl,
  inr, Returns,
}
use sri_glibc_malloc.Utils.{Mmap, null, sri_mmap, mul_size, is_power_of_two}
use sri_glibc_malloc.Memcxt.{Memcxt, Slot, Pointer, nowhere, element, segment}
use sri_glibc_malloc.Memcxt.Context.{memcxt_allocate}
use sri_glibc_malloc.Memcxt.Laws.{
  IsMemcxt, SegmentsFresh, segment_used, bucket_used, SegmentTaken, allocate_segment_lem,
}
use sri_glibc_malloc.Metadata.{Metadata}
use sri_glibc_malloc.Metadata.Store.{IsStore, bin_at}
use sri_glibc_malloc.Metadata.Store.Table.{IsTable}
use sri_glibc_malloc.Metadata.Expand.Segments.{place_segment-IsStore, place_segment-bins}
use sri_glibc_malloc.Metadata.Init.{fill_segments, with_directory, init_metadata}
use sri_glibc_malloc.Variant.{Variant}

module _ ⦃code : Variant⦄ where
  -- The table is right and empty.
  pub record Empty (m : Memcxt) (t : Metadata) : Type 0 where
    pub table : IsTable t
    pub bins : (i : ℕ) → bin_at t i ≡ []
    pub count : t.count ≡ 0
    pub bincount : t.bincount ≡ 256
    pub used : (s : Slot) → bucket_used t.memcxt s ≡ bucket_used m s

  abbrev pub EmptyOr : Memcxt → Bool × Metadata → Type 0
  EmptyOr m (true, t) = Empty m t
  EmptyOr m (false, t) = Unit {0}

  module _ (mmap : Mmap) (t : Metadata) (is : IsMemcxt t.memcxt)
      (fresh : SegmentsFresh mmap t.memcxt)
      (clean : (s : Slot) (j : ℕ)
        → j < 256
        → segment_used t.memcxt s ≡ false
        → t.bins s j ≡ []) where
    -- The new table, with its directory but no segment yet
    abbrev start : ℕ → Metadata
    start d = record t {
      directory = d;
      entries = λ i. none;
      directory_length = 1024;
      directory_current = 0;
      minimum = 256;
      doublings = 0;
      p = 0;
      count = 0;
      maxp = 256;
      bincount = 256;
    }

    start-IsStore : (d : ℕ) → IsStore (start d)
    start-IsStore d = record {
      memcxt = is;
      filled = λ i h. absurd (omega arith);
      beyond = λ i h. refl;
      distinct = λ i j s r e e' same. cc;
      clean = clean;
      capacity = omega arith;
      length_bound = omega arith;
    }

    module _ (d : ℕ) where
      abbrev begun : Metadata
      begun = record (start d) { directory_current = 1 }

      module _ (s : Slot) (m : Memcxt) (got : SegmentTaken mmap t.memcxt (element s, m)) where
        abbrev made : Metadata
        made = record begun { memcxt = m; entries = λ i. if i == 0 then some s else none }

        no_bucket : (i : ℕ) → bin_at made i ≡ []
        unfolding bin_at
        no_bucket i =
            place_segment-bins (start d) (start-IsStore d) (omega arith) mmap fresh s m got i

        made-Empty : Empty t.memcxt made
        made-Empty = record {
          table = record {
            sized = record { small = omega arith; limit = refl; below = omega arith; bins = refl };
            store =
                place_segment-IsStore (start d) (start-IsStore d) (omega arith) mmap fresh s m got;
            current = refl;
            placed = λ i. rw (no_bucket i) tt;
          };
          bins = no_bucket;
          count = refl;
          bincount = refl;
          used = got.4;
        }

      pub filled_with :
          (r : Pointer × Memcxt)
          → memcxt_allocate mmap t.memcxt segment null 2056 ≡ some r
          → SegmentTaken mmap t.memcxt r
          → Returns (fill_segments mmap 1 begun 0) (EmptyOr t.memcxt)
      unfolding fill_segments
      filled_with (nowhere, m) run got = (
        (false, record begun { memcxt = m; entries = λ i. if i == 0 then none else none }),
        rw run,
        tt,
      )
      filled_with (Pointer.region a, m) run got = absurd got
      filled_with (element s, m) run got = ((true, made s m got), rw run, made-Empty s m got)

  -- On a right context whose free segments are clear, with pools mapped at new addresses,
  -- `init_metadata` passes its assertions. If it succeeds the table satisfies the invariant and is
  -- empty.
  pub init_metadata-EmptyOr :
      (mmap : Mmap) (t : Metadata) (m : Memcxt)
      → IsMemcxt m
      → SegmentsFresh mmap m
      → ((s : Slot) (j : ℕ) → j < 256 → segment_used m s ≡ false → t.bins s j ≡ [])
      → Returns (init_metadata mmap t m) (EmptyOr m)
  unfolding init_metadata with_directory mul_size is_power_of_two memcxt_allocate
  init_metadata-EmptyOr mmap t m is fresh clean =
      elim (Bool-cases (sri_mmap mmap null 8192 == null)) [
        | inl failed ↦ (
          (
            false,
            record t {
              memcxt = m;
              directory_length = 1024;
              directory_current = 1;
              directory = null;
            },
          ),
          rw failed,
          tt,
        )
        | inr got ↦
            let base = record t { memcxt = m } in
            let (r, run, taken) = allocate_segment_lem mmap m 2056 is fresh in
            let (r', run', e) =
              filled_with mmap base is fresh clean (sri_mmap mmap null 8192) r run taken in
            (r', rw got run', e)
      ]
