-- ===== src/Tests/Pointers.antt =====
-- Runs of src/lphash/lphash.c: the table that `init_lphash` makes, with a value inserted, and the
-- replay of a log with it.
use sri_glibc_malloc.Base.{
  ℕ, ◌≤◌, ◌≡◌, ◌≢◌, ◌∙◌, refl, sym, true, none, some, [], ◌∷◌, ◌==◌, if◌then◌else◌, replicate,
  Returns, arith, eq_of_some, inl, inr,
}
use mathlib.Core.Path.{subst}
use sri_glibc_malloc.Utils.{
  Mmap, null, sri_mmap, mul_size, is_power_of_two, jenkins_hash_ptr, ctz64, ctz_loop,
}
use sri_glibc_malloc.Memcxt.{
  Pool, Slot, segment_pool_size, sp_scale, alloc, alloc_in, init_pool, new_pool, scan_masks,
  get_free_bit, set_bit,
}
use sri_glibc_malloc.Memcxt.Context.{memcxt_allocate}
use sri_glibc_malloc.Memcxt.Chain.{IsFresh}
use sri_glibc_malloc.Memcxt.Laws.{SegmentsFresh}
use sri_glibc_malloc.Metadata.{
  Bucket, write_bin, read_bin, metadata_fetch_bucket, metadata_bindex, bindex2bin, mod_power_of_two,
  metadata_load,
}
use sri_glibc_malloc.Metadata.Init.{init_metadata, with_directory, fill_segments}
use sri_glibc_malloc.Metadata.Init.Ready.{Empty, EmptyOr}
use sri_glibc_malloc.Metadata.Expand.{metadata_expand_check}
use sri_glibc_malloc.Metadata.Expand.Correct.{CanExpand}
use sri_glibc_malloc.Metadata.Contract.Table.{CanContract}
use sri_glibc_malloc.Metadata.Client.History.{Empty-Right}
use sri_glibc_malloc.Metadata.Store.Table.{IsTable, IsCounted}
use sri_glibc_malloc.Lphash.{
  Lphash, lphash_insert, lphash_lookup, lphash_delete, init_lphash, lphash_cfg_init,
}
use sri_glibc_malloc.Lphash.Table.{pointer_table}
use sri_glibc_malloc.Lphash.Segments.{alloc_lpsegment, search_segments, alloc_lpsegment-alloc}
use sri_glibc_malloc.Lphash.Pools.{lpmemcxt_allocate, lpinit_pool_memcxt}
use sri_glibc_malloc.Lphash.Values.{values_of, is_held, lphash_lookup-top, lphash_delete-popped}
use sri_glibc_malloc.Lphash.Inserted.{InsertedValueOr, lphash_insert-InsertedValueOr}
use sri_glibc_malloc.Lphash.Init.{init_lphash-EmptyOr, init_lphash-Empty}
use sri_glibc_malloc.Replay.Table.{top, popped}

-- The two pools, and what is mapped after them
abbrev pools_mmap : Mmap
pools_mmap hint size = if size == segment_pool_size then 4194304 else 8388608

abbrev later : Mmap
later hint size = if hint == 16777216 then 33554432 else 16777216

abbrev lp_blank : Lphash
lp_blank = record {
  memcxt = record { segments = []; buckets = [] };
  directory = 0;
  entries = λ i. none;
  bins = λ s j. [];
  directory_length = 0;
  directory_current = 0;
  minimum = 0;
  doublings = 0;
  p = 0;
  count = 0;
  maxp = 0;
  bincount = 0;
}

abbrev lp_slot : Slot
lp_slot = record { pool = 4194304; index = 0 }

abbrev segments_pool : Pool
segments_pool = record {
  base = 4194304;
  bitmasks = 1 ∷ 0 ∷ 0 ∷ 0 ∷ 0 ∷ 0 ∷ 0 ∷ 0 ∷ [];
  free_count = 511;
}

abbrev lp_table : Lphash
lp_table = record {
  memcxt = record { segments = segments_pool ∷ []; buckets = init_pool 32 8388608 ∷ [] };
  directory = 16777216;
  entries = λ i. if i == 0 then some lp_slot else none;
  bins = λ s j. [];
  directory_length = 1024;
  directory_current = 1;
  minimum = 256;
  doublings = 0;
  p = 0;
  count = 0;
  maxp = 256;
  bincount = 256;
}

pools_mapped : sri_mmap pools_mmap null segment_pool_size ≢ null
unfolding sri_mmap
pools_mapped = omega arith

lp_run : init_lphash pools_mmap later lp_blank ≡ some (true, lp_table)
unfolding init_lphash lphash_cfg_init lpinit_pool_memcxt init_metadata with_directory fill_segments
    mul_size is_power_of_two memcxt_allocate alloc_lpsegment search_segments new_pool init_pool
    sri_mmap replicate scan_masks get_free_bit ctz64 ctz_loop set_bit
lp_run = refl

later-fresh : SegmentsFresh later (lpinit_pool_memcxt pools_mmap).1
unfolding lpinit_pool_memcxt new_pool sri_mmap init_pool
later-fresh = (refl, tt)

init_lphash-EmptyOr_example :
    Returns (init_lphash pools_mmap later lp_blank) (EmptyOr (lpinit_pool_memcxt pools_mmap).1)
init_lphash-EmptyOr_example =
    init_lphash-EmptyOr pools_mmap later lp_blank pools_mapped later-fresh (λ s j. refl)

lp_table-Empty : Empty (lpinit_pool_memcxt pools_mmap).1 lp_table
lp_table-Empty =
    init_lphash-Empty pools_mmap later lp_blank lp_table pools_mapped later-fresh (λ s j. refl)
      lp_run

lp_table-IsCounted : IsCounted lp_table
lp_table-IsCounted = (Empty-Right (lpinit_pool_memcxt pools_mmap).1 lp_table lp_table-Empty).1

lp_table-CanExpand : CanExpand later lp_table
unfolding sri_mmap
lp_table-CanExpand = record { fresh = (refl, tt); apart = λ sz. ground arith; few = omega arith }

later-BucketsFresh : IsFresh (sri_mmap later null 65808) lp_table.memcxt.buckets
unfolding sri_mmap init_pool
later-BucketsFresh = (refl, tt)

lphash_insert-InsertedValueOr_example :
    Returns (lphash_insert later lp_table 65536 99) (InsertedValueOr later lp_table 65536 99)
lphash_insert-InsertedValueOr_example =
    lphash_insert-InsertedValueOr later lp_table lp_table-Empty.table lp_table-IsCounted
      lp_table-CanExpand later-BucketsFresh (omega arith) 65536 99

abbrev lp_bucket : Bucket
lp_bucket = record {
  slot = record { pool = 8388608; index = 0 };
  chunk = 65536;
  fields = record { value = 99 };
}

abbrev buckets_pool : Pool
buckets_pool = record { base = 8388608; bitmasks = 1 ∷ replicate 31 0; free_count = 2047 }

abbrev lp_held : Lphash
lp_held =
    let t = write_bin lp_table (lp_slot, 41) (lp_bucket ∷ []) in
    record t {
      memcxt = record { segments = segments_pool ∷ []; buckets = buckets_pool ∷ [] };
      count = 1;
    }

held_run : lphash_insert later lp_table 65536 99 ≡ some (true, lp_held)
unfolding lphash_insert lpmemcxt_allocate alloc alloc_in new_pool init_pool sri_mmap replicate
    metadata_fetch_bucket metadata_bindex bindex2bin jenkins_hash_ptr mod_power_of_two write_bin
    metadata_expand_check is_power_of_two metadata_load read_bin scan_masks get_free_bit ctz64
    ctz_loop set_bit
held_run = refl

Right_of :
    (t' : Lphash) → InsertedValueOr later lp_table 65536 99 (true, t') → IsTable t' × IsCounted t'
Right_of t' (inl (failed, same, refused)) = absurd (ground (arith, failed))
Right_of t' (inr (i, same, step)) = (i.table, i.books)

lp_held-Right : IsTable lp_held × IsCounted lp_held
lp_held-Right =
    let (r, run, post) = lphash_insert-InsertedValueOr_example in
    let same : r ≡ (true, lp_held) = eq_of_some r (true, lp_held) (sym run ∙ held_run) in
    Right_of lp_held (subst (InsertedValueOr later lp_table 65536 99) same post)

lphash_lookup-top_example : lphash_lookup lp_held 65536 ≡ some (top (values_of lp_held 65536))
lphash_lookup-top_example = lphash_lookup-top lp_held 65536 lp_held-Right.0

lp_held-CanContract : CanContract later lp_held
unfolding sri_mmap
lp_held-CanContract = record { apart = λ sz. ground arith; mapped = λ sz. ground arith }

lphash_delete-popped_example : Returns (lphash_delete later lp_held 65536) (λ r.
    IsTable r.1
    × IsCounted r.1
    × (r.0 ≡ is_held (values_of lp_held 65536))
    × ((j : ℕ) → values_of r.1 j ≡ popped (values_of lp_held) 65536 j)
    × (r.1.bincount ≤ lp_held.bincount)
    × (r.1.count ≤ lp_held.count))
lphash_delete-popped_example =
    lphash_delete-popped later lp_held 65536 lp_held-Right.0 lp_held-Right.1 lp_held-CanContract

alloc_lpsegment-alloc_example :
    alloc_lpsegment later (segments_pool ∷ [])
    ≡ alloc sp_scale segment_pool_size later (segments_pool ∷ [])
alloc_lpsegment-alloc_example =
    alloc_lpsegment-alloc later (segments_pool ∷ []) lp_table-Empty.table.store.memcxt.segments refl
