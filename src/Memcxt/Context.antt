-- ===== src/Memcxt/Context.antt =====
-- The context of memcxt.c and of src/lphash/lphash.c: its interface, and how it begins.
use sri_glibc_malloc.Base.{ℕ, Bool, ◌&&◌, Option, none, some, ◌==◌, ◌>>=◌, ◌>>◌, assert}
use sri_glibc_malloc.Utils.{Mmap, null, sri_mmap}
use sri_glibc_malloc.Memcxt.{
  Memcxt, MemType, directory, segment, bucket, Pointer, element, to_region, to_element, alloc,
  free_slot, new_pool, sp_scale, segment_pool_size, chain_of, is_some_pool,
}
use sri_glibc_malloc.Variant.{Variant}

module _ ⦃code : Variant⦄ where
  -- `memcxt_allocate`; the size of a segment or of a bucket is fixed.
  unfoldable pub memcxt_allocate : Mmap → Memcxt → MemType → ℕ → ℕ → Option (Pointer × Memcxt)
  memcxt_allocate mmap m directory oldptr sz = some (to_region (sri_mmap mmap oldptr sz), m)
  memcxt_allocate mmap m segment oldptr sz = do
    assert (oldptr == null)
    r ← code.alloc_segment mmap m.segments
    some (to_element r.0, record m { segments = r.1 })
  memcxt_allocate mmap m bucket oldptr sz = do
    assert (oldptr == null)
    r ← alloc code.bp_scale code.bucket_pool_size mmap m.buckets
    some (to_element r.0, record m { buckets = r.1 })

  -- `memcxt_release`; a directory goes back to the system, and `free_bucket` of no bucket is an
  -- abort.
  unfoldable pub memcxt_release : Memcxt → MemType → Pointer → Option Memcxt
  memcxt_release m directory ptr = some m
  memcxt_release m segment (element s) = do
    pools ← free_slot sp_scale m.segments s
    some (record m { segments = pools })
  memcxt_release m bucket (element s) = do
    pools ← free_slot code.bp_scale m.buckets s
    some (record m { buckets = pools })
  memcxt_release m segment ptr = none
  memcxt_release m bucket ptr = none

  -- `init_memcxt` on a context that exists
  unfoldable pub init_memcxt : Mmap → Bool × Memcxt
  init_memcxt mmap =
      let segments = new_pool sp_scale segment_pool_size mmap in
      let buckets = new_pool code.bp_scale code.bucket_pool_size mmap in
      (
        is_some_pool segments && is_some_pool buckets,
        record { segments = chain_of segments; buckets = chain_of buckets },
      )
