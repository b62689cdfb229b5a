-- ===== src/Lphash/Pools.antt =====
-- The pools of src/lphash/lphash.c: memcxt.c's with 32 bit masks to a pool of buckets, and its own
-- `alloc_lpsegment`.
use sri_glibc_malloc.Base.{ℕ, ◌≡◌, refl, Bool, Option, none, some, List, ◌>>=◌, ◌&&◌}
use sri_glibc_malloc.Utils.{Mmap, null, ctz64, sri_mmap, sri_munmap}
use sri_glibc_malloc.Memcxt.{
  Memcxt, Slot, Pool, Pointer, element, to_region, to_element, MemType, directory, segment, bucket,
  sp_scale, segment_pool_size, get_free_bit, get_bit, set_bit, clear_bit, init_pool, new_pool,
  alloc, free_slot, chain_of, is_some_pool,
}
use sri_glibc_malloc.Memcxt.Context.{memcxt_allocate, memcxt_release}
use sri_glibc_malloc.Lphash.Segments.{alloc_lpsegment}
use sri_glibc_malloc.Lphash.Table.{lp_bp_scale, lpbucket_pool_size, pointer_table}

-- The same code as in memcxt.c
abbrev lpctz64 : ℕ → Option ℕ
lpctz64 = ctz64

abbrev get_free_lpbit : ℕ → Option ℕ
get_free_lpbit = get_free_bit

abbrev get_lpbit : ℕ → ℕ → Bool
get_lpbit = get_bit

abbrev set_lpbit : ℕ → ℕ → ℕ
set_lpbit = set_bit

abbrev clear_lpbit : ℕ → ℕ → ℕ
clear_lpbit = clear_bit

abbrev lpmemcxt_mmap : Mmap → ℕ → ℕ → ℕ
lpmemcxt_mmap = sri_mmap

abbrev lpmemcxt_munmap : (ℕ → ℕ → ℕ) → ℕ → ℕ → Bool
lpmemcxt_munmap = sri_munmap

abbrev init_lpbucket_pool : ℕ → Pool
init_lpbucket_pool = init_pool lp_bp_scale

abbrev init_lpsegment_pool : ℕ → Pool
init_lpsegment_pool = init_pool sp_scale

abbrev new_lpsegments : Mmap → Option Pool
new_lpsegments = new_pool sp_scale segment_pool_size

abbrev new_lpbuckets : Mmap → Option Pool
new_lpbuckets = new_pool lp_bp_scale lpbucket_pool_size

abbrev alloc_lpbucket : Mmap → List Pool → Option (Option Slot × List Pool)
alloc_lpbucket = alloc lp_bp_scale lpbucket_pool_size

abbrev free_lpbucket : List Pool → Slot → Option (List Pool)
free_lpbucket = free_slot lp_bp_scale

abbrev free_lpsegment : List Pool → Slot → Option (List Pool)
free_lpsegment = free_slot sp_scale

-- `lpmemcxt_allocate`; a directory is a region of its own, and the size of the others is fixed.
unfoldable pub lpmemcxt_allocate : Mmap → Memcxt → MemType → ℕ → ℕ → Option (Pointer × Memcxt)
lpmemcxt_allocate mmap m directory oldptr size =
    some (to_region (lpmemcxt_mmap mmap oldptr size), m)
lpmemcxt_allocate mmap m segment oldptr size = do
  r ← alloc_lpsegment mmap m.segments
  some (to_element r.0, record m { segments = r.1 })
lpmemcxt_allocate mmap m bucket oldptr size = do
  r ← alloc_lpbucket mmap m.buckets
  some (to_element r.0, record m { buckets = r.1 })

unfoldable pub lpmemcxt_release : Memcxt → MemType → Pointer → Option Memcxt
lpmemcxt_release m directory ptr = some m
lpmemcxt_release m segment (element s) = do
  pools ← free_lpsegment m.segments s
  some (record m { segments = pools })
lpmemcxt_release m bucket (element s) = do
  pools ← free_lpbucket m.buckets s
  some (record m { buckets = pools })
lpmemcxt_release m segment ptr = none
lpmemcxt_release m bucket ptr = none

unfoldable pub lpinit_pool_memcxt : Mmap → Bool × Memcxt
lpinit_pool_memcxt mmap =
    let segments = new_lpsegments mmap in
    let buckets = new_lpbuckets mmap in
    (
      is_some_pool segments && is_some_pool buckets,
      record { segments = chain_of segments; buckets = chain_of buckets },
    )

-- The two interfaces are one on the calls of the table's code: an element is asked for with no old
-- pointer.
pub lpmemcxt_allocate-memcxt_allocate :
    (mmap : Mmap) (m : Memcxt) (type : MemType) (sz : ℕ)
    → lpmemcxt_allocate mmap m type null sz ≡ memcxt_allocate mmap m type null sz
unfolding lpmemcxt_allocate memcxt_allocate
lpmemcxt_allocate-memcxt_allocate mmap m directory sz = refl
lpmemcxt_allocate-memcxt_allocate mmap m segment sz = refl
lpmemcxt_allocate-memcxt_allocate mmap m bucket sz = refl

pub lpmemcxt_release-memcxt_release :
    (m : Memcxt) (type : MemType) (ptr : Pointer)
    → lpmemcxt_release m type ptr ≡ memcxt_release m type ptr
unfolding lpmemcxt_release memcxt_release
lpmemcxt_release-memcxt_release m directory ptr = refl
lpmemcxt_release-memcxt_release m segment (element s) = refl
lpmemcxt_release-memcxt_release m segment Pointer.nowhere = refl
lpmemcxt_release-memcxt_release m segment (Pointer.region a) = refl
lpmemcxt_release-memcxt_release m bucket (element s) = refl
lpmemcxt_release-memcxt_release m bucket Pointer.nowhere = refl
lpmemcxt_release-memcxt_release m bucket (Pointer.region a) = refl
