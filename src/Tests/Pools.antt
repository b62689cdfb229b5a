-- ===== src/Tests/Pools.antt =====
-- Runs of the pools of memcxt.c.
use sri_glibc_malloc.Base.{◌≡◌, ◌==◌, true, false, refl, Returns, [], ◌∷◌, arith}
use sri_glibc_malloc.Memcxt.{alloc, free_slot, segment_pool_size}
use sri_glibc_malloc.Memcxt.Slots.{in_masks}
use sri_glibc_malloc.Memcxt.Chain.{
  in_use, IsChain, AllocatedOr, alloc-AllocatedOr, Freed, free_slot-Freed,
}
use sri_glibc_malloc.Utils.{sri_mmap}
use sri_glibc_malloc.Metadata.Chunk.{chunk_table}
use sri_glibc_malloc.Tests.{first_pool, first_slot, first_table-IsTable, later_mmap}

pools-IsChain : IsChain 8 (first_pool ∷ [])
pools-IsChain = first_table-IsTable.store.memcxt.segments

later-fresh : (first_pool.base == sri_mmap later_mmap 0 segment_pool_size) ≡ false
unfolding sri_mmap
later-fresh = refl

alloc-AllocatedOr_example : Returns (alloc 8 segment_pool_size later_mmap (first_pool ∷ [])) (
    AllocatedOr 8 segment_pool_size later_mmap
      (first_pool ∷ [])
      pools-IsChain
      (omega arith)
      (later-fresh, tt))
alloc-AllocatedOr_example =
    alloc-AllocatedOr 8 segment_pool_size later_mmap (first_pool ∷ []) pools-IsChain (omega arith)
      (later-fresh, tt)

first_slot_used : in_use (first_pool ∷ []) first_slot ≡ true
unfolding in_use in_masks
first_slot_used = refl

free_slot-Freed_example :
    Returns (free_slot 8 (first_pool ∷ []) first_slot) (Freed 8 (first_pool ∷ []) first_slot)
free_slot-Freed_example =
    free_slot-Freed 8 (first_pool ∷ []) first_slot pools-IsChain (omega arith) first_slot_used
