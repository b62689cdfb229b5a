-- ===== src/Memcxt/Teardown.antt =====
-- `delete_memcxt`: every pool goes back to the system.
use sri_glibc_malloc.Base.{ℕ, List, [], ◌∷◌, ◌++◌}
use sri_glibc_malloc.Memcxt.{Memcxt, Pool, segment_pool_size}
use sri_glibc_malloc.Variant.{Variant}

module _ ⦃code : Variant⦄ where
  -- The calls of `sri_munmap` for a chain of pools of `size` bytes: address and size
  unfoldable pub unmap_pools : ℕ → List Pool → List (ℕ × ℕ)
  unmap_pools size [] = []
  unmap_pools size (p ∷ ps) = (p.base, size) ∷ unmap_pools size ps

  unfoldable pub delete_memcxt : Memcxt → List (ℕ × ℕ) × Memcxt
  delete_memcxt m = (
    unmap_pools segment_pool_size m.segments ++ unmap_pools code.bucket_pool_size m.buckets,
    record { segments = []; buckets = [] },
  )
