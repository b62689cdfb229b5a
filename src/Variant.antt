-- ===== src/Variant.antt =====
-- What distinguishes the linear hash table of src/sri-glibc/malloc/metadata.c from its copy in
-- src/lphash/lphash.c: apart from these constants, the fields of a bucket and the hash, the two
-- files expand, contract and address their tables with the same code.
use sri_glibc_malloc.Base.{ℕ, ◌<◌, ◌≡◌, Bool, true, false, ◌&&◌, Option, List, [], ◌∷◌}
use sri_glibc_malloc.Utils.{Mmap}
use sri_glibc_malloc.Memcxt.{Pool, Slot, sp_scale, segment_pool_size, alloc}
use sri_glibc_malloc.Memcxt.Chain.{IsChain}

abbrev pub is_nil : List Pool → Bool
is_nil [] = true
is_nil (p ∷ ps) = false

pub record Variant : Type 1 where
  -- The fields of a bucket besides its key and its links, and what a fresh bucket has there
  pub Fields : Type 0
  pub blank : Fields
  -- The hash of a key, a `uint32_t`
  pub hash : ℕ → ℕ
  pub max_load : ℕ
  -- BP_SCALE, and `sizeof` of a pool of buckets
  pub bp_scale : ℕ
  pub bucket_pool_size : ℕ
  pub bp_scale_pos : 0 < bp_scale
  -- `alloc_segment` and `alloc_lpsegment`, and whether it asserts that there is a pool
  pub alloc_segment : Mmap → List Pool → Option (Option Slot × List Pool)
  pub wants_pool : Bool
  pub alloc_segment_lem :
      (mmap : Mmap) (ps : List Pool)
      → IsChain sp_scale ps
      → (wants_pool && is_nil ps) ≡ false
      → alloc_segment mmap ps ≡ alloc sp_scale segment_pool_size mmap ps
