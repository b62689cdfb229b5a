-- ===== src/Metadata/Teardown.antt =====
-- `delete_metadata`: every bucket and every segment of the directory goes back to the context.
pub mod Sums
pub mod Chains
pub mod Released
use sri_glibc_malloc.Base.{ℕ, zero, suc, ◌+◌, Option, some, List, [], ◌∷◌, ◌>>=◌, ◌>>◌, assert}
use sri_glibc_malloc.Utils.{mul_size}
use sri_glibc_malloc.Memcxt.{Memcxt, Slot, element, MemType}
use sri_glibc_malloc.Memcxt.Context.{memcxt_release}
use sri_glibc_malloc.Metadata.{Bucket, Metadata, segment_length, pointer_size}
use sri_glibc_malloc.Variant.{Variant}

module _ ⦃code : Variant⦄ where
  -- "cdr down the segment and release the linked list of buckets": one list
  unfoldable pub release_chain : Memcxt → List Bucket → Option Memcxt
  release_chain m [] = some m
  release_chain m (b ∷ bs) = do
    m' ← memcxt_release m MemType.bucket (element b.slot)
    release_chain m' bs

  -- The `n` bins of a segment from `index` on
  unfoldable pub release_bins : Metadata → Slot → ℕ → ℕ → Memcxt → Option Memcxt
  release_bins t s zero index m = some m
  release_bins t s (suc n) index m = do
    m' ← release_chain m (t.bins s index)
    release_bins t s n (index + 1) m'

  -- The `n` segments from `segindex` on
  unfoldable pub release_segments : Metadata → ℕ → ℕ → Memcxt → Option Memcxt
  release_segments t zero segindex m = some m
  release_segments t (suc n) segindex m = do
    s ← t.entries segindex
    m' ← release_bins t s segment_length 0 m
    m'' ← memcxt_release m' MemType.segment (element s)
    release_segments t n (segindex + 1) m''

  -- The result is the context: the table is gone.
  unfoldable pub delete_metadata : Metadata → Option Memcxt
  delete_metadata t = do
    m ← release_segments t t.directory_current 0 t.memcxt
    assert (mul_size t.directory_length pointer_size).0
    some m
