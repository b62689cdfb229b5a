-- ===== src/Metadata/Access.antt =====
-- The operations of the interface: add, look up, delete one, delete all.
pub mod Write
pub mod Add
pub mod Lookup
pub mod Delete
pub mod Sweep
pub mod DeleteAll
use sri_glibc_malloc.Base.{
  ℕ, ◌+◌, ◌-◌, ◌%◌, Bool, true, false, Option, none, some, List, [], ◌∷◌, ◌++◌, ltb, ◌==◌,
  if◌then◌else◌, ◌>>=◌,
}
use sri_glibc_malloc.Utils.{Mmap, u64_mod}
use sri_glibc_malloc.Memcxt.{Slot, Memcxt, element, MemType}
use sri_glibc_malloc.Memcxt.Context.{memcxt_release}
use sri_glibc_malloc.Metadata.{Bucket, Metadata, metadata_fetch_bucket, read_bin, write_bin}
use sri_glibc_malloc.Metadata.Expand.{metadata_expand_check}
use sri_glibc_malloc.Metadata.Contract.{metadata_contract_check}
use sri_glibc_malloc.Variant.{Variant}

module _ ⦃code : Variant⦄ where
  -- The new bucket goes in front.
  unfoldable pub metadata_add : Mmap → Metadata → Bucket → Option (Bool × Metadata)
  metadata_add mmap t newbucket = do
    binp ← metadata_fetch_bucket t newbucket.chunk
    let t' = write_bin t binp (newbucket ∷ read_bin t binp)
    metadata_expand_check mmap (record t' { count = (t.count + 1) % u64_mod })

  -- The walk down a bin to the first bucket with this chunk: the buckets passed, that bucket and
  -- those behind it.
  unfoldable pub find_bucket :
      ℕ → List Bucket → List Bucket → Option (List Bucket × Bucket × List Bucket)
  find_bucket chunk passed [] = none
  find_bucket chunk passed (b ∷ bs) =
      let later = find_bucket chunk (passed ++ b ∷ []) bs in
      if chunk == b.chunk then some (passed, b, bs) else later

  -- `bucketp_prev != *binp`: the bucket before is `*binp` itself for the second bucket, and also for
  -- the first, where the two pointers start.
  abbrev pub beyond_second : List Bucket → Bool
  beyond_second [] = false
  beyond_second (b ∷ []) = false
  beyond_second (b ∷ c ∷ bs) = true

  -- The result, and the move of a bucket beyond the second to the front
  abbrev pub lookup_found :
      Metadata → Slot × ℕ → Option (List Bucket × Bucket × List Bucket) → Option Bucket × Metadata
  lookup_found t binp none = (none, t)
  lookup_found t binp (some (passed, b, rest)) =
      (some b, if beyond_second passed then write_bin t binp (b ∷ passed ++ rest) else t)

  unfoldable pub metadata_lookup : Metadata → ℕ → Option (Option Bucket × Metadata)
  metadata_lookup t chunk = do
    binp ← metadata_fetch_bucket t chunk
    some (lookup_found t binp (find_bucket chunk [] (read_bin t binp)))

  -- `memcxt_release(memcxt, BUCKET, …)`
  unfoldable pub release_bucket : Metadata → Bucket → Option Metadata
  release_bucket t b = do
    m ← memcxt_release t.memcxt MemType.bucket (element b.slot)
    some (record t { memcxt = m })

  -- Unlinks and releases the bucket that was found, counts it out, and then contracts where that is
  -- due.
  abbrev pub delete_found :
      Mmap
      → Metadata
      → Slot × ℕ
      → Option (List Bucket × Bucket × List Bucket)
      → Option (Bool × Metadata)
  delete_found mmap t binp none = some (false, t)
  delete_found mmap t binp (some (passed, b, rest)) = do
    t' ← release_bucket (write_bin t binp (passed ++ rest)) b
    u ← metadata_contract_check mmap (record t' { count = (t.count + u64_mod - 1) % u64_mod })
    some (true, u)

  unfoldable pub metadata_delete : Mmap → Metadata → ℕ → Option (Bool × Metadata)
  metadata_delete mmap t chunk = do
    binp ← metadata_fetch_bucket t chunk
    delete_found mmap t binp (find_bucket chunk [] (read_bin t binp))

  -- The walk of `metadata_delete_all`: the buckets kept, those deleted, and the context after their
  -- release, one by one.
  unfoldable pub sweep : ℕ → Memcxt → List Bucket → Option (List Bucket × ℕ × Memcxt)
  sweep chunk m [] = some ([], 0, m)
  sweep chunk m (b ∷ bs) = do
    m' ← (if chunk == b.chunk then memcxt_release m MemType.bucket (element b.slot) else some m)
    (kept, n, m'') ← sweep chunk m' bs
    some (if chunk == b.chunk then (kept, n + 1, m'') else (b ∷ kept, n, m''))

  unfoldable pub metadata_delete_all : Mmap → Metadata → ℕ → Option (ℕ × Metadata)
  metadata_delete_all mmap t chunk = do
    binp ← metadata_fetch_bucket t chunk
    (kept, n, m) ← sweep chunk t.memcxt (read_bin t binp)
    let t' = record (write_bin t binp kept) {
      memcxt = m;
      count = (t.count + u64_mod - n) % u64_mod;
    }
    u ← (if ltb 0 n then metadata_contract_check mmap t' else some t')
    some (n, u)
