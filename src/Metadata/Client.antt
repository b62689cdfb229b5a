-- ===== src/Metadata/Client.antt =====
-- The inline functions of metadata.h in src/sri-glibc/malloc, which malloc.c calls.
pub mod Allocated
pub mod Inserted
pub mod RoundTrip
pub mod History
use sri_glibc_malloc.Base.{ℕ, Bool, false, Option, none, some, ◌>>=◌}
use sri_glibc_malloc.Utils.{Mmap, null}
use sri_glibc_malloc.Memcxt.{Pointer, element, MemType}
use sri_glibc_malloc.Memcxt.Context.{memcxt_allocate}
use sri_glibc_malloc.Metadata.{Bucket, Metadata}
use sri_glibc_malloc.Metadata.Access.{metadata_add, metadata_delete, release_bucket}
use sri_glibc_malloc.Variant.{Variant}

module _ ⦃code : Variant⦄ where
  -- The fields of a bucket that has been allocated
  abbrev pub new_bucket : Pointer → Option Bucket
  new_bucket (element s) = some (record { slot = s; chunk = null; fields = code.blank })
  new_bucket ptr = none

  unfoldable pub allocate_chunkinfoptr : Mmap → Metadata → Option (Option Bucket × Metadata)
  allocate_chunkinfoptr mmap t = do
    (ptr, m) ← memcxt_allocate mmap t.memcxt MemType.bucket null 88
    some (new_bucket ptr, record t { memcxt = m })

  unfoldable pub release_chunkinfoptr : Metadata → Bucket → Option Metadata
  release_chunkinfoptr t b = release_bucket t b

  unfoldable pub metadata_insert : Mmap → Metadata → Bucket → Bucket → Option (Bool × Metadata)
  metadata_insert mmap t ci_orig ci_insert = metadata_add mmap t ci_insert

  unfoldable pub metadata_skiprm : Mmap → Metadata → Bucket → Bucket → Option (Bool × Metadata)
  metadata_skiprm mmap t ci_orig ci_todelete = metadata_delete mmap t ci_todelete.chunk

  abbrev pub insert_new : Mmap → Metadata → ℕ → Option Bucket → Option (Bool × Metadata)
  insert_new mmap t chunk none = some (false, t)
  insert_new mmap t chunk (some b) = metadata_add mmap t (record b { chunk = chunk })

  unfoldable pub metadata_insert_chunk : Mmap → Metadata → ℕ → Option (Bool × Metadata)
  metadata_insert_chunk mmap t chunk = do
    (newb, t') ← allocate_chunkinfoptr mmap t
    insert_new mmap t' chunk newb
