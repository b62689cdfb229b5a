-- ===== src/Metadata.antt =====
-- metadata.c, metadata.h and chunkinfo.h of src/sri-glibc/malloc: the table that maps a client
-- pointer to the metadata of its chunk, a linear hash table after Larson. `none` is an abort: an
-- assertion that fails, or a dereference of `NULL`. A bin is the list of the buckets that
-- `next_bucket` chains, first bucket first.
pub mod Expand
pub mod Contract
pub mod Access
pub mod Hash
pub mod Content
pub mod Store
pub mod Init
pub mod Client
pub mod Teardown
pub mod Cache
pub mod Chunk
use sri_glibc_malloc.Base.{
  ℕ, zero, suc, ◌+◌, ◌-◌, ◌*◌, ◌/◌, ◌%◌, ◌^◌, bit_and, bit_xor, Bool, true, false, ◌&&◌, not,
  Option, none, some, List, [], ◌∷◌, ltb, ◌==◌, if◌then◌else◌, ◌>>=◌, ◌>>◌, assert,
}
use sri_glibc_malloc.Utils.{u64_mod, u32_mod, is_power_of_two}
use sri_glibc_malloc.Memcxt.{Memcxt, Slot, same_slot}
use sri_glibc_malloc.Variant.{Variant}

-- SEGMENT_LENGTH and DIRECTORY_LENGTH, and the configuration of `metadata_cfg_init`
abbrev pub segment_length : ℕ
segment_length = 256

abbrev pub initial_directory_length : ℕ
initial_directory_length = 1024

abbrev pub min_load : ℕ
min_load = 2

abbrev pub bincount_max : ℕ
bincount_max = 2 ^ 32 - 1

abbrev pub directory_length_max : ℕ
directory_length_max = bincount_max / segment_length

-- `sizeof(segment_t*)`
abbrev pub pointer_size : ℕ
pointer_size = 8

unfoldable pub mod_power_of_two : ℕ → ℕ → Option ℕ
mod_power_of_two x y = do assert (is_power_of_two y); some (bit_and x ((y + u64_mod - 1) % u64_mod))

module _ ⦃code : Variant⦄ where
  -- bucket_t and lpbucket_t: where it lies in its pool, its key (`chunk` in bucket_t), and its fields
  -- but the link
  pub record Bucket : Type 0 where
    pub slot : Slot
    pub chunk : ℕ
    pub fields : code.Fields

  -- metadata_t. `entries` are the segment pointers in the directory, `none` for `NULL`, and `bins`
  -- the contents of all the segments of the context, by the segment and the index in it.
  pub record Metadata : Type 0 where
    pub memcxt : Memcxt
    pub directory : ℕ
    pub entries : ℕ → Option Slot
    pub bins : Slot → ℕ → List Bucket
    pub directory_length : ℕ
    pub directory_current : ℕ
    pub minimum : ℕ
    pub doublings : ℕ
    pub p : ℕ
    pub count : ℕ
    pub maxp : ℕ
    pub bincount : ℕ

  unfoldable pub metadata_load : Metadata → ℕ
  metadata_load t = t.count / t.bincount

  -- `l` in `metadata_bindex` is a `uint32_t`.
  unfoldable pub metadata_bindex : Metadata → ℕ → Option ℕ
  metadata_bindex t p = do
    r ← mod_power_of_two (code.hash p) t.maxp
    let l = r % u32_mod
    let next_maxp = t.maxp * 2 % u64_mod
    let wider = (do r ← mod_power_of_two (code.hash p) next_maxp; some (r % u32_mod))
    if ltb l t.p && ltb next_maxp bincount_max then wider else some l

  -- A pointer to a bin: the segment, and the index in it
  unfoldable pub bindex2bin : Metadata → ℕ → Option (Slot × ℕ)
  bindex2bin t bindex = do
    assert (ltb bindex t.bincount)
    let segindex = bindex / segment_length
    assert (ltb segindex t.directory_current)
    segptr ← t.entries segindex
    index ← mod_power_of_two bindex segment_length
    some (segptr, index)

  unfoldable pub metadata_fetch_bucket : Metadata → ℕ → Option (Slot × ℕ)
  metadata_fetch_bucket t p = do bindex ← metadata_bindex t p; bindex2bin t bindex

  -- `*binp`, and a write of it
  unfoldable pub read_bin : Metadata → Slot × ℕ → List Bucket
  read_bin t (s, i) = t.bins s i

  unfoldable pub write_bin : Metadata → Slot × ℕ → List Bucket → Metadata
  write_bin t (s, i) chain = record t {
    bins = λ s' j. if same_slot s s' && i == j then chain else t.bins s' j;
  }

  unfoldable pub bucket_length : List Bucket → ℕ
  bucket_length [] = 0
  bucket_length (b ∷ bs) = suc (bucket_length bs)
