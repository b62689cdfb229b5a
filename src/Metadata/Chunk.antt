-- ===== src/Metadata/Chunk.antt =====
-- The table of metadata.c as a variant: what it is compiled with, and bucket_t of chunkinfo.h.
use sri_glibc_malloc.Base.{ℕ, ◌*◌, ◌/◌, ◌%◌, ◌^◌, ◌<◌, bit_xor, arith, refl, false}
use sri_glibc_malloc.Utils.{u64_mod, u32_mod}
use sri_glibc_malloc.Memcxt.{bp_scale, bucket_pool_size, sp_scale, segment_pool_size, alloc}
use sri_glibc_malloc.Variant.{Variant}

-- The fields of bucket_t but `chunk` and the link
pub record ChunkFields : Type 0 where
  pub prev_size : ℕ
  pub size : ℕ
  pub fd : ℕ
  pub bk : ℕ
  pub fd_nextsize : ℕ
  pub bk_nextsize : ℕ
  pub md_next : ℕ
  pub md_prev : ℕ

-- What is mapped anew is zero.
abbrev pub blank_fields : ChunkFields
blank_fields = record {
  prev_size = 0;
  size = 0;
  fd = 0;
  bk = 0;
  fd_nextsize = 0;
  bk_nextsize = 0;
  md_next = 0;
  md_prev = 0;
}

abbrev pub max_load : ℕ
max_load = 3

abbrev pub k_mul : ℕ
k_mul = 0x9ddfea08eb382d69

-- `Fingerprint`
unfoldable pub fingerprint : ℕ → ℕ
fingerprint x =
    let b₀ = x * k_mul % u64_mod in
    let b₁ = bit_xor b₀ (b₀ / 2 ^ 44) * k_mul % u64_mod in
    bit_xor b₁ (b₁ / 2 ^ 41) * k_mul % u64_mod

-- `(uint32_t)Fingerprint((uintptr_t)p)`
unfoldable pub hash : ℕ → ℕ
hash p = fingerprint p % u32_mod

pub bp_scale_pos : 0 < bp_scale
bp_scale_pos = omega arith

instance abbrev pub chunk_table : Variant
chunk_table = record {
  Fields = ChunkFields;
  blank = blank_fields;
  hash = hash;
  max_load = max_load;
  bp_scale = bp_scale;
  bucket_pool_size = bucket_pool_size;
  bp_scale_pos = bp_scale_pos;
  alloc_segment = alloc sp_scale segment_pool_size;
  wants_pool = false;
  alloc_segment_lem = λ mmap ps chain ready. refl;
}
