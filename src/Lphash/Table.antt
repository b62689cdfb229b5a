-- ===== src/Lphash/Table.antt =====
-- The table of src/lphash/lphash.c as a variant: lpbucket_t, its hash, its load and its pools.
use sri_glibc_malloc.Base.{ℕ, ◌+◌, ◌*◌, ◌<◌, true, arith}
use sri_glibc_malloc.Utils.{jenkins_hash_uint64, jenkins_hash_ptr}
use sri_glibc_malloc.Variant.{Variant}
use sri_glibc_malloc.Lphash.Segments.{alloc_lpsegment, alloc_lpsegment-alloc}

-- The field of lpbucket_t besides `key` and the link
pub record ValueField : Type 0 where
  pub value : ℕ

abbrev pub no_value : ValueField
no_value = record { value = 0 }

-- BP_SCALE of lphash.c, and `sizeof(lpbucket_pool_t)`
abbrev pub lp_bp_scale : ℕ
lp_bp_scale = 32

abbrev pub lpbucket_pool_size : ℕ
lpbucket_pool_size = 32 * 64 * 32 + 32 * 8 + 16

abbrev pub lphash_max_load : ℕ
lphash_max_load = 5

abbrev pub lpjenkins_hash_uint64 : ℕ → ℕ
lpjenkins_hash_uint64 = jenkins_hash_uint64

abbrev pub lpjenkins_hash_ptr : ℕ → ℕ
lpjenkins_hash_ptr = jenkins_hash_ptr

pub lp_bp_scale_pos : 0 < lp_bp_scale
lp_bp_scale_pos = omega arith

instance abbrev pub pointer_table : Variant
pointer_table = record {
  Fields = ValueField;
  blank = no_value;
  hash = lpjenkins_hash_ptr;
  max_load = lphash_max_load;
  bp_scale = lp_bp_scale;
  bucket_pool_size = lpbucket_pool_size;
  bp_scale_pos = lp_bp_scale_pos;
  alloc_segment = alloc_lpsegment;
  wants_pool = true;
  alloc_segment_lem = alloc_lpsegment-alloc;
}
