-- ===== src/Lphash.antt =====
-- src/lphash/lphash.c and lphash.h: the table from addresses to addresses that the replay uses. It
-- is metadata.c's linear hash table with its own hash, load and pools, and a bucket that holds a
-- value. What the two files share is one definition, on a `Variant`; its name here is that of
-- lphash.c. `none` is an abort, or a loop that never ends.
pub mod Segments
pub mod Table
pub mod Pools
pub mod Values
pub mod Inserted
pub mod Client
pub mod Init
pub mod Replayed
use sri_glibc_malloc.Base.{
  ℕ, zero, suc, ◌+◌, ◌-◌, ◌*◌, ◌/◌, ◌%◌, ◌^◌, ◌<◌, bit_or, Bool, true, false, not, Option, none,
  some, List, [], ◌∷◌, ltb, ◌==◌, if◌then◌else◌, ◌>>=◌, ◌>>◌, assert, arith,
}
use sri_glibc_malloc.Utils.{
  Mmap, null, u64_mod, u32_mod, is_power_of_two, add_size, mul_size, jenkins_hash_uint64,
  jenkins_hash_ptr,
}
use sri_glibc_malloc.Memcxt.{Memcxt, Slot, Pool, Pointer, element, MemType}
use sri_glibc_malloc.Memcxt.Context.{memcxt_allocate, memcxt_release, init_memcxt}
use sri_glibc_malloc.Variant.{Variant}
use sri_glibc_malloc.Metadata.{
  Bucket, Metadata, segment_length, initial_directory_length, metadata_load, metadata_bindex,
  bindex2bin, metadata_fetch_bucket, read_bin, write_bin, bucket_length, mod_power_of_two,
}
use sri_glibc_malloc.Metadata.Expand.{
  metadata_expand_directory, metadata_expand_table, metadata_expand_check,
}
use sri_glibc_malloc.Metadata.Contract.{
  metadata_contract_directory, metadata_contract_table, metadata_contract_check, move_buckets,
}
use sri_glibc_malloc.Metadata.Init.{init_metadata}
use sri_glibc_malloc.Metadata.Access.{metadata_delete, metadata_delete_all}
use sri_glibc_malloc.Metadata.Teardown.{delete_metadata}
use sri_glibc_malloc.Lphash.Table.{pointer_table}
use sri_glibc_malloc.Lphash.Pools.{lpmemcxt_allocate, lpinit_pool_memcxt}

-- lphash_t
abbrev pub Lphash : Type 0
Lphash = Metadata

-- `val |= val >> n`
abbrev pub smear : ℕ → ℕ → ℕ
smear n val = bit_or val (val / 2 ^ n)

unfoldable pub lpnext_power_of_two : ℕ → ℕ
lpnext_power_of_two num =
    if num == 0
    then 2
    else if ltb (2 ^ 31) num
    then 2 ^ 31
    else (smear 16 (smear 8 (smear 4 (smear 2 (smear 1 (num - 1))))) + 1) % u32_mod

-- Code that the two files share
abbrev pub lpis_power_of_two : ℕ → Bool
lpis_power_of_two = is_power_of_two

abbrev pub lpmod_power_of_two : ℕ → ℕ → Option ℕ
lpmod_power_of_two = mod_power_of_two

abbrev pub lpadd_size : ℕ → ℕ → Bool × Option ℕ
lpadd_size = add_size

abbrev pub lpmul_size : ℕ → ℕ → Bool × Option ℕ
lpmul_size = mul_size

abbrev pub lphash_load : Lphash → ℕ
lphash_load = metadata_load

abbrev pub lphash_bindex : Lphash → ℕ → Option ℕ
lphash_bindex = metadata_bindex

abbrev pub lpbindex2bin : Lphash → ℕ → Option (Slot × ℕ)
lpbindex2bin = bindex2bin

abbrev pub lphash_fetch_bucket : Lphash → ℕ → Option (Slot × ℕ)
lphash_fetch_bucket = metadata_fetch_bucket

abbrev pub lpbucket_length : List Bucket → ℕ
lpbucket_length = bucket_length

abbrev pub lphash_expand_directory : Mmap → Lphash → Option (Bool × Lphash)
lphash_expand_directory = metadata_expand_directory

abbrev pub lphash_expand_table : Mmap → Lphash → Option (Bool × Lphash)
lphash_expand_table = metadata_expand_table

abbrev pub lphash_expand_check : Mmap → Lphash → Option (Bool × Lphash)
lphash_expand_check = metadata_expand_check

abbrev pub lphash_contract_directory : Mmap → Lphash → Option Lphash
lphash_contract_directory = metadata_contract_directory

abbrev pub lp_move_buckets : Lphash → Slot × ℕ → Slot × ℕ → Lphash
lp_move_buckets = move_buckets

abbrev pub lphash_contract_table : Mmap → Lphash → Option Lphash
lphash_contract_table = metadata_contract_table

abbrev pub lphash_contract_check : Mmap → Lphash → Option Lphash
lphash_contract_check = metadata_contract_check

abbrev pub lphash_delete : Mmap → Lphash → ℕ → Option (Bool × Lphash)
lphash_delete = metadata_delete

abbrev pub lphash_delete_all : Mmap → Lphash → ℕ → Option (ℕ × Lphash)
lphash_delete_all = metadata_delete_all

-- The result is the context: the table is gone.
abbrev pub delete_lphash : Lphash → Option Memcxt
delete_lphash = delete_metadata

-- The result of `lpinit_pool_memcxt` is not looked at.
unfoldable pub lphash_cfg_init : Mmap → Option Memcxt
lphash_cfg_init mmap = do
  assert (lpis_power_of_two segment_length)
  assert (lpis_power_of_two initial_directory_length)
  some (lpinit_pool_memcxt mmap).1

-- The first `Mmap` answers for the two pools of `lphash_cfg_init`, the second after it.
unfoldable pub init_lphash : Mmap → Mmap → Lphash → Option (Bool × Lphash)
init_lphash pools mmap t = do m ← lphash_cfg_init pools; init_metadata mmap t m

-- From the allocation of the bucket on: it goes to the front of its bin, and is counted.
abbrev pub put_bucket : Mmap → Lphash → Slot × ℕ → ℕ → ℕ → Pointer → Option (Bool × Lphash)
put_bucket mmap t binp key value (element s) =
    let newbucket : Bucket = record { slot = s; chunk = key; fields = record { value = value } } in
    let t' = write_bin t binp (newbucket ∷ read_bin t binp) in
    lphash_expand_check mmap (record t' { count = (t.count + 1) % u64_mod })
put_bucket mmap t binp key value ptr = some (false, t)

unfoldable pub lphash_insert : Mmap → Lphash → ℕ → ℕ → Option (Bool × Lphash)
lphash_insert mmap t key value = do
  binp ← lphash_fetch_bucket t key
  (ptr, m) ← lpmemcxt_allocate mmap t.memcxt MemType.bucket null 32
  put_bucket mmap (record t { memcxt = m }) binp key value ptr

-- The walk of `lphash_lookup` down a bin: the value of the first bucket with the key, or `NULL`
unfoldable pub find_value : ℕ → List Bucket → ℕ
find_value key [] = null
find_value key (b ∷ bs) =
    let later = find_value key bs in if key == b.chunk then b.fields.value else later

unfoldable pub lphash_lookup : Lphash → ℕ → Option ℕ
lphash_lookup t key = do binp ← lphash_fetch_bucket t key; some (find_value key (read_bin t binp))
