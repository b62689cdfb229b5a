-- ===== src/Metadata/Contract.antt =====
-- Contraction: the last bin is emptied into its partner, and a segment and half of the directory
-- are given back where they are not needed.
pub mod Numbers
pub mod Bins
pub mod Segment
pub mod Correct
pub mod Table
use sri_glibc_malloc.Base.{
  ℕ, ◌+◌, ◌-◌, ◌/◌, ◌%◌, ◌&&◌, Option, none, some, List, [], ◌∷◌, ◌++◌, ltb, ◌==◌, if◌then◌else◌,
  ◌>>=◌, ◌>>◌, assert,
}
use sri_glibc_malloc.Utils.{Mmap, u64_mod, add_size, mul_size}
use sri_glibc_malloc.Memcxt.{Slot, Pointer, region, element, MemType}
use sri_glibc_malloc.Memcxt.Context.{memcxt_allocate, memcxt_release}
use sri_glibc_malloc.Metadata.{
  Bucket, Metadata, segment_length, initial_directory_length, pointer_size, min_load,
  mod_power_of_two, metadata_load, bindex2bin, read_bin, write_bin,
}
use sri_glibc_malloc.Metadata.Expand.{release_directory, move_directory}
use sri_glibc_malloc.Variant.{Variant}

module _ ⦃code : Variant⦄ where
  -- The copy into a directory that could not be allocated is a write through `NULL`.
  abbrev pub contract_into : Metadata → ℕ → Pointer → Option Metadata
  contract_into t newlen (region newdir) =
      let t' = record (move_directory t newdir newlen) { directory_length = newlen } in
      some (release_directory t' t.directory t.directory_length)
  contract_into t newlen ptr = none

  unfoldable pub metadata_contract_directory : Mmap → Metadata → Option Metadata
  metadata_contract_directory mmap t = do
    let newlen = t.directory_length / 2
    let (success, stored) = mul_size newlen pointer_size
    assert success
    assert (mul_size t.directory_length pointer_size).0
    assert (ltb t.directory_current newlen)
    newsz ← stored
    r ← memcxt_allocate mmap t.memcxt MemType.directory t.directory newsz
    contract_into t newlen r.0

  -- "see if the directory needs to contract"
  unfoldable pub shrink_directory : Mmap → Metadata → Option Metadata
  shrink_directory mmap t =
      if ltb initial_directory_length t.directory_length
        && ltb t.directory_current (t.directory_length / 2)
      then metadata_contract_directory mmap t
      else some t

  -- `move_buckets`: the source bin is spliced onto the end of the target bin.
  abbrev pub splice : Metadata → Slot × ℕ → Slot × ℕ → List Bucket → Metadata
  splice t srcbin tgtbin [] = t
  splice t srcbin tgtbin (b ∷ bs) =
      write_bin (write_bin t tgtbin (read_bin t tgtbin ++ b ∷ bs)) srcbin []

  unfoldable pub move_buckets : Metadata → Slot × ℕ → Slot × ℕ → Metadata
  move_buckets t srcbin tgtbin = splice t srcbin tgtbin (read_bin t srcbin)

  -- "now check if we can eliminate a segment"
  unfoldable pub shrink_segments : Metadata → ℕ → ℕ → Option Metadata
  shrink_segments t segindex index =
      let reclaimed = (do
        seg ← t.entries segindex
        m ← memcxt_release t.memcxt MemType.segment (element seg)
        some (record t {
          memcxt = m;
          entries = λ i. if i == segindex then none else t.entries i;
          directory_current = t.directory_current - 1;
        })) in
      if index == 0 then reclaimed else some t

  -- "update the state variables"
  unfoldable pub retreat : Metadata → Metadata
  retreat t =
      let p = (t.p + u64_mod - 1) % u64_mod in
      let below = p == u64_mod - 1 in
      record t {
        p = if below then t.maxp / 2 - 1 else p;
        maxp = if below then t.maxp / 2 else t.maxp;
        doublings = if below then t.doublings - 1 else t.doublings;
        bincount = t.bincount - 1;
      }

  -- The bins involved: the target, and the source, which is the last bin. `none` in the source is a
  -- sum that does not fit 64 bits.
  unfoldable pub contract_target : Metadata → ℕ
  contract_target t = if t.p == 0 then t.maxp / 2 - 1 else t.p - 1

  unfoldable pub contract_source : Metadata → Option ℕ
  contract_source t = if t.p == 0 then some (t.maxp - 1) else (add_size t.maxp (t.p - 1)).1

  -- From the two bins on
  unfoldable pub contract_bins : Metadata → ℕ → ℕ → Option Metadata
  contract_bins t srcindex tgtindex = do
    assert (ltb srcindex t.bincount)
    assert (ltb tgtindex t.bincount)
    srcbin ← bindex2bin t srcindex
    tgtbin ← bindex2bin t tgtindex
    index ← mod_power_of_two srcindex segment_length
    t' ← shrink_segments (move_buckets t srcbin tgtbin) (srcindex / segment_length) index
    some (retreat t')

  unfoldable pub metadata_contract_table : Mmap → Metadata → Option Metadata
  metadata_contract_table mmap t = do
    t' ← shrink_directory mmap t
    srcindex ← contract_source t'
    contract_bins t' srcindex (contract_target t')

  unfoldable pub metadata_contract_check : Mmap → Metadata → Option Metadata
  metadata_contract_check mmap t =
      if ltb 0 t.doublings && ltb (metadata_load t) min_load
      then metadata_contract_table mmap t
      else some t
