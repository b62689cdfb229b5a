-- ===== src/Metadata/Expand.antt =====
-- Expansion: a bin is split, and a segment and a larger directory come where they are needed.
pub mod Directory
pub mod Segments
pub mod Splitting
pub mod Bins
pub mod Correct
use sri_glibc_malloc.Base.{
  ℕ, zero, suc, ◌+◌, ◌-◌, ◌*◌, ◌/◌, ◌%◌, ◌^◌, Bool, true, false, ◌&&◌, not, Option, none, some,
  List, [], ◌∷◌, ◌++◌, ltb, ◌==◌, if◌then◌else◌, ◌>>=◌, ◌>>◌, assert,
}
use sri_glibc_malloc.Utils.{Mmap, null, u64_mod, add_size, mul_size}
use sri_glibc_malloc.Memcxt.{Memcxt, Slot, Pointer, nowhere, region, element, MemType}
use sri_glibc_malloc.Memcxt.Context.{memcxt_allocate}
use sri_glibc_malloc.Metadata.{
  Bucket, Metadata, segment_length, bincount_max, directory_length_max, pointer_size,
  mod_power_of_two, metadata_load, metadata_bindex, bindex2bin, read_bin, write_bin,
}
use sri_glibc_malloc.Variant.{Variant}

abbrev pub is_null : Option Slot → Bool
is_null none = true
is_null (some s) = false

module _ ⦃code : Variant⦄ where
  abbrev pub is_empty : List Bucket → Bool
  is_empty [] = true
  is_empty (b ∷ bs) = false

  -- `munmap` of the first `len` entries at `olddir`: if that is still the directory, they can no
  -- longer be read.
  unfoldable pub release_directory : Metadata → ℕ → ℕ → Metadata
  release_directory t olddir len =
      if t.directory == olddir
      then record t { entries = λ i. if ltb i len then none else t.entries i }
      else t

  -- The new directory takes over the first `len` entries. What is mapped anew is zero.
  unfoldable pub move_directory : Metadata → ℕ → ℕ → Metadata
  move_directory t newdir len =
      if newdir == t.directory
      then t
      else record t { directory = newdir; entries = λ i. if ltb i len then t.entries i else none }

  abbrev pub expand_into : Metadata → ℕ → Pointer → Bool × Metadata
  expand_into t new_dirlen (region newdir) =
      let old_dirlen = t.directory_length in
      let t' = record (move_directory t newdir old_dirlen) { directory_length = new_dirlen } in
      if (mul_size old_dirlen pointer_size).0
      then (true, release_directory t' t.directory old_dirlen)
      else (false, t')
  expand_into t new_dirlen ptr = (false, t)

  unfoldable pub metadata_expand_directory : Mmap → Metadata → Option (Bool × Metadata)
  metadata_expand_directory mmap t = do
    assert (t.directory_length == t.directory_current)
    let new_dirlen = t.directory_length * 2 % u64_mod
    assert (ltb new_dirlen directory_length_max)
    let (success, stored) = mul_size new_dirlen pointer_size
    elim stored [
      | none ↦ some (false, t)
      | some new_dirsz ↦ if not success then some (false, t) else do
        r ← memcxt_allocate mmap t.memcxt MemType.directory t.directory new_dirsz
        some (expand_into t new_dirlen r.0)
    ]

  -- `if(directory_length == directory_current){ … }`
  unfoldable pub grow_directory : Mmap → Metadata → Option (Bool × Metadata)
  grow_directory mmap t =
      if t.directory_length == t.directory_current
      then metadata_expand_directory mmap t
      else some (true, t)

  abbrev pub place_segment : Metadata → ℕ → Pointer × Memcxt → Bool × Metadata
  place_segment t segindex (element s, m) = (
    true,
    record t {
      memcxt = m;
      entries = λ i. if i == segindex then some s else t.entries i;
      directory_current = t.directory_current + 1;
    },
  )
  place_segment t segindex (ptr, m) = (false, record t { memcxt = m })

  -- "expand address space; if necessary create new segment"
  unfoldable pub grow_segments : Mmap → Metadata → ℕ → ℕ → Option (Bool × Metadata)
  grow_segments mmap t new_segindex newsegindex =
      let grown = (do
        r ← memcxt_allocate mmap t.memcxt MemType.segment null 2056
        some (place_segment t new_segindex r)) in
      if newsegindex == 0 && is_null (t.entries new_segindex) then grown else some (true, t)

  -- "update the state variables"
  unfoldable pub advance : Metadata → Metadata
  advance t =
      let p = t.p + 1 in
      let full = p == t.maxp in
      record t {
        p = if full then 0 else p;
        maxp = if full then t.maxp * 2 % u64_mod else t.maxp;
        doublings = if full then t.doublings + 1 else t.doublings;
        bincount = t.bincount + 1;
      }

  -- The loop over the bin that is split: `old` are the buckets up to `previous`, `new` those up to
  -- `lastofnew`. The order is kept in both.
  unfoldable pub split_loop :
      Metadata → ℕ → List Bucket → List Bucket → List Bucket → Option (List Bucket × List Bucket)
  split_loop t new_bindex [] old new = some (old, new)
  split_loop t new_bindex (b ∷ bs) old new = do
    i ← metadata_bindex t b.chunk
    split_loop t new_bindex bs (if i == new_bindex then old else old ++ b ∷ [])
        (if i == new_bindex then new ++ b ∷ [] else new)

  -- From the update of the state variables on
  unfoldable pub split_bin : Metadata → Slot × ℕ → Slot × ℕ → ℕ → Option Metadata
  split_bin t oldbin newbin new_bindex = do
    let t' = advance t
    assert (is_empty (read_bin t' newbin))
    (old, new) ← split_loop t' new_bindex (read_bin t' oldbin) [] []
    some (write_bin (write_bin t' newbin new) oldbin old)

  -- What follows the growth of the directory
  unfoldable pub expand_bins : Mmap → Metadata → ℕ → Option (Bool × Metadata)
  expand_bins mmap t new_bindex = do
    oldbin ← bindex2bin t t.p
    let new_segindex = new_bindex / segment_length
    newsegindex ← mod_power_of_two new_bindex segment_length
    (success, t') ← grow_segments mmap t new_segindex newsegindex
    if not success then some (false, t') else do
      newseg ← t'.entries new_segindex
      t'' ← split_bin t' oldbin (newseg, newsegindex) new_bindex
      some (true, t'')

  unfoldable pub metadata_expand_table : Mmap → Metadata → Option (Bool × Metadata)
  metadata_expand_table mmap t =
      let (success, stored) = add_size t.maxp t.p in
      elim stored [
        | none ↦ some (false, t)
        | some new_bindex ↦ if not success then some (false, t) else do
          assert (ltb new_bindex bincount_max)
          (grown, t') ← grow_directory mmap t
          if not grown
              then some (false, t')
              else if ltb new_bindex bincount_max
              then expand_bins mmap t' new_bindex
              else some (true, t')
      ]

  unfoldable pub metadata_expand_check : Mmap → Metadata → Option (Bool × Metadata)
  metadata_expand_check mmap t =
      if ltb t.bincount bincount_max && ltb code.max_load (metadata_load t)
      then metadata_expand_table mmap t
      else some (true, t)
