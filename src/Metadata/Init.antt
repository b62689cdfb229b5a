-- ===== src/Metadata/Init.antt =====
-- `init_metadata`: the directory, the numbers of an empty table, and its first segments.
pub mod Ready
use sri_glibc_malloc.Base.{
  ℕ, zero, suc, ◌+◌, Bool, true, false, not, Option, none, some, [], ◌==◌, if◌then◌else◌, ◌>>=◌,
  ◌>>◌, assert,
}
use sri_glibc_malloc.Utils.{Mmap, null, is_power_of_two, mul_size}
use sri_glibc_malloc.Memcxt.{Memcxt, Slot, Pointer, nowhere, region, element, MemType}
use sri_glibc_malloc.Memcxt.Context.{memcxt_allocate}
use sri_glibc_malloc.Metadata.{Metadata, segment_length, initial_directory_length, pointer_size}
use sri_glibc_malloc.Metadata.Expand.{is_null}
use sri_glibc_malloc.Variant.{Variant}

module _ ⦃code : Variant⦄ where
  -- `metadata_segments_at_startup`
  abbrev pub segments_at_startup : ℕ
  segments_at_startup = 1

  -- `(segment_t*)` of a `void *`
  abbrev pub to_segment : Pointer → Option Slot
  to_segment (element s) = some s
  to_segment ptr = none

  -- "create the segments needed by the current directory": `n` more, from `index` on
  unfoldable pub fill_segments : Mmap → ℕ → Metadata → ℕ → Option (Bool × Metadata)
  fill_segments mmap zero t index = some (true, t)
  fill_segments mmap (suc n) t index = do
    (ptr, m) ← memcxt_allocate mmap t.memcxt MemType.segment null 2056
    let t' = record t {
      memcxt = m;
      entries = λ i. if i == index then to_segment ptr else t.entries i;
    }
    let rest = fill_segments mmap n t' (index + 1)
    if is_null (to_segment ptr) then some (false, t') else rest

  -- From the allocation of the directory on. What is mapped anew is zero.
  unfoldable pub with_directory : Mmap → Metadata → Pointer → Option (Bool × Metadata)
  with_directory mmap t (region d) = do
    let (success, binsz) = mul_size segment_length t.directory_current
    n ← binsz
    let t' = record t {
      directory = d;
      entries = λ i. none;
      minimum = n;
      doublings = 0;
      p = 0;
      count = 0;
      maxp = n;
      bincount = n;
    }
    assert (is_power_of_two n)
    if success then fill_segments mmap t.directory_current t' 0 else some (false, t)
  with_directory mmap t ptr = some (false, record t { directory = null })

  -- `t` is the table before, with whatever its memory held.
  unfoldable pub init_metadata : Mmap → Metadata → Memcxt → Option (Bool × Metadata)
  init_metadata mmap t memcxt = do
    assert (is_power_of_two segment_length)
    assert (is_power_of_two initial_directory_length)
    let t' = record t {
      memcxt = memcxt;
      directory_length = initial_directory_length;
      directory_current = segments_at_startup;
    }
    let (success, dirsz) = mul_size initial_directory_length pointer_size
    sz ← dirsz
    (ptr, m) ← memcxt_allocate mmap memcxt MemType.directory null sz
    if success then with_directory mmap (record t' { memcxt = m }) ptr else some (false, t')
