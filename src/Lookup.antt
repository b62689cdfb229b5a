-- ===== src/Lookup.antt =====
-- lookup.c of src/sri-glibc/malloc: which arena a pointer belongs to.
pub mod Regions
pub mod Heap
pub mod Owner
pub mod Tables
pub mod Words
use sri_glibc_malloc.Base.{
  ℕ, zero, suc, ◌+◌, ◌-◌, ◌*◌, ◌%◌, ◌^◌, ◌≡◌, ◌≢◌, Bool, true, false, ◌&&◌, ◌||◌, not, Option, none,
  some, List, [], ◌∷◌, ◌++◌, ltb, leb, ◌==◌, if◌then◌else◌, bit_and, get_or, set, take, replicate,
  ◌>>=◌, ◌>>◌, assert,
}
use sri_glibc_malloc.Utils.{Mmap, null, sri_mmap, u64_mod}

abbrev pub sbrk_initial_max_segments : ℕ
sbrk_initial_max_segments = 1024

abbrev pub max_sbrk_table_size : ℕ
max_sbrk_table_size = 0x80000000

abbrev pub tombstone : ℕ
tombstone = 0

abbrev pub table_size : ℕ
table_size = 1024

-- sbrk_region_t, of 32 bytes
pub record Region : Type 0 where
  pub mmapped : Bool
  pub lo : ℕ
  pub hi : ℕ
  pub max : ℕ

-- A region as the system maps it
abbrev pub blank_region : Region
blank_region = record { mmapped = false; lo = 0; hi = 0; max = 0 }

-- `lfht_find`, `lfht_add` and `lfht_remove` on a table `M`; `find` answers TOMBSTONE for a key that
-- the table does not have. What lfht.c promises of them: an addition or a removal that succeeds
-- changes what is found for its key, and for no other.
pub record WordMap (M : Type 0) : Type 0 where
  pub find : M → ℕ → ℕ
  pub add : M → ℕ → ℕ → Bool × M
  pub remove : M → ℕ → Bool × M
  pub find_add :
      (m : M) (key val j : ℕ)
      → (add m key val).0 ≡ true
      → find (add m key val).1 j ≡ (if key == j then val else find m j)
  pub find_remove :
      (m : M) (key j : ℕ)
      → (remove m key).0 ≡ true
      → find (remove m key).1 j ≡ (if key == j then tombstone else find m j)

-- The numbers of an `int32_t` or an `int` that is not negative are below this.
abbrev pub int_bound : ℕ
int_bound = 2 ^ 31

-- The variables of lookup.c, the first two of them an `int32_t` that is not negative; `address` is where the array `sbrk_regions` lies.
pub record Lookup (M : Type 0) : Type 0 where
  pub sbrk_region_count : ℕ
  pub sbrk_region_current_max : ℕ
  pub address : ℕ
  pub sbrk_regions : List Region
  pub heap_tbl : M
  pub mmap_tbl : M
  pub heap_max : ℕ

-- `sbrk_regions[i].lo <= (uintptr_t)ptr && (uintptr_t)ptr < sbrk_regions[i].hi`
abbrev pub holds : ℕ → Region → Bool
holds ptr r = leb r.lo ptr && ltb ptr r.hi

-- The loop over the regions from `i` on, `n` of them
unfoldable pub scan_regions : ℕ → List Region → ℕ → ℕ → Bool
scan_regions zero regions ptr i = false
scan_regions (suc n) regions ptr i =
    let later = scan_regions n regions ptr (i + 1) in
    if holds ptr (get_or regions i blank_region) then true else later

-- `ptr & ~(heap_max - 1)`, in 64 bits
unfoldable pub heap_for : ℕ → ℕ → ℕ
heap_for heap_max ptr = bit_and ptr (2 ^ 64 - 1 - (heap_max + 2 ^ 64 - 1) % 2 ^ 64)

module _ {M : Type 0} (map : WordMap M) where
  -- The tables are what `init_lfht` makes, or `none` if it fails.
  unfoldable pub lookup_init : Mmap → ℕ → Option M → Option M → Option (Lookup M)
  lookup_init mmap hmax heap_tbl mmap_tbl = do
    let regions = sri_mmap mmap null (sbrk_initial_max_segments * 32)
    assert (not (regions == null))
    heaps ← heap_tbl
    mmaps ← mmap_tbl
    some (record {
      sbrk_region_count = 0;
      sbrk_region_current_max = sbrk_initial_max_segments;
      address = regions;
      sbrk_regions = replicate sbrk_initial_max_segments blank_region;
      heap_tbl = heaps;
      mmap_tbl = mmaps;
      heap_max = hmax;
    })

  -- `delete_lfht` of both tables, as `destroy`
  unfoldable pub lookup_delete : (M → M) → Lookup M → Lookup M
  lookup_delete destroy l = record l {
    heap_tbl = destroy l.heap_tbl;
    mmap_tbl = destroy l.mmap_tbl;
  }

  -- For an `arena_indexp` that is not NULL: what is stored there, or `none` for the result false.
  unfoldable pub lookup_arena_index : Lookup M → ℕ → Option ℕ
  lookup_arena_index l ptr =
      let heap_val = map.find l.heap_tbl (heap_for l.heap_max ptr) in
      if scan_regions (l.sbrk_region_count + 1) l.sbrk_regions ptr 0
      then some 1
      else (if not (map.find l.mmap_tbl ptr == tombstone)
          then some 0
          else (if not (heap_val == tombstone) then some heap_val else none))

  -- A full array is copied to one of twice the length. `none` is a product that overflows an `int`, or
  -- a `memcpy` to NULL.
  unfoldable pub grow_regions : Mmap → Lookup M → Option (Lookup M)
  grow_regions mmap l = do
    let nregion_max = 2 * l.sbrk_region_current_max
    assert (ltb nregion_max int_bound)
    let nregions = sri_mmap mmap l.address (nregion_max * 32)
    assert (not (nregions == null))
    some (
        if nregions == l.address
        then record l { sbrk_region_current_max = nregion_max }
        else record l {
          address = nregions;
          sbrk_regions =
              take l.sbrk_region_current_max l.sbrk_regions
              ++ replicate (nregion_max - l.sbrk_region_current_max) blank_region;
          sbrk_region_current_max = nregion_max;
        })

  abbrev pub store_region : Lookup M → ℕ → ℕ → ℕ → Bool × Lookup M
  store_region l nregion_count lo hi = (
    true,
    record l {
      sbrk_regions =
          set l.sbrk_regions nregion_count (record { mmapped = true; lo = lo; hi = hi; max = hi });
      sbrk_region_count = nregion_count;
    },
  )

  -- `none` if the count overflows an `int`, and as in `grow_regions`
  unfoldable pub lookup_add_sbrk_region : Mmap → Lookup M → ℕ → ℕ → Option (Bool × Lookup M)
  lookup_add_sbrk_region mmap l lo hi =
      let nregion_count = l.sbrk_region_count + 1 in
      let grown = (do l' ← grow_regions mmap l; some (store_region l' nregion_count lo hi)) in
      let added =
        (if nregion_count == l.sbrk_region_current_max
          then (if leb max_sbrk_table_size l.sbrk_region_current_max
              then some (false, l)
              else grown)
          else some (store_region l nregion_count lo hi)) in
      assert (ltb nregion_count int_bound) >> added

  abbrev pub with_first : Lookup M → (Region → Region) → Lookup M
  with_first l f = record l {
    sbrk_regions = set l.sbrk_regions 0 (f (get_or l.sbrk_regions 0 blank_region));
  }

  unfoldable pub lookup_set_sbrk_lo : Lookup M → ℕ → Bool × Lookup M
  lookup_set_sbrk_lo l ptr = (true, with_first l (λ r. record r { lo = ptr }))

  abbrev pub raised : ℕ → Region → Region
  raised sz r =
      let hi = ((if r.hi == 0 then r.lo else r.hi) + sz) % u64_mod in
      record r { hi = hi; max = if ltb r.max hi then hi else r.max }

  unfoldable pub lookup_incr_sbrk_hi : Lookup M → ℕ → Bool × Lookup M
  lookup_incr_sbrk_hi l sz = (true, with_first l (raised sz))

  unfoldable pub lookup_decr_sbrk_hi : Lookup M → ℕ → Bool × Lookup M
  lookup_decr_sbrk_hi l sz =
      (true, with_first l (λ r. record r { hi = (r.hi + u64_mod - sz) % u64_mod }))

  unfoldable pub lookup_add_heap : Lookup M → ℕ → ℕ → Option (Bool × Lookup M)
  lookup_add_heap l ptr index = do
    let (retval, tbl) = map.add l.heap_tbl ptr index
    assert retval
    some (retval, record l { heap_tbl = tbl })

  unfoldable pub lookup_delete_heap : Lookup M → ℕ → Option (Bool × Lookup M)
  lookup_delete_heap l ptr = do
    let (retval, tbl) = map.remove l.heap_tbl ptr
    assert retval
    some (retval, record l { heap_tbl = tbl })

  unfoldable pub lookup_add_mmap : Lookup M → ℕ → ℕ → Option (Bool × Lookup M)
  lookup_add_mmap l ptr sz = do
    let (retval, tbl) = map.add l.mmap_tbl ptr sz
    assert retval
    some (retval, record l { mmap_tbl = tbl })

  unfoldable pub lookup_delete_mmap : Lookup M → ℕ → Option (Bool × Lookup M)
  lookup_delete_mmap l ptr = do
    let (retval, tbl) = map.remove l.mmap_tbl ptr
    assert retval
    some (retval, record l { mmap_tbl = tbl })
