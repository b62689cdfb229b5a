-- ===== src/Memcxt.antt =====
-- memcxt.c and memcxt.h of src/sri-glibc/malloc: pools of buckets and of segments. A pool is an
-- array of elements with one bit for each, set while the element is in use. A pointer to an element
-- is the address of its pool and its index there. `none` is an abort.
pub mod Masks
pub mod Slots
pub mod Chain
pub mod Context
pub mod Laws
pub mod Sanity
pub mod Teardown
use sri_glibc_malloc.Base.{
  ℕ, zero, suc, ◌+◌, ◌-◌, ◌*◌, ◌/◌, ◌%◌, ◌^◌, bit_and, bit_or, bit_xor, Bool, true, false, ◌&&◌,
  not, Option, none, some, List, [], ◌∷◌, ltb, leb, ◌==◌, if◌then◌else◌, ◌>>=◌, ◌>>◌, assert,
  replicate, set, get_or,
}
use sri_glibc_malloc.Utils.{Mmap, null, u64_mod, ctz64, sri_mmap}

abbrev pub uint64_max : ℕ
uint64_max = 2 ^ 64 - 1

-- BITS_IN_MASK
abbrev pub bits_in_mask : ℕ
bits_in_mask = 64

-- BP_SCALE and SP_SCALE, the numbers of bit masks in a pool
abbrev pub bp_scale : ℕ
bp_scale = 1024

abbrev pub sp_scale : ℕ
sp_scale = 8

-- `sizeof(bucket_pool_t)` and `sizeof(segment_pool_t)` on a 64-bit machine
abbrev pub bucket_pool_size : ℕ
bucket_pool_size = 1024 * 64 * 88 + 1024 * 8 + 16

abbrev pub segment_pool_size : ℕ
segment_pool_size = 8 * 64 * 2056 + 8 * 8 + 16

-- `&pool[index]`; the field `bucket_pool_ptr` or `segment_pool_ptr` of the element holds `pool`.
pub record Slot : Type 0 where
  pub pool : ℕ
  pub index : ℕ

abbrev pub same_slot : Slot → Slot → Bool
same_slot s t = s.pool == t.pool && s.index == t.index

-- bucket_pool_s and segment_pool_s without the array of elements
pub record Pool : Type 0 where
  pub base : ℕ
  pub bitmasks : List ℕ
  pub free_count : ℕ

-- The pools are chained by `next_bucket_pool` and `next_segment_pool`.
pub record Memcxt : Type 0 where
  pub segments : List Pool
  pub buckets : List Pool

-- `~mask` on 64 bits
abbrev pub complement : ℕ → ℕ
complement mask = bit_xor mask uint64_max

unfoldable pub get_free_bit : ℕ → Option ℕ
get_free_bit mask = do assert (not (mask == uint64_max)); ctz64 (complement mask)

unfoldable pub get_bit : ℕ → ℕ → Bool
get_bit mask index = not (bit_and mask (2 ^ index % u64_mod) == 0)

unfoldable pub set_bit : ℕ → ℕ → ℕ
set_bit mask index = bit_or mask (2 ^ index % u64_mod)

unfoldable pub clear_bit : ℕ → ℕ → ℕ
clear_bit mask index = bit_and mask (complement (2 ^ index % u64_mod))

-- `init_bucket_pool` and `init_segment_pool`
unfoldable pub init_pool : ℕ → ℕ → Pool
init_pool scale base = record {
  base = base;
  bitmasks = replicate scale 0;
  free_count = scale * bits_in_mask;
}

-- `new_buckets` and `new_segments`
unfoldable pub new_pool : ℕ → ℕ → Mmap → Option Pool
new_pool scale size mmap =
    let ptr = sri_mmap mmap null size in if ptr == null then none else some (init_pool scale ptr)

abbrev pub behind : ℕ → Option (ℕ × List ℕ) → Option (ℕ × List ℕ)
behind mask none = none
behind mask (some (index, masks)) = some (index, mask ∷ masks)

-- The loop over `scale`: the first mask that is not full gets its lowest free bit set.
unfoldable pub scan_masks : ℕ → List ℕ → Option (Option (ℕ × List ℕ))
scan_masks scale [] = some none
scan_masks scale (mask ∷ masks) =
    let found = (do
      index ← get_free_bit mask
      assert (ltb index bits_in_mask)
      some (some (scale * bits_in_mask + index, set_bit mask index ∷ masks))) in
    let later = (do r ← scan_masks (scale + 1) masks; some (behind mask r)) in
    if ltb mask uint64_max then found else later

abbrev pub past : Pool → Option (Slot × List Pool) → Option (Slot × List Pool)
past p none = none
past p (some (slot, pools)) = some (slot, p ∷ pools)

abbrev pub take_from : Pool → List Pool → ℕ × List ℕ → Slot × List Pool
take_from p ps (index, masks) = (
  record { pool = p.base; index = index },
  record p { bitmasks = masks; free_count = p.free_count - 1 } ∷ ps,
)

-- The loop over the pools
unfoldable pub alloc_in : List Pool → Option (Option (Slot × List Pool))
alloc_in [] = some none
alloc_in (p ∷ ps) =
    let later = (do r ← alloc_in ps; some (past p r)) in
    let here = (do
      r ← scan_masks 0 p.bitmasks
      elim r [ none ↦ later | some f ↦ some (some (take_from p ps f)) ]) in
    if ltb 0 p.free_count then here else later

-- A new pool in front, with its first element taken
abbrev pub first_of_new : Pool → List Pool → Slot × List Pool
first_of_new p pools = (
  record { pool = p.base; index = 0 },
  record p { bitmasks = set p.bitmasks 0 1; free_count = p.free_count - 1 } ∷ pools,
)

abbrev pub or_new : List Pool → Option Pool → Option (Slot × List Pool) → Option Slot × List Pool
or_new pools p (some (slot, pools')) = (some slot, pools')
or_new pools none none = (none, pools)
or_new pools (some p) none = let (slot, pools') = first_of_new p pools in (some slot, pools')

-- `alloc_bucket` and `alloc_segment`, for pools of `scale` masks and `size` bytes
unfoldable pub alloc : ℕ → ℕ → Mmap → List Pool → Option (Option Slot × List Pool)
alloc scale size mmap pools = do
  r ← alloc_in pools
  some (or_new pools (new_pool scale size mmap) r)

-- What `free_bucket` and `free_segment` do to the pool of the element
unfoldable pub free_index : ℕ → Pool → ℕ → Option Pool
free_index scale p index = do
  assert (ltb index (scale * bits_in_mask))
  let mask = get_or p.bitmasks (index / bits_in_mask) 0
  assert (get_bit mask (index % bits_in_mask))
  let masks = set p.bitmasks (index / bits_in_mask) (clear_bit mask (index % bits_in_mask))
  assert (ltb 0 (p.free_count + 1) && leb (p.free_count + 1) (scale * bits_in_mask))
  some (record p { bitmasks = masks; free_count = p.free_count + 1 })

-- `free_bucket` and `free_segment`: the pool is the one that the element points to. A pool that is
-- not there is a dangling pointer.
unfoldable pub free_slot : ℕ → List Pool → Slot → Option (List Pool)
free_slot scale [] slot = none
free_slot scale (p ∷ ps) slot =
    let here = (do p' ← free_index scale p slot.index; some (p' ∷ ps)) in
    let later = (do ps' ← free_slot scale ps slot; some (p ∷ ps')) in
    if p.base == slot.pool then here else later

-- memtype_t
pub data MemType : Type 0 where
  directory segment bucket : MemType

-- What a `void *` of this interface points to
pub data Pointer : Type 0 where
  nowhere : Pointer
  region : ℕ → Pointer
  element : Slot → Pointer

abbrev pub to_region : ℕ → Pointer
to_region ptr = if ptr == null then nowhere else region ptr

abbrev pub to_element : Option Slot → Pointer
to_element none = nowhere
to_element (some s) = element s

abbrev pub chain_of : Option Pool → List Pool
chain_of none = []
chain_of (some p) = p ∷ []

abbrev pub is_some_pool : Option Pool → Bool
is_some_pool none = false
is_some_pool (some p) = true
