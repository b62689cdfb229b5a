-- ===== src/Lookup/Owner.antt =====
-- The answer of `lookup_arena_index` after each change.
use sri_glibc_malloc.Base.{
  ℕ, ◌+◌, ◌^◌, ◌≡◌, ◌≢◌, refl, Bool, true, ◌&&◌, not, Option, none, some, ltb, leb, ◌==◌,
  if◌then◌else◌, Bool-cases, inl, inr, Returns,
}
use sri_glibc_malloc.Utils.{Mmap, null, sri_mmap}
use sri_glibc_malloc.Lookup.{
  Lookup, WordMap, tombstone, scan_regions, heap_for, lookup_arena_index, lookup_add_heap,
  lookup_delete_heap, lookup_add_mmap, lookup_delete_mmap, lookup_add_sbrk_region,
}
use sri_glibc_malloc.Lookup.Regions.{
  IsLookup, RegionAdded, lookup_add_sbrk_region-RegionAdded, lookup_add_sbrk_region-overflow,
}

-- Where a pointer was found: in a region (the main arena), as an mmapped block, in a heap, or
-- nowhere
abbrev pub owner : Bool → ℕ → ℕ → Option ℕ
owner in_region mmap_val heap_val =
    if in_region
    then some 1
    else (if not (mmap_val == tombstone)
        then some 0
        else (if not (heap_val == tombstone) then some heap_val else none))

-- The changes of the two tables
pub data Change : Type 0 where
  add_heap : ℕ → ℕ → Change
  delete_heap : ℕ → Change
  add_mmap : ℕ → ℕ → Change
  delete_mmap : ℕ → Change

module _ {M : Type 0} (map : WordMap M) where
  unfoldable pub apply : Change → Lookup M → Option (Bool × Lookup M)
  apply (add_heap heap index) l = lookup_add_heap map l heap index
  apply (delete_heap heap) l = lookup_delete_heap map l heap
  apply (add_mmap block sz) l = lookup_add_mmap map l block sz
  apply (delete_mmap block) l = lookup_delete_mmap map l block

module _ {M : Type 0} (map : WordMap M) (l : Lookup M) where
  abbrev pub in_region : ℕ → Bool
  in_region ptr = scan_regions (l.sbrk_region_count + 1) l.sbrk_regions ptr 0

  abbrev pub mmap_val : ℕ → ℕ
  mmap_val ptr = map.find l.mmap_tbl ptr

  abbrev pub heap_val : ℕ → ℕ
  heap_val ptr = map.find l.heap_tbl (heap_for l.heap_max ptr)

  -- What the tables answer after a change
  abbrev pub mmap_after : Change → ℕ → ℕ
  mmap_after (add_mmap block sz) ptr = if block == ptr then sz else mmap_val ptr
  mmap_after (delete_mmap block) ptr = if block == ptr then tombstone else mmap_val ptr
  mmap_after change ptr = mmap_val ptr

  abbrev pub heap_after : Change → ℕ → ℕ
  heap_after (add_heap heap index) ptr =
      if heap == heap_for l.heap_max ptr then index else heap_val ptr
  heap_after (delete_heap heap) ptr =
      if heap == heap_for l.heap_max ptr then tombstone else heap_val ptr
  heap_after change ptr = heap_val ptr

  abbrev pub succeeds : Change → Bool
  succeeds (add_heap heap index) = (map.add l.heap_tbl heap index).0
  succeeds (delete_heap heap) = (map.remove l.heap_tbl heap).0
  succeeds (add_mmap block sz) = (map.add l.mmap_tbl block sz).0
  succeeds (delete_mmap block) = (map.remove l.mmap_tbl block).0

  abbrev pub OwnersAfter : Change → Bool × Lookup M → Type 0
  OwnersAfter change (ok, l') =
      (ok ≡ true)
      × ((ptr : ℕ)
          → lookup_arena_index map l' ptr
            ≡ owner (in_region ptr) (mmap_after change ptr) (heap_after change ptr))

  -- A change of a table aborts just if the table refuses it. Otherwise it returns true, and
  -- `lookup_arena_index` then finds for every pointer what it found before, but for the block or
  -- the heap concerned: a block added is mmapped, the pointers into a heap added are of its arena,
  -- and those deleted are not found there. A region goes before a block, and a block before a heap.
  pub change-owners :
      (change : Change)
      → if succeeds change
        then Returns (apply map change l) (OwnersAfter change)
        else (apply map change l ≡ none)
  unfolding apply lookup_add_heap lookup_delete_heap lookup_add_mmap lookup_delete_mmap
      lookup_arena_index
  change-owners (add_heap heap index) = elim (Bool-cases (map.add l.heap_tbl heap index).0) [
    | inl ok ↦ rw ok (
      (true, record l { heap_tbl = (map.add l.heap_tbl heap index).1 }),
      refl,
      (refl, λ ptr. rw (map.find_add l.heap_tbl heap index (heap_for l.heap_max ptr) ok)),
    )
    | inr refused ↦ rw refused
  ]
  change-owners (delete_heap heap) = elim (Bool-cases (map.remove l.heap_tbl heap).0) [
    | inl ok ↦ rw ok (
      (true, record l { heap_tbl = (map.remove l.heap_tbl heap).1 }),
      refl,
      (refl, λ ptr. rw (map.find_remove l.heap_tbl heap (heap_for l.heap_max ptr) ok)),
    )
    | inr refused ↦ rw refused
  ]
  change-owners (add_mmap block sz) = elim (Bool-cases (map.add l.mmap_tbl block sz).0) [
    | inl ok ↦ rw ok (
      (true, record l { mmap_tbl = (map.add l.mmap_tbl block sz).1 }),
      refl,
      (refl, λ ptr. rw (map.find_add l.mmap_tbl block sz ptr ok)),
    )
    | inr refused ↦ rw refused
  ]
  change-owners (delete_mmap block) = elim (Bool-cases (map.remove l.mmap_tbl block).0) [
    | inl ok ↦ rw ok (
      (true, record l { mmap_tbl = (map.remove l.mmap_tbl block).1 }),
      refl,
      (refl, λ ptr. rw (map.find_remove l.mmap_tbl block ptr ok)),
    )
    | inr refused ↦ rw refused
  ]

  RegionAdded-owner :
      (lo hi : ℕ) (l' : Lookup M)
      → RegionAdded l lo hi l'
      → (ptr : ℕ)
      → lookup_arena_index map l' ptr
        ≡ (if leb lo ptr && ltb ptr hi then some 1 else lookup_arena_index map l ptr)
  unfolding lookup_arena_index
  RegionAdded-owner lo hi l' added ptr = elim (Bool-cases (leb lo ptr && ltb ptr hi)) [
    | inl e ↦ elim (Bool-cases (in_region ptr)) [
      | inl f ↦ rw (added.scanned ptr, e, f)
      | inr f ↦ rw (added.scanned ptr, e, f)
    ]
    | inr e ↦ elim (Bool-cases (in_region ptr)) [
      | inl f ↦ rw (added.scanned ptr, e, f)
      | inr f ↦ rw (added.scanned ptr, e, f, added.mmaps, added.heaps, added.heap_max)
    ]
  ]

  -- What an addition of a region leaves: the main arena has the addresses from `lo` to below `hi`
  -- besides its own, and the others are found where they were.
  abbrev pub Added : ℕ → ℕ → Bool × Lookup M → Type 0
  Added lo hi (ok, l') =
      (ok ≡ true)
      × IsLookup l'
      × ((ptr : ℕ)
          → lookup_arena_index map l' ptr
            ≡ (if leb lo ptr && ltb ptr hi then some 1 else lookup_arena_index map l ptr))

  -- Let the invariant hold, and let a growth of the array find memory elsewhere. Then
  -- `lookup_add_sbrk_region` passes, returns true and keeps the invariant; `lookup_arena_index` then
  -- answers 1 for the addresses from `lo` to below `hi`, and for the others what it answered before.
  -- The exception is the region that makes the count 2 ^ 30: the new length of the array overflows an
  -- `int`, before the test against the greatest length can answer false.
  pub lookup_add_sbrk_region-AddedOrOverflow :
      (mmap : Mmap) (lo hi : ℕ)
      → IsLookup l
      → ((sz : ℕ) → sri_mmap mmap l.address sz ≢ null)
      → ((sz : ℕ) → sri_mmap mmap l.address sz ≢ l.address)
      → (if l.sbrk_region_count + 1 == 2 ^ 30
          then (lookup_add_sbrk_region map mmap l lo hi ≡ none)
          else Returns (lookup_add_sbrk_region map mmap l lo hi) (Added lo hi))
  lookup_add_sbrk_region-AddedOrOverflow mmap lo hi is mapped apart =
      elim (Bool-cases (l.sbrk_region_count + 1 == 2 ^ 30)) [
        | inl last ↦ rw last (lookup_add_sbrk_region-overflow map l is mmap lo hi last)
        | inr left ↦
            let (r, run, (ok, added)) =
              lookup_add_sbrk_region-RegionAdded map l is mmap lo hi mapped apart left in
            rw left (r, run, (ok, added.is, RegionAdded-owner lo hi r.1 added))
      ]
