-- ===== src/Tests/Regions.antt =====
-- Runs of lookup.c in src/sri-glibc/malloc, with tables that are functions.
use sri_glibc_malloc.Base.{
  ℕ, refl, true, replicate, Returns, ◌==◌, ◌+◌, ◌^◌, ◌≡◌, none, if◌then◌else◌, arith,
  length-replicate,
}
use sri_glibc_malloc.Utils.{sri_mmap}
use sri_glibc_malloc.Lookup.{Lookup, WordMap, blank_region, lookup_add_sbrk_region}
use sri_glibc_malloc.Lookup.Regions.{IsLookup}
use sri_glibc_malloc.Lookup.Owner.{Added, lookup_add_sbrk_region-AddedOrOverflow}
use sri_glibc_malloc.Tests.{later_mmap}

abbrev function_map : WordMap (ℕ → ℕ)
function_map = record {
  find = λ m key. m key;
  add = λ m key val. (true, λ j. if key == j then val else m j);
  remove = λ m key. (true, λ j. if key == j then 0 else m j);
  find_add = λ m key val j ok. refl;
  find_remove = λ m key j ok. refl;
}

-- The array is full but for the last element.
abbrev regions : Lookup (ℕ → ℕ)
regions = record {
  sbrk_region_count = 1023;
  sbrk_region_current_max = 1024;
  address = 65536;
  sbrk_regions = replicate 1024 blank_region;
  heap_tbl = λ key. if key == 67108864 then 3 else 0;
  mmap_tbl = λ key. 0;
  heap_max = 67108864;
}

regions-IsLookup : IsLookup regions
regions-IsLookup = record {
  inside = omega arith;
  room = length-replicate 1024 blank_region;
  doublings = 0;
  size = refl;
  bound = omega arith;
}

lookup_add_sbrk_region-AddedOrOverflow_example :
    if 1023 + 1 == 2 ^ 30
    then (lookup_add_sbrk_region function_map later_mmap regions 4096 8192 ≡ none)
    else Returns
        (lookup_add_sbrk_region function_map later_mmap regions 4096 8192)
        (Added function_map regions 4096 8192)
unfolding sri_mmap
lookup_add_sbrk_region-AddedOrOverflow_example =
    lookup_add_sbrk_region-AddedOrOverflow function_map regions later_mmap 4096 8192
      regions-IsLookup (λ sz. ground arith) (λ sz. ground arith)
