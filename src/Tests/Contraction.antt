-- ===== src/Tests/Contraction.antt =====
-- Runs of the contraction of metadata.c, on a table that has doubled once.
use sri_glibc_malloc.Base.{
  ◌≤◌, ℕ, zero, suc, ◌/◌, ◌<◌, ◌≡◌, ◌==◌, inl, inr, refl, none, some, [], ◌∷◌, if◌then◌else◌, arith,
  Returns, Bool-cases,
}
use sri_glibc_malloc.Utils.{sri_mmap}
use sri_glibc_malloc.Memcxt.{Slot, Pool}
use sri_glibc_malloc.Memcxt.Masks.{zeros}
use sri_glibc_malloc.Memcxt.Slots.{in_masks, free_bits, IsPool}
use sri_glibc_malloc.Memcxt.Chain.{in_use}
use sri_glibc_malloc.Memcxt.Laws.{segment_used}
use sri_glibc_malloc.Metadata.{Metadata}
use sri_glibc_malloc.Metadata.Store.{IsStore, Holds, bin_at}
use sri_glibc_malloc.Metadata.Store.Table.{IsTable}
use sri_glibc_malloc.Metadata.Expand.Correct.{Kept}
use sri_glibc_malloc.Metadata.Contract.{metadata_contract_table, metadata_contract_check}
use sri_glibc_malloc.Metadata.Contract.Correct.{Contracted}
use sri_glibc_malloc.Metadata.Contract.Table.{
  CanContract, metadata_contract_table-Contracted, metadata_contract_check-Kept,
}
use sri_glibc_malloc.Metadata.Chunk.{chunk_table}
use sri_glibc_malloc.Tests.{later_mmap}

abbrev slot_at : ℕ → Slot
slot_at i = record { pool = 65536; index = i }

abbrev two_used : Pool
two_used = record { base = 65536; bitmasks = 3 ∷ 0 ∷ 0 ∷ 0 ∷ 0 ∷ 0 ∷ 0 ∷ 0 ∷ []; free_count = 510 }

abbrev doubled : Metadata
doubled = record {
  memcxt = record { segments = two_used ∷ []; buckets = [] };
  directory = 4096;
  entries = λ i. if i == 0 then some (slot_at 0) else if i == 1 then some (slot_at 1) else none;
  bins = λ s j. [];
  directory_length = 1024;
  directory_current = 2;
  minimum = 256;
  doublings = 1;
  p = 0;
  count = 0;
  maxp = 512;
  bincount = 512;
}

two_used-IsPool : IsPool 8 two_used
unfolding free_bits zeros
two_used-IsPool = record {
  words = (
    omega arith,
    (
      omega arith,
      (omega arith, (omega arith, (omega arith, (omega arith, (omega arith, (omega arith, tt)))))),
    ),
  );
  width = refl;
  counted = refl;
}

filled : (i : ℕ) → i < 2 → Holds doubled i
unfolding segment_used in_use in_masks
filled zero h = (slot_at 0, refl, refl, omega arith)
filled (suc zero) h = (slot_at 1, refl, refl, omega arith)
filled (suc (suc i)) h = absurd (omega arith)

no_bucket : (i : ℕ) → bin_at doubled i ≡ []
unfolding bin_at
no_bucket i = elim (Bool-cases (i / 256 == 0)) [
  | inl e ↦ rw e
  | inr e ↦ elim (Bool-cases (i / 256 == 1)) [ inl e' ↦ rw (e, e') | inr e' ↦ rw (e, e') ]
]

doubled-IsStore : IsStore doubled
doubled-IsStore = record {
  memcxt = record { segments = (two_used-IsPool, tt, tt); ready = refl; buckets = tt };
  filled = filled;
  beyond = λ i h. ground arith;
  distinct = λ i j s r e e' same. ground arith;
  clean = λ s j h u. refl;
  capacity = omega arith;
  length_bound = omega arith;
}

doubled-IsTable : IsTable doubled
doubled-IsTable = record {
  sized = record { small = omega arith; limit = refl; below = omega arith; bins = refl };
  store = doubled-IsStore;
  current = refl;
  placed = λ i. rw (no_bucket i) tt;
}

doubled-CanContract : CanContract later_mmap doubled
unfolding sri_mmap
doubled-CanContract = record { apart = λ sz. ground arith; mapped = λ sz. ground arith }

metadata_contract_table-Contracted_example :
    Returns (metadata_contract_table later_mmap doubled) (Contracted doubled)
metadata_contract_table-Contracted_example =
    metadata_contract_table-Contracted doubled doubled-IsTable later_mmap doubled-CanContract
      (omega arith)

metadata_contract_check-Kept_example :
    Returns
      (metadata_contract_check later_mmap doubled)
      (λ t'. Kept doubled t' × (t'.bincount ≤ doubled.bincount))
metadata_contract_check-Kept_example =
    metadata_contract_check-Kept doubled doubled-IsTable later_mmap doubled-CanContract
