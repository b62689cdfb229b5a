-- ===== src/Lfht.antt =====
-- lfht.c and lfht.h of src/sri-glibc/malloc: the hash table of lookup.c that grows by migration, as
-- one thread runs it. Nobody else writes, so every `cas_64` succeeds, and `table_hdr` is the header
-- that an operation has read. `none` is an assertion that fails, a dereference of `NULL`, or a
-- retry without end.
pub mod Probe
use sri_glibc_malloc.Base.{
  ℕ, zero, suc, ◌+◌, ◌-◌, ◌*◌, ◌/◌, ◌%◌, ◌^◌, bit_and, bit_or, Bool, true, false, ◌&&◌, ◌||◌, not,
  Option, none, some, List, [], ◌∷◌, ltb, ◌==◌, if◌then◌else◌, ◌>>=◌, ◌>>◌, assert,
}
use sri_glibc_malloc.Utils.{Mmap, map_failed, null, u32_mod, jenkins_hash_ptr}

-- `enum tombstone`
abbrev pub tombstone : ℕ
tombstone = 0

abbrev pub max_table_size : ℕ
max_table_size = 0x80000000

abbrev pub key_alignment : ℕ
key_alignment = 0x10

abbrev pub migrations_per_access : ℕ
migrations_per_access = 3

-- lfht_state
pub data State : Type 0 where
  initial expanding expanded : State

pub record Entry : Type 0 where
  pub key : ℕ
  pub val : ℕ

-- lfht_hdr_t; `next` is the header behind it in the list.
pub record Hdr : Type 0 where
  pub address : ℕ
  pub assimilated : Bool
  pub sz : ℕ
  pub max : ℕ
  pub threshold : ℕ
  pub count : ℕ
  pub table : ℕ → Entry

-- lfht_t; the first header is `table_hdr`.
pub record Lfht : Type 0 where
  pub state : State
  pub hdrs : List Hdr

unfoldable pub is_assimilated : ℕ → Bool
is_assimilated key = not (bit_and key (key_alignment - 1) == 0)

unfoldable pub set_assimilated : ℕ → ℕ
set_assimilated key = bit_or key 1

-- `munmap` answers 0 on success.
unfoldable pub free_lfht_hdr : (ℕ → ℕ → ℕ) → Hdr → Bool
free_lfht_hdr munmap h = munmap h.address h.sz == 0

-- `(uint32_t)(max * RESIZE_RATIO)` for a `max` that is a power of two: the double 0.6 is this
-- fraction, and the product with a power of two is exact.
unfoldable pub threshold_of : ℕ → ℕ
threshold_of max = max * 5404319552844595 / 2 ^ 53

-- An entry has 16 bytes and a header 48.
unfoldable pub alloc_lfht_hdr : Mmap → ℕ → Option Hdr
alloc_lfht_hdr mmap max =
    let sz = max * 16 + 48 in
    let addr = mmap 0 sz in
    if addr == map_failed
    then none
    else some (record {
      address = addr;
      assimilated = false;
      sz = sz;
      max = max;
      threshold = threshold_of max;
      count = 0;
      table = λ i. record { key = 0; val = 0 };
    })

abbrev pub with_hdr : Lfht → Option Hdr → Bool × Lfht
with_hdr ht none = (false, ht)
with_hdr ht (some h) = (true, record { state = initial; hdrs = h ∷ [] })

unfoldable pub init_lfht : Mmap → Lfht → ℕ → Bool × Lfht
init_lfht mmap ht max = if max == 0 then (false, ht) else with_hdr ht (alloc_lfht_hdr mmap max)

unfoldable pub free_all : (ℕ → ℕ → ℕ) → List Hdr → Bool
free_all munmap [] = true
free_all munmap (h ∷ hs) = free_lfht_hdr munmap h && free_all munmap hs

unfoldable pub delete_lfht : (ℕ → ℕ → ℕ) → Lfht → Option (Bool × Lfht)
delete_lfht munmap ht = do assert (free_all munmap ht.hdrs); some (true, record ht { hdrs = [] })

abbrev pub is_expanding : State → Bool
is_expanding initial = false
is_expanding expanding = true
is_expanding expanded = false

abbrev pub none_or_assimilated : List Hdr → Bool
none_or_assimilated [] = true
none_or_assimilated (h ∷ hs) = h.assimilated

abbrev pub grow_with : Lfht → List Hdr → Option Hdr → Option (Bool × Lfht)
grow_with ht behind none = some (false, ht)
grow_with ht behind (some n) = do
  assert (not (is_expanding ht.state))
  assert (none_or_assimilated behind)
  some (true, record { state = expanding; hdrs = n ∷ ht.hdrs })

unfoldable pub grow_table : Mmap → Lfht → Option (Bool × Lfht)
grow_table mmap ht = elim ht.hdrs [
  | [] ↦ none
  | h ∷ behind ↦
      if ltb h.max max_table_size
      then grow_with ht behind (alloc_lfht_hdr mmap (2 * h.max % u32_mod))
      else some (false, ht)
]
