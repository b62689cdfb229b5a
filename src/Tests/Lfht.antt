-- ===== src/Tests/Lfht.antt =====
-- Runs of the table of lfht.c.
use sri_glibc_malloc.Base.{
  ℕ, ◌∙◌, ap, sym, ◌≤◌, ◌≢◌, none, List, Bool-cases, ==_true, inr, true, ◌≡◌, ◌^◌, ◌%◌, ◌==◌, inl,
  refl, some, [], ◌∷◌, false, arith, if◌then◌else◌, Returns, replicate, leb, ltb, ◌&&◌, ◌+◌,
}
use sri_glibc_malloc.Utils.{Mmap, jenkins_hash_ptr}
use sri_glibc_malloc.Lfht.{
  Entry, Hdr, Lfht, initial, is_assimilated, init_lfht, alloc_lfht_hdr, threshold_of,
}
use sri_glibc_malloc.Lfht.Probe.{
  present, walk, probe, add_entry, put, lfht_find, lfht_add, lfht_remove, migrate_table, around,
}
use sri_glibc_malloc.Lfht.Probe.Laws.{Ends, probe-Ends}
use sri_glibc_malloc.Lfht.Probe.Steady.{
  IsSteady, StoredOr, lfht_add-StoredOr, lfht_remove-StoredOr, found_of,
}
use sri_glibc_malloc.Lfht.Probe.Commands.{
  Command, add, remove, run_commands, AreGood, last_value, run_commands-init_lfht,
}
use sri_glibc_malloc.Lookup.{Lookup, blank_region, lookup_arena_index, lookup_add_heap}
use sri_glibc_malloc.Lookup.Owner.{owner, in_region, mmap_val, heap_val}
use sri_glibc_malloc.Lookup.Tables.{Steady, can_add}
use sri_glibc_malloc.Lookup.Words.{lfht_words, lookup_arena_index-lfht_add}

abbrev four : (ℕ → Entry) → Hdr
four table = record {
  address = 4096;
  assimilated = false;
  sz = 112;
  max = 4;
  threshold = 2;
  count = 1;
  table = table;
}

abbrev entry : ℕ → ℕ → Entry
entry key val = record { key = key; val = val }

-- The keys 16 and 32 both start at index 3.
abbrev one_entry : ℕ → Entry
one_entry i = if i == 3 then entry 16 5 else entry 0 0

probe-Ends_example :
    Returns (probe (four one_entry) 32) (Ends 2 one_entry (jenkins_hash_ptr 32 % 2 ^ 2) 32)
probe-Ends_example = probe-Ends (four one_entry) 2 32 refl

abbrev small : Lfht
small = record { state = initial; hdrs = four one_entry ∷ [] }

-- A lookup through the whole operation
found : lfht_find (λ hint size. 8192) small 16 ≡ some (some 5, small)
unfolding lfht_find probe walk jenkins_hash_ptr migrate_table
found = refl

abbrev system : Mmap
system hint size = 8192

found_at_3 : probe (four one_entry) 16 ≡ some (present 3)
unfolding probe walk jenkins_hash_ptr
found_at_3 = refl

one_placed :
    (i : ℕ) → (one_entry i).key ≢ 0 → probe (four one_entry) (one_entry i).key ≡ some (present i)
one_placed i full = elim (Bool-cases (i == 3)) [
  | inl here ↦ rw here (found_at_3 ∙ ap (λ n. some (present n)) (sym (==_true i 3 here)))
  | inr other ↦ absurd (full (rw other refl))
]

small-IsSteady : IsSteady 2 (four one_entry) [] small
small-IsSteady = record {
  hdrs = refl;
  settled = refl;
  current = refl;
  size = refl;
  placed = record { found = λ i full live. one_placed i full };
}

-- Both keys are not marked.
aligned : (is_assimilated 16 ≡ false) × (is_assimilated 32 ≡ false)
unfolding is_assimilated
aligned = (refl, refl)

lfht_add-StoredOr_example : Returns (lfht_add system small 32 9) (λ r.
    StoredOr system 2
      (four one_entry)
      []
      small
      32
      9
      (Ends 2 one_entry (jenkins_hash_ptr 32 % 2 ^ 2) 32 around)
      (r.0)
      (r.1))
lfht_add-StoredOr_example =
    lfht_add-StoredOr system 2 (four one_entry) [] small small-IsSteady 32 (omega arith) aligned.1 9
      (omega arith) refl

lfht_remove-StoredOr_example : Returns (lfht_remove system small 16) (λ r.
    StoredOr system 2
      (four one_entry)
      []
      small
      16
      0
      (found_of system small 16 ≡ some none)
      (r.0)
      (r.1))
lfht_remove-StoredOr_example =
    lfht_remove-StoredOr system 2 (four one_entry) [] small small-IsSteady 16 (omega arith)
      aligned.0

abbrev calls : List Command
calls = add 16 5 ∷ add 32 9 ∷ remove 16 ∷ add 16 7 ∷ []

calls-AreGood : AreGood calls
calls-AreGood = (
  (omega arith, aligned.0, omega arith),
  (
    (omega arith, aligned.1, omega arith),
    ((omega arith, aligned.0), ((omega arith, aligned.0, omega arith), tt)),
  ),
)

made : (init_lfht system small 8).0 ≡ true
unfolding init_lfht alloc_lfht_hdr
made = refl

four_fit : 4 ≤ threshold_of 8
unfolding threshold_of
four_fit = omega arith

run_commands-init_lfht_example :
    Returns (run_commands system ((init_lfht system small 8).1) calls) (λ r.
      (k : ℕ)
      → k ≢ 0
      → is_assimilated k ≡ false
      → found_of system (r.1) k ≡ some (last_value k calls (r.0) none))
run_commands-init_lfht_example =
    run_commands-init_lfht system system 3 small calls made calls-AreGood four_fit (omega arith)

abbrev words : Steady
words = record {
  exponent = 2;
  table = small;
  header = four one_entry;
  behind = [];
  is = small-IsSteady;
}

-- A heap at 2 ^ 27 starts at index 3, as the key 16 does.
abbrev with_heap : Lfht
with_heap = record {
  state = initial;
  hdrs = record (four (λ i. if 0 == i then entry 134217728 5 else one_entry i)) { count = 2 } ∷ [];
}

heap_added : lfht_add system small 134217728 5 ≡ some (true, with_heap)
unfolding lfht_add add_entry probe walk jenkins_hash_ptr put migrate_table is_assimilated
heap_added = refl

abbrev arenas : Lookup Steady
arenas = record {
  sbrk_region_count = 0;
  sbrk_region_current_max = 1024;
  address = 65536;
  sbrk_regions = replicate 1024 blank_region;
  heap_tbl = words;
  mmap_tbl = words;
  heap_max = 67108864;
}

-- The interface finds what `lfht_find` finds.
finds_5 : (lfht_words system).find words 16 ≡ 5
unfolding lfht_words lfht_find migrate_table probe walk jenkins_hash_ptr is_assimilated
finds_5 = refl

heap_fits : can_add system words 134217728 5 ≡ true
unfolding is_assimilated
heap_fits = refl

lookup_arena_index-lfht_add_example :
    Returns (lookup_add_heap (lfht_words system) arenas 134217728 5) (λ r.
      (r.0 ≡ true)
      × (lookup_arena_index (lfht_words system) r.1 134300000
          ≡ owner
              (in_region (lfht_words system) arenas 134300000)
              (mmap_val (lfht_words system) arenas 134300000)
              (if leb 134217728 134300000 && ltb 134300000 (134217728 + 2 ^ 26)
                then 5
                else heap_val (lfht_words system) arenas 134300000)))
lookup_arena_index-lfht_add_example =
    lookup_arena_index-lfht_add system arenas 26 134217728 5 134300000 with_heap refl (omega arith)
      refl (omega arith) heap_fits heap_added
