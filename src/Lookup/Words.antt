-- ===== src/Lookup/Words.antt =====
-- The tables of lookup.c filled by lfht.c.
use sri_glibc_malloc.Base.{
  ℕ, ◌+◌, ◌%◌, ◌^◌, ◌<◌, ◌≡◌, inl, inr, sym, ◌∙◌, ap, false, true, some, ◌&&◌, ltb, leb,
  if◌then◌else◌, Bool-cases, Returns, ◌⊎◌, eq_of_some,
}
use sri_glibc_malloc.Utils.{Mmap}
use sri_glibc_malloc.Lfht.{Lfht}
use sri_glibc_malloc.Lfht.Probe.{lfht_add, lfht_remove}
use sri_glibc_malloc.Lookup.{Lookup, WordMap, lookup_arena_index, lookup_add_heap}
use sri_glibc_malloc.Lookup.Owner.{owner, in_region, mmap_val, heap_val}
use sri_glibc_malloc.Lookup.Heap.{lookup_arena_index-lookup_add_heap}
use sri_glibc_malloc.Lookup.Tables.{
  Steady, takes, can_add, find, added, removed, add_if, remove_if, find-add_if, find-remove_if,
  table-after_call, can_add_lem,
}

module _ (mmap : Mmap) where
  -- The tables of lookup.c, as lfht.c's
  unfoldable pub lfht_words : WordMap Steady
  lfht_words = record {
    find = find mmap;
    add = λ m key val. add_if mmap m key val (Bool-cases (can_add mmap m key val));
    remove = λ m key. remove_if mmap m key (Bool-cases (takes key));
    find_add =
        λ m key val j did. find-add_if mmap m key val (Bool-cases (can_add mmap m key val)) j did;
    find_remove = λ m key j did. find-remove_if mmap m key (Bool-cases (takes key)) j did;
  }

  -- What these tables do is what lfht.c does: where `lfht_words.add` does not refuse, it returns what
  -- `lfht_add` returns, and its table is the one that `lfht_add` leaves.
  lfht_add-add_if :
      (m : Steady) (key val : ℕ)
      (d : (can_add mmap m key val ≡ true) ⊎ (can_add mmap m key val ≡ false))
      → can_add mmap m key val ≡ true
      → lfht_add mmap m.table key val
        ≡ some ((add_if mmap m key val d).0, ((add_if mmap m key val d).1).table)
  lfht_add-add_if m key val (inl can) good =
      let (r, run, (Without, said)) = added mmap m key val can in
      run ∙ ap (λ t. some (r.0, t)) (sym (table-after_call mmap m key val Without (r.0) (r.1) said))
  lfht_add-add_if m key val (inr cannot) good = cc

  lfht_remove-remove_if :
      (m : Steady) (key : ℕ) (d : (takes key ≡ true) ⊎ (takes key ≡ false))
      → takes key ≡ true
      → lfht_remove mmap m.table key
        ≡ some ((remove_if mmap m key d).0, ((remove_if mmap m key d).1).table)
  lfht_remove-remove_if m key (inl can) good =
      let (r, run, (Without, said)) = removed mmap m key can in
      run ∙ ap (λ t. some (r.0, t)) (sym (table-after_call mmap m key 0 Without (r.0) (r.1) said))
  lfht_remove-remove_if m key (inr cannot) good = cc

  -- The calls through the interface are those of lfht.c, in a table that is not expanding: for a key
  -- that is not 0 and not marked, `remove` returns what `lfht_remove` returns, and `add` what
  -- `lfht_add` returns, where the value is not `TOMBSTONE` and there is room for one key more below
  -- the threshold; the tables are those that the calls of lfht.c leave.
  pub lfht_words-Calls :
      (m : Steady) (key val : ℕ)
      → takes key ≡ true
      → (lfht_remove mmap m.table key
          ≡ some ((lfht_words.remove m key).0, ((lfht_words.remove m key).1).table))
        × (can_add mmap m key val ≡ true
            → lfht_add mmap m.table key val
              ≡ some ((lfht_words.add m key val).0, ((lfht_words.add m key val).1).table))
  unfolding lfht_words
  lfht_words-Calls m key val taken = (
    lfht_remove-remove_if m key (Bool-cases (takes key)) taken,
    lfht_add-add_if m key val (Bool-cases (can_add mmap m key val)),
  )

  taken_key : (m : Steady) (key val : ℕ) → can_add mmap m key val ≡ true → takes key ≡ true
  taken_key m key val can = (can_add_lem mmap m key val can).0

  -- Let the tables of lookup.c be tables of lfht.c that are not expanding, whose keys stand in their
  -- places, let `heap_max` be a power of two, and let `lfht_add` return true for a heap that is
  -- aligned to it, not 0 and not marked, and an `index` that is not `TOMBSTONE`, with room for one
  -- key more below the threshold. Then `lookup_add_heap` returns true, and `lookup_arena_index` finds
  -- `index` for the pointers from `heap` to below `heap + heap_max` that lie in no region and are not
  -- mmapped, and for every other 64-bit pointer what it found before.
  pub lookup_arena_index-lfht_add :
      (l : Lookup Steady) (k heap index ptr : ℕ) (ht' : Lfht)
      → l.heap_max ≡ 2 ^ k
      → k < 64
      → heap % 2 ^ k ≡ 0
      → ptr < 2 ^ 64
      → can_add mmap l.heap_tbl heap index ≡ true
      → lfht_add mmap l.heap_tbl.table heap index ≡ some (true, ht')
      → Returns (lookup_add_heap lfht_words l heap index) (λ r.
        (r.0 ≡ true)
        × (lookup_arena_index lfht_words r.1 ptr
            ≡ owner (in_region lfht_words l ptr) (mmap_val lfht_words l ptr) (
                if leb heap ptr && ltb ptr (heap + 2 ^ k)
                then index
                else heap_val lfht_words l ptr)))
  lookup_arena_index-lfht_add l k heap index ptr ht' size h aligned small can run =
      let calls = lfht_words-Calls l.heap_tbl heap index (taken_key l.heap_tbl heap index can) in
      let same = eq_of_some _ _ (sym run ∙ calls.1 can) in
      lookup_arena_index-lookup_add_heap lfht_words l k heap index ptr size h aligned small
        (sym (ap (λ r. r.0) same))
