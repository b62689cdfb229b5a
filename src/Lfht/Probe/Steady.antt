-- ===== src/Lfht/Probe/Steady.antt =====
-- `lfht_add`, `lfht_remove` and `lfht_find` in a table that is not expanding.
use sri_glibc_malloc.Base.{
  ℕ, ◌+◌, ◌%◌, ◌^◌, ◌≤◌, ◌≡◌, ◌≢◌, inl, inr, refl, sym, ◌∙◌, ap, false, true, Bool, Option, some,
  none, ◌∷◌, List, ◌==◌, ltb, arith, assert, not, ◌⊎◌, ◌>>=◌, Returns,
}
use mathlib.Core.Path.{fun_ext}
use native.Mathlib.Nat.{mod-le}
use sri_glibc_malloc.Utils.{Mmap, u32_mod, jenkins_hash_ptr}
use sri_glibc_malloc.Lfht.{Hdr, Lfht, is_assimilated, is_expanding, tombstone}
use sri_glibc_malloc.Lfht.Probe.{
  Stop, vacant, present, around, probe, put, value_at, find_in, lfht_find, lfht_add, lfht_remove,
  add_at, remove_at, add_entry, migrate_table,
}
use sri_glibc_malloc.Lfht.Probe.Laws.{Ends, probe-Ends}
use sri_glibc_malloc.Lfht.Probe.Update.{new_entry, find_in-put, find_in-put_other}
use sri_glibc_malloc.Lfht.Probe.Placed.{
  IsPlaced, put_new-IsPlaced, put_same-IsPlaced, find_in-put_new, count-IsPlaced,
}

-- The table is not expanding, and `h` is its header, of 2 ^ e entries and in use.
pub record IsSteady (e : ℕ) (h : Hdr) (hs : List Hdr) (ht : Lfht) : Type 0 where
  pub hdrs : ht.hdrs ≡ h ∷ hs
  pub settled : is_expanding ht.state ≡ false
  pub current : h.assimilated ≡ false
  pub size : h.max ≡ 2 ^ e
  pub placed : IsPlaced h

-- What `lfht_find` answers
abbrev pub found_of : Mmap → Lfht → ℕ → Option (Option ℕ)
found_of mmap ht k = do r ← lfht_find mmap ht k; some (r.0)

-- The key has the value, and every other key what it had.
abbrev pub Stored : Mmap → Lfht → Lfht → ℕ → ℕ → Type 0
Stored mmap ht ht' key val =
    (found_of mmap ht' key ≡ some (some val))
    × ((k : ℕ)
        → k ≢ 0
        → is_assimilated k ≡ false
        → k ≢ key
        → found_of mmap ht' k ≡ found_of mmap ht k)

-- The count of a header is not read.
value_at-count :
    (h : Hdr) (c : ℕ) (stop : Stop) → value_at (record h { count = c }) stop ≡ value_at h stop
value_at-count h c (vacant i) = refl
value_at-count h c (present i) = refl
value_at-count h c around = refl

find_in-count :
    (h : Hdr) (c : ℕ) (hs : List Hdr) (k : ℕ)
    → find_in (record h { count = c } ∷ hs) k ≡ find_in (h ∷ hs) k
unfolding probe
find_in-count h c hs k = rw (fun_ext (λ stop. value_at-count h c stop)) refl

module _ (mmap : Mmap) (e : ℕ) (h : Hdr) (hs : List Hdr) (ht : Lfht) (is : IsSteady e h hs ht) where
  pub found_of_lem : (k : ℕ) → k ≢ 0 → found_of mmap ht k ≡ find_in (h ∷ hs) k
  unfolding lfht_find migrate_table
  found_of_lem k nonzero =
      let live : (k == 0) ≡ false = ground arith in
      let (stop, run, end) = probe-Ends h e k is.size in
      rw (live, is.settled, is.hdrs, run, is.current) refl

abbrev stored_hdr : Hdr → ℕ → ℕ → ℕ → ℕ → Hdr
stored_hdr h i key val c = record (put h i (record { key = key; val = val })) { count = c }

abbrev stored : Lfht → Hdr → List Hdr → ℕ → ℕ → ℕ → ℕ → Lfht
stored ht h hs i key val c = record ht { hdrs = stored_hdr h i key val c ∷ hs }

module _ (e : ℕ) (h : Hdr) (hs : List Hdr) (ht : Lfht) (is : IsSteady e h hs ht) (key val i : ℕ)
    (nonzero : key ≢ 0) (live : is_assimilated key ≡ false)
    (ends : (probe h key ≡ some (vacant i)) ⊎ (probe h key ≡ some (present i))) (c : ℕ) where
  abbrev there : Hdr
  there = put h i (new_entry h hs key val)

  placed-after : (probe h key ≡ some (vacant i)) ⊎ (probe h key ≡ some (present i)) → IsPlaced there
  placed-after (inl free) = put_new-IsPlaced h key val i free nonzero is.placed
  placed-after (inr here) = put_same-IsPlaced h key val i here is.placed

  stored-IsSteady : IsSteady e (stored_hdr h i key val c) hs (stored ht h hs i key val c)
  unfolding put
  stored-IsSteady = record {
    hdrs = refl;
    settled = is.settled;
    current = is.current;
    size = is.size;
    placed = count-IsPlaced _ c (placed-after ends);
  }

  find_in-other :
      (k : ℕ)
      → k ≢ 0
      → is_assimilated k ≡ false
      → k ≢ key
      → (probe h key ≡ some (vacant i)) ⊎ (probe h key ≡ some (present i))
      → find_in (there ∷ hs) k ≡ find_in (h ∷ hs) k
  find_in-other k full good other (inl free) =
      find_in-put_new h key val i free e k is.size full good other is.placed hs
  find_in-other k full good other (inr here) = find_in-put_other h hs key val i k here other

  module _ (mmap : Mmap) where
    found_after :
        (k : ℕ) → k ≢ 0 → found_of mmap (stored ht h hs i key val c) k ≡ find_in (there ∷ hs) k
    found_after k full =
        found_of_lem mmap e _ hs _ stored-IsSteady k full ∙ find_in-count there c hs k

    stored-Stored : Stored mmap ht (stored ht h hs i key val c) key val
    stored-Stored = (
      found_after key nonzero ∙ find_in-put h hs key val i nonzero ends,
      λ k full good other.
          found_after k full
          ∙ find_in-other k full good other ends
          ∙ sym (found_of_lem mmap e h hs ht is k full),
    )

-- What `lfht_add` and `lfht_remove` make of a table that is not expanding: the value is stored, in
-- at most one entry more, or, where `Without` holds, nothing happens.
abbrev pub StoredOr : Mmap → ℕ → Hdr → List Hdr → Lfht → ℕ → ℕ → Type 0 → Bool → Lfht → Type 0
StoredOr mmap e h hs ht key val Without true ht' =
    (h' : Hdr) × IsSteady e h' hs ht'
    × Stored mmap ht ht' key val
    × (h'.threshold ≡ h.threshold)
    × (h'.count ≤ h.count + 1)
StoredOr mmap e h hs ht key val Without false ht' = (ht' ≡ ht) × Without

module _ (mmap : Mmap) (e : ℕ) (h : Hdr) (hs : List Hdr) (ht : Lfht) (is : IsSteady e h hs ht)
    (key : ℕ) (nonzero : key ≢ 0) (live : is_assimilated key ≡ false) where
  migrate-steady : migrate_table mmap ht key (jenkins_hash_ptr key) ≡ some ht
  unfolding migrate_table
  migrate-steady = rw is.settled refl

  in_use : assert (not h.assimilated) ≡ assert true
  in_use = ap (λ b. assert (not b)) is.current

  abbrev start : ℕ
  start = jenkins_hash_ptr key % 2 ^ e

  add_at-StoredOr :
      (val : ℕ) (stop : Stop)
      → ltb h.threshold ((h.count + 1) % u32_mod) ≡ false
      → probe h key ≡ some stop
      → Ends e h.table start key stop
      → Returns
          (add_at mmap ht h hs key val stop)
          (λ r. StoredOr mmap e h hs ht key val (Ends e h.table start key around) (r.0) (r.1))
  unfolding put
  add_at-StoredOr val (vacant i) room run end =
      let count = (h.count + 1) % u32_mod in
      (
        (true, stored ht h hs i key val count),
        rw room refl,
        (
          stored_hdr h i key val count,
          stored-IsSteady e h hs ht is key val i nonzero live (inl run) count,
          stored-Stored e h hs ht is key val i nonzero live (inl run) count mmap,
          refl,
          mod-le (h.count + 1) u32_mod,
        ),
      )
  add_at-StoredOr val (present i) room run end = (
    (true, stored ht h hs i key val h.count),
    refl,
    (
      stored_hdr h i key val h.count,
      stored-IsSteady e h hs ht is key val i nonzero live (inr run) h.count,
      stored-Stored e h hs ht is key val i nonzero live (inr run) h.count mmap,
      refl,
      omega arith,
    ),
  )
  add_at-StoredOr val around room run end = ((false, ht), refl, (refl, end))

  -- In a table that is not expanding, whose keys stand in their places, with room for one key more
  -- below the threshold, `lfht_add` of a key that is not 0 and not marked, with a value that is not
  -- `TOMBSTONE`, returns. If true, `lfht_find` finds the value, and for every other key what it
  -- found before; the table is again such a table, with the same threshold and at most one key more.
  -- If false, every entry has another key and nothing has changed.
  pub lfht_add-StoredOr :
      (val : ℕ)
      → val ≢ tombstone
      → ltb h.threshold ((h.count + 1) % u32_mod) ≡ false
      → Returns
          (lfht_add mmap ht key val)
          (λ r. StoredOr mmap e h hs ht key val (Ends e h.table start key around) (r.0) (r.1))
  unfolding lfht_add add_entry
  lfht_add-StoredOr val some_value room =
      let (stop, run, end) = probe-Ends h e key is.size in
      let (r, add, said) = add_at-StoredOr val stop room run end in
      let full : (key == 0) ≡ false = ground arith in
      let kept : (val == 0) ≡ false = ground arith in
      (r, rw (full, live, kept, migrate-steady, is.hdrs, in_use, run) add, said)

  absent :
      (stop : Stop)
      → probe h key ≡ some stop
      → value_at h stop ≡ none
      → found_of mmap ht key ≡ some none
  absent stop run gone = found_of_lem mmap e h hs ht is key nonzero ∙ rw (run, gone) refl

  remove_at-StoredOr :
      (stop : Stop)
      → probe h key ≡ some stop
      → StoredOr mmap e h hs ht key tombstone
          (found_of mmap ht key ≡ some none)
          ((remove_at ht h hs key stop).0)
          ((remove_at ht h hs key stop).1)
  unfolding put
  remove_at-StoredOr (present i) run = (
    stored_hdr h i key tombstone h.count,
    stored-IsSteady e h hs ht is key tombstone i nonzero live (inr run) h.count,
    stored-Stored e h hs ht is key tombstone i nonzero live (inr run) h.count mmap,
    refl,
    omega arith,
  )
  remove_at-StoredOr (vacant i) run = (refl, absent (vacant i) run refl)
  remove_at-StoredOr around run = (refl, absent around run refl)

  -- In a table that is not expanding, whose keys stand in their places, `lfht_remove` of a key that
  -- is not 0 and not marked returns. If true, `lfht_find` finds `TOMBSTONE` under the key, and for
  -- every other key what it found before; the table is again such a table, with the same threshold.
  -- If false, `lfht_find` did not find the key, and nothing has changed.
  pub lfht_remove-StoredOr :
      Returns
        (lfht_remove mmap ht key)
        (λ r. StoredOr mmap e h hs ht key tombstone (found_of mmap ht key ≡ some none) (r.0) (r.1))
  unfolding lfht_remove
  lfht_remove-StoredOr =
      let (stop, run, end) = probe-Ends h e key is.size in
      let full : (key == 0) ≡ false = ground arith in
      (
        remove_at ht h hs key stop,
        rw (full, migrate-steady, is.hdrs, in_use, run) refl,
        remove_at-StoredOr stop run,
      )
