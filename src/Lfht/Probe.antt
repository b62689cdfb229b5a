-- ===== src/Lfht/Probe.antt =====
-- The operations of lfht.c: the walk of the table, `_lfht_add`, `lfht_add`, `lfht_remove`,
-- `lfht_find`, and the migration.
pub mod Laws
pub mod Update
pub mod Placed
pub mod Steady
pub mod Fresh
pub mod Commands
use sri_glibc_malloc.Base.{
  ℕ, zero, suc, ◌+◌, ◌-◌, ◌%◌, bit_and, Bool, true, false, ◌&&◌, ◌||◌, not, Option, none, some,
  List, [], ◌∷◌, ltb, ◌==◌, if◌then◌else◌, ◌>>=◌, ◌>>◌, assert,
}
use sri_glibc_malloc.Utils.{Mmap, u32_mod, jenkins_hash_ptr}
use sri_glibc_malloc.Lfht.{
  State, Entry, Hdr, Lfht, expanded, tombstone, migrations_per_access, is_assimilated,
  set_assimilated, is_expanding, grow_table,
}

-- Where a walk ends: at an entry without a key, at the key, or where it began
pub data Stop : Type 0 where
  vacant present : ℕ → Stop
  around : Stop

-- The loops `while (true)` of add, remove and find; the key is not 0. `none` is a walk longer than
-- the fuel.
unfoldable pub walk : ℕ → (ℕ → Entry) → ℕ → ℕ → ℕ → ℕ → Option Stop
walk zero table mask j i key = none
walk (suc fuel) table mask j i key =
    let next = bit_and (i + 1) mask in
    let rest = walk fuel table mask j next key in
    if (table i).key == 0
    then some (vacant i)
    else if (table i).key == key
    then some (present i)
    else if next == j
    then some around
    else rest

-- The walk of a header for a key, from its hash on
unfoldable pub probe : Hdr → ℕ → Option Stop
probe h key =
    let j = bit_and (jenkins_hash_ptr key) (h.max - 1) in walk h.max h.table (h.max - 1) j j key

unfoldable pub put : Hdr → ℕ → Entry → Hdr
put h i e = record h { table = λ i'. if i == i' then e else h.table i' }

abbrev pub growing : Mmap → Bool → Lfht → Option (Bool × Lfht)
growing mmap false ht = some (true, ht)
growing mmap true ht = do (grown, ht') ← grow_table mmap ht; some (true, ht')

-- What `_lfht_add` does where its walk ends
abbrev pub add_at : Mmap → Lfht → Hdr → List Hdr → ℕ → ℕ → Stop → Option (Bool × Lfht)
add_at mmap ht h hs key val (vacant i) =
    let count = (h.count + 1) % u32_mod in
    let h' = record (put h i (record { key = key; val = val })) { count = count } in
    growing mmap (ltb h.threshold count) (record ht { hdrs = h' ∷ hs })
add_at mmap ht h hs key val (present i) =
    some (true, record ht { hdrs = put h i (record { key = key; val = val }) ∷ hs })
add_at mmap ht h hs key val around = some (false, ht)

-- `_lfht_add` without the migration
unfoldable pub add_entry : Mmap → Lfht → ℕ → ℕ → Option (Bool × Lfht)
add_entry mmap ht key val = do
  assert (not (key == 0))
  assert (not (is_assimilated key))
  assert (not (val == tombstone))
  elim ht.hdrs [
    | [] ↦ some (false, ht)
    | h ∷ hs ↦ do stop ← probe h key; add_at mmap ht h hs key val stop
  ]

-- One entry of the old header `o`: its key is marked, and it is added to the current header.
unfoldable pub move_entry : Mmap → Lfht → Hdr → Hdr → List Hdr → ℕ → ℕ → Option (ℕ × Lfht)
move_entry mmap ht h o hs i retval =
    let e = o.table i in
    let marked = record ht {
      hdrs = h ∷ put o i (record { key = set_assimilated e.key; val = e.val }) ∷ hs;
    } in
    let added = (do (ok, ht') ← add_entry mmap marked e.key e.val; some (retval + 1, ht')) in
    if not (e.key == 0) && not (is_assimilated e.key)
    then (if not (e.val == tombstone) then added else some (retval, marked))
    else some (retval, ht)

-- The loop of `assimilate`
unfoldable pub assimilate_from : ℕ → Mmap → Lfht → ℕ → ℕ → ℕ → ℕ → ℕ → ℕ → Bool → Option (ℕ × Lfht)
assimilate_from zero mmap ht mask j i key count retval success = none
assimilate_from (suc fuel) mmap ht mask j i key count retval success = elim ht.hdrs [
  | [] ↦ none
  | h ∷ hs ↦ elim hs [
    | [] ↦ none
    | o ∷ rest ↦
        let entry = o.table i in
        let settled = entry.key == 0 || entry.key == set_assimilated key in
        let moveit = not settled && entry.key == key in
        let success' = success || settled || entry.key == key in
        let next = bit_and (i + 1) mask in
        if moveit || ltb retval count
        then (do
          (retval', ht') ← move_entry mmap ht h o rest i retval
          let later = assimilate_from fuel mmap ht' mask j next key count retval' success'
          if next == j then some (retval', ht') else later)
        else (let later = assimilate_from fuel mmap ht mask j next key count retval success' in
            if success' || next == j then some (retval, ht) else later)
  ]
]

unfoldable pub assimilate : Mmap → Lfht → Hdr → ℕ → ℕ → ℕ → Option (ℕ × Lfht)
assimilate mmap ht from_hdr key hash count =
    let mask = from_hdr.max - 1 in
    let j = bit_and hash mask in
    let moved = assimilate_from from_hdr.max mmap ht mask j j key count 0 false in
    if from_hdr.assimilated then some (0, ht) else moved

-- The move has finished.
abbrev pub finish : Lfht → List Hdr → Lfht
finish ht [] = ht
finish ht (h ∷ []) = ht
finish ht (h ∷ o ∷ hs) = record {
  state = expanded;
  hdrs = h ∷ record o { assimilated = true } ∷ hs;
}

abbrev pub migrate_from : Mmap → Lfht → List Hdr → ℕ → ℕ → Option Lfht
migrate_from mmap ht [] key hash = none
migrate_from mmap ht (h ∷ []) key hash = none
migrate_from mmap ht (h ∷ o ∷ hs) key hash = do
  (moved, ht') ← assimilate mmap ht o key hash migrations_per_access
  some (if ltb moved migrations_per_access then finish ht' ht'.hdrs else ht')

unfoldable pub migrate_table : Mmap → Lfht → ℕ → ℕ → Option Lfht
migrate_table mmap ht key hash =
    if is_expanding ht.state then migrate_from mmap ht ht.hdrs key hash else some ht

-- "slow thread last gasp": a single thread that has used an assimilated header would use it again.
abbrev pub current_or_retry : List Hdr → Option Bool
current_or_retry [] = some true
current_or_retry (h ∷ hs) = do assert (not h.assimilated); some true

unfoldable pub lfht_add : Mmap → Lfht → ℕ → ℕ → Option (Bool × Lfht)
lfht_add mmap ht key val = do
  assert (not (key == 0))
  assert (not (is_assimilated key))
  assert (not (val == tombstone))
  ht' ← migrate_table mmap ht key (jenkins_hash_ptr key)
  current ← current_or_retry ht'.hdrs
  add_entry mmap ht' key val

abbrev pub remove_at : Lfht → Hdr → List Hdr → ℕ → Stop → Bool × Lfht
remove_at ht h hs key (present i) =
    (true, record ht { hdrs = put h i (record { key = key; val = tombstone }) ∷ hs })
remove_at ht h hs key stop = (false, ht)

abbrev pub remove_in : Lfht → List Hdr → ℕ → Option (Bool × Lfht)
remove_in ht [] key = some (false, ht)
remove_in ht (h ∷ hs) key = do stop ← probe h key; some (remove_at ht h hs key stop)

unfoldable pub lfht_remove : Mmap → Lfht → ℕ → Option (Bool × Lfht)
lfht_remove mmap ht key =
    let body = (do
      ht' ← migrate_table mmap ht key (jenkins_hash_ptr key)
      current ← current_or_retry ht'.hdrs
      remove_in ht' ht'.hdrs key) in
    if key == 0 then some (false, ht) else body

-- The value, if the key is found
abbrev pub value_at : Hdr → Stop → Option ℕ
value_at h (present i) = some (h.table i).val
value_at h (vacant i) = none
value_at h around = none

abbrev pub find_in : List Hdr → ℕ → Option (Option ℕ)
find_in [] key = some none
find_in (h ∷ hs) key = do stop ← probe h key; some (value_at h stop)

unfoldable pub lfht_find : Mmap → Lfht → ℕ → Option (Option ℕ × Lfht)
lfht_find mmap ht key =
    let body = (do
      ht' ← migrate_table mmap ht key (jenkins_hash_ptr key)
      current ← current_or_retry ht'.hdrs
      found ← find_in ht'.hdrs key
      some (found, ht')) in
    if key == 0 then some (none, ht) else body
