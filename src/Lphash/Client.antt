-- ===== src/Lphash/Client.antt =====
-- The table of src/lphash/lphash.c as the replay uses it: it fills the replay's interface, on a
-- system that always maps memory. Addresses are natural numbers here, with no greatest one, so that
-- there can always be a new one.
use sri_glibc_malloc.Base.{
  ℕ, suc, ◌+◌, ◌^◌, ◌≤◌, ◌<◌, ◌⊎◌, ◌≡◌, refl, ap, ◌∙◌, Bool, true, false, ◌&&◌, Option, none, some,
  ◌==◌, leb, ltb, arith, Bool-cases, inl, inr, Returns,
}
use mathlib.Core.Path.{fun_ext}
use sri_glibc_malloc.Utils.{Mmap}
use sri_glibc_malloc.Memcxt.Laws.{SegmentsFresh, BucketsFresh, Refused}
use sri_glibc_malloc.Metadata.Store.Live.{one}
use sri_glibc_malloc.Metadata.Store.Table.{IsTable, IsCounted}
use sri_glibc_malloc.Metadata.Expand.Directory.{IsApart}
use sri_glibc_malloc.Metadata.Client.Inserted.{Inserted}
use sri_glibc_malloc.Lphash.{Lphash, lphash_insert, lphash_lookup, lphash_delete, delete_lphash}
use sri_glibc_malloc.Memcxt.{Memcxt}
use sri_glibc_malloc.Metadata.Teardown.Released.{delete_metadata-Freed}
use sri_glibc_malloc.Lphash.Table.{pointer_table}
use sri_glibc_malloc.Lphash.Inserted.{InsertedValueOr, lphash_insert-InsertedValueOr}
use sri_glibc_malloc.Lphash.Values.{values, values_of, lphash_lookup-top, lphash_delete-popped}
use sri_glibc_malloc.Replay.Table.{PointerTable, top, pushed, popped}

values-Inserted :
    (t t' : Lphash) (key value : ℕ) (i : Inserted t key t')
    → i.bucket.fields.value ≡ value
    → (j : ℕ) → values_of t' j ≡ pushed (values_of t) key value j
unfolding values_of
values-Inserted t t' key value i same j = elim (Bool-cases (key == j)) [
  | inl e ↦ ap values (i.chunks j) ∙ rw (e, same)
  | inr e ↦ ap values (i.chunks j) ∙ rw e
]

-- What the system grants to a table: it refuses no mapping, and maps nothing over what is mapped.
pub record Grants (mmap : Mmap) (t : Lphash) : Type 0 where
  pub segments : SegmentsFresh mmap t.memcxt
  pub buckets : BucketsFresh mmap t.memcxt
  pub apart : IsApart mmap t
  pub mapped : ¬ (Refused mmap)

-- A table of a client, with its invariant and its books
pub record Handle : Type 0 where
  pub table : Lphash
  pub is : IsTable table
  pub books : IsCounted table

module _ (system : Lphash → Mmap)
    (grants : (t : Lphash) → IsTable t → IsCounted t → Grants (system t) t) where
  abbrev within : Lphash → Bool
  within t = leb (t.bincount + 256) (2 ^ 31) && ltb (t.count + 1) (2 ^ 64)

  -- The next `n` insertions find at most 2 ^ 31 - 256 bins, and stay below 2 ^ 64 - 1 buckets.
  abbrev Room : Handle → ℕ → Type 0
  Room h n = (h.table.bincount + n + 255 ≤ 2 ^ 31) × (h.table.count + n < 2 ^ 64)

  inserted :
      (h : Handle) (key value : ℕ)
      → within h.table ≡ true
      → Returns
          (lphash_insert (system h.table) h.table key value)
          (InsertedValueOr (system h.table) h.table key value)
  inserted h key value inside =
      let g = grants h.table h.is h.books in
      lphash_insert-InsertedValueOr (system h.table) h.table h.is h.books
        (record { fresh = g.segments; apart = g.apart; few = ground arith }) g.buckets
        (ground arith) key value

  -- On such a system the insertion succeeds.
  pub record InsertedTrue (h : Handle) (key value : ℕ) (h' : Handle) : Type 0 where
    pub run : lphash_insert (system h.table) h.table key value ≡ some (true, h'.table)
    pub values : (j : ℕ) → values_of h'.table j ≡ pushed (values_of h.table) key value j
    pub bins : h'.table.bincount ≤ h.table.bincount + 1
    pub count : h'.table.count ≡ h.table.count + 1

  pub insert_lem :
      (h : Handle) (key value : ℕ)
      → within h.table ≡ true
      → (h' : Handle) × InsertedTrue h key value h'
  insert_lem h key value inside = go (inserted h key value inside)
    where
      go :
          Returns
            (lphash_insert (system h.table) h.table key value)
            (InsertedValueOr (system h.table) h.table key value)
          → (h' : Handle) × InsertedTrue h key value h'
      go ((ok, t'), run, inl (failed, same, refused)) =
          absurd ((grants h.table h.is h.books).mapped refused)
      go ((false, t'), run, inr (i, same, step)) =
          absurd ((grants h.table h.is h.books).mapped (step.blame refl))
      go ((true, t'), run, inr (i, same, step)) = (
        record { table = t'; is = i.table; books = i.books },
        record {
          run = run;
          values = values-Inserted h.table t' key value i same;
          bins = step.bins;
          count = omega (arith, i.books.counted, i.totals one, h.books.counted);
        },
      )

  pub lookup_lem :
      (h : Handle) (key : ℕ)
      → Returns (lphash_lookup h.table key) (λ v. v ≡ top (values_of h.table key))
  lookup_lem h key = (top (values_of h.table key), lphash_lookup-top h.table key h.is, refl)

  -- What a deletion leaves
  pub record DeletedFrom (h : Handle) (key : ℕ) (ok : Bool) (h' : Handle) : Type 0 where
    pub run : lphash_delete (system h.table) h.table key ≡ some (ok, h'.table)
    pub values : (j : ℕ) → values_of h'.table j ≡ popped (values_of h.table) key j
    pub bins : h'.table.bincount ≤ h.table.bincount
    pub count : h'.table.count ≤ h.table.count

  pub delete_lem : (h : Handle) (key : ℕ) → (ok : Bool) × (h' : Handle) × DeletedFrom h key ok h'
  delete_lem h key =
      let g = grants h.table h.is h.books in
      let (r, run, (is, books, ok, values, bins, count)) =
        lphash_delete-popped (system h.table) h.table key h.is h.books
          (record { apart = g.apart; mapped = λ sz e. g.mapped (h.table.directory, sz, e) }) in
      (
        r.0,
        record { table = r.1; is = is; books = books },
        record { run = run; values = values; bins = bins; count = count },
      )

  -- The operations on handles. Beyond the bounds of `within` the insertion is taken to fail.
  abbrev Decided : Handle → Type 0
  Decided h = (within h.table ≡ true) ⊎ (within h.table ≡ false)

  abbrev insert_if : (h : Handle) → ℕ → ℕ → Decided h → Bool × Handle
  insert_if h key value (inl inside) = (true, (insert_lem h key value inside).0)
  insert_if h key value (inr outside) = (false, h)

  abbrev pub insert : Handle → ℕ → ℕ → Bool × Handle
  insert h key value = insert_if h key value (Bool-cases (within h.table))

  insert_if-pushed :
      (h : Handle) (key value : ℕ) (d : Decided h)
      → (insert_if h key value d).0 ≡ true
      → values_of (insert_if h key value d).1.table ≡ pushed (values_of h.table) key value
  insert_if-pushed h key value (inl inside) ok = fun_ext (insert_lem h key value inside).1.values
  insert_if-pushed h key value (inr outside) ok = absurd (ground arith)

  pub insert-pushed :
      (h : Handle) (key value : ℕ)
      → (insert h key value).0 ≡ true
      → values_of (insert h key value).1.table ≡ pushed (values_of h.table) key value
  insert-pushed h key value = insert_if-pushed h key value (Bool-cases (within h.table))

  insert_if-Room :
      (h : Handle) (n key value : ℕ) (d : Decided h)
      → Room h (suc n)
      → ((insert_if h key value d).0 ≡ true) × Room (insert_if h key value d).1 n
  insert_if-Room h n key value (inl inside) room =
      let i = (insert_lem h key value inside).1 in
      (refl, (omega (arith, i.bins, room.0), omega (arith, i.count, room.1)))
  insert_if-Room h n key value (inr outside) room = absurd (ground (arith, room.0, room.1))

  pub insert-Room :
      (h : Handle) (n key value : ℕ)
      → Room h (suc n)
      → ((insert h key value).0 ≡ true) × Room (insert h key value).1 n
  insert-Room h n key value room = insert_if-Room h n key value (Bool-cases (within h.table)) room

  pub delete-Room : (h : Handle) (n key : ℕ) → Room h n → Room (delete_lem h key).1 n
  delete-Room h n key room =
      let d = (delete_lem h key).2 in (omega (arith, d.bins), omega (arith, d.count))

  -- `delete_lphash` returns, and leaves a context.
  abbrev returns : Option Memcxt → Bool
  returns none = false
  returns (some m) = true

  pub delete_lphash-returns : (h : Handle) → returns (delete_lphash h.table) ≡ true
  delete_lphash-returns h =
      let (m, run, freed) = delete_metadata-Freed h.table h.is h.books in rw run refl

  -- The interface of the replay, filled
  abbrev pub lphash_table : PointerTable Handle
  lphash_table = record {
    insert = insert;
    lookup = λ h key. (lookup_lem h key).0;
    delete = λ h key. ((delete_lem h key).0, (delete_lem h key).1);
    destroy = λ h. returns (delete_lphash h.table);
    content = λ h. values_of h.table;
    room = Room;
    lookup_content = λ h key. (lookup_lem h key).2;
    insert_content = insert-pushed;
    delete_content = λ h key. fun_ext (delete_lem h key).2.values;
    destroy_passes = delete_lphash-returns;
    insert_room = insert-Room;
    delete_room = delete-Room;
    room_less = λ h n room. (omega (arith, room.0), omega (arith, room.1));
  }
