-- ===== src/Lphash/Inserted.antt =====
-- `lphash_insert`: a bucket is allocated, put in front of its bin and counted.
use sri_glibc_malloc.Base.{
  ℕ, ◌+◌, ◌%◌, ◌^◌, ◌<◌, ◌≡◌, ◌∙◌, refl, ap, Bool, false, some, ◌⊎◌, inl, inr, Returns,
}
use sri_glibc_malloc.Utils.{Mmap, null}
use sri_glibc_malloc.Memcxt.{Memcxt, Slot, MemType, Pointer, nowhere, element}
use sri_glibc_malloc.Memcxt.Laws.{BucketsFresh, Refused, BucketTaken, allocate_bucket_lem}
use sri_glibc_malloc.Metadata.{Bucket, metadata_fetch_bucket, metadata_bindex, bindex2bin}
use sri_glibc_malloc.Metadata.Hash.{home}
use sri_glibc_malloc.Metadata.Store.Table.{IsTable, IsCounted, fetch_lem}
use sri_glibc_malloc.Metadata.Expand.Correct.{CanExpand, Stepped}
use sri_glibc_malloc.Metadata.Access.{metadata_add}
use sri_glibc_malloc.Metadata.Client.Allocated.{handed}
use sri_glibc_malloc.Metadata.Client.Inserted.{Inserted, with_bucket}
use sri_glibc_malloc.Lphash.{Lphash, lphash_insert, put_bucket}
use sri_glibc_malloc.Lphash.Table.{pointer_table}
use sri_glibc_malloc.Lphash.Pools.{lpmemcxt_allocate, lpmemcxt_allocate-memcxt_allocate}

abbrev pub lpbucket : Slot → ℕ → ℕ → Bucket
lpbucket s key value = record { slot = s; chunk = key; fields = record { value = value } }

-- The table with the value in front of the key's, whether or not it could be expanded then; or the
-- table as it was, if the system refuses a mapping
abbrev pub InsertedValueOr : Mmap → Lphash → ℕ → ℕ → Bool × Lphash → Type 0
InsertedValueOr mmap t key value (ok, t') =
    ((ok ≡ false) × (t' ≡ t) × Refused mmap)
    ⊎ ((i : Inserted t key t') × (i.bucket.fields.value ≡ value) × Stepped mmap t ok t')

-- The context has no part in finding a bin.
fetch_elsewhere :
    (t : Lphash) (m : Memcxt) (key : ℕ)
    → metadata_fetch_bucket (record t { memcxt = m }) key ≡ metadata_fetch_bucket t key
unfolding metadata_fetch_bucket metadata_bindex bindex2bin
fetch_elsewhere t m key = refl

put_bucket-metadata_add :
    (mmap : Mmap) (u : Lphash) (binp : Slot × ℕ) (s : Slot) (key value : ℕ)
    → metadata_fetch_bucket u key ≡ some binp
    → put_bucket mmap u binp key value (element s) ≡ metadata_add mmap u (lpbucket s key value)
unfolding metadata_add
put_bucket-metadata_add mmap u binp s key value fetch = rw fetch

module _ (mmap : Mmap) (t : Lphash) (is : IsTable t) (books : IsCounted t) (can : CanExpand mmap t)
    (fresh : BucketsFresh mmap t.memcxt) (room : t.count + 1 < 2 ^ 64) (key value : ℕ) where
  -- From the allocation on
  outcome :
      (binp : Slot × ℕ) (r : Pointer × Memcxt)
      → metadata_fetch_bucket t key ≡ some binp
      → BucketTaken mmap t.memcxt r
      → Returns
          (put_bucket mmap (record t { memcxt = r.1 }) binp key value r.0)
          (InsertedValueOr mmap t key value)
  outcome binp (nowhere, m) fetch (same, refused) = (
    (false, record t { memcxt = m }),
    refl,
    inl (refl, ap (λ x. record t { memcxt = x }) same, refused),
  )
  outcome binp (Pointer.region a, m) fetch got = absurd got
  outcome binp (element s, m) fetch got =
      let u = record t { memcxt = m } in
      let fetch' : metadata_fetch_bucket u key ≡ some binp = fetch_elsewhere t m key ∙ fetch in
      let out = handed mmap t is fresh (element s, m) got in
      let (r, run, (i, same, step)) =
        with_bucket mmap t is books can fresh room key (lpbucket s null 0) u
          (record { value = value }) out in
      (
        r,
        rw (put_bucket-metadata_add mmap u binp s key value fetch') run,
        inr (i, ap (λ b. b.fields.value) same, step),
      )

  -- In a right table with right books that can expand, with pools mapped at new addresses and a
  -- count below 2 ^ 64 - 1, `lphash_insert` passes its assertions. It puts a bucket that was free,
  -- with the value, in front of the key's, and keeps the other keys, the invariant and the books; or
  -- it returns false and changes nothing. It returns false only if the system refuses a mapping,
  -- and adds at most one bin.
  pub lphash_insert-InsertedValueOr :
      Returns (lphash_insert mmap t key value) (InsertedValueOr mmap t key value)
  unfolding lphash_insert
  lphash_insert-InsertedValueOr =
      let (s, at, fetch) = fetch_lem t is key in
      let (r, run, got) = allocate_bucket_lem mmap t.memcxt 32 is.store.memcxt fresh in
      let run' : lpmemcxt_allocate mmap t.memcxt MemType.bucket null 32 ≡ some r =
        rw (lpmemcxt_allocate-memcxt_allocate mmap t.memcxt MemType.bucket 32) run in
      let (r', run'', post) = outcome (s, home t.maxp t.p key % 256) r fetch got in
      (r', rw (fetch, run') run'', post)
