-- ===== src/Metadata/Client/RoundTrip.antt =====
-- `metadata_insert_chunk` and then `metadata_delete`.
use sri_glibc_malloc.Base.{
  ℕ, ◌+◌, ◌^◌, ◌<◌, ◌≡◌, ◌≢◌, sym, ap, ◌∙◌, Bool, true, false, some, ◌∷◌, arith, ◌==◌, Returns,
  Bool-cases, inl, inr, ==_refl, eq_of_some,
}
use mathlib.Core.Path.{subst}
use sri_glibc_malloc.Utils.{Mmap, null, sri_mmap}
use sri_glibc_malloc.Memcxt.{same_slot}
use sri_glibc_malloc.Memcxt.Laws.{BucketsFresh, bucket_used}
use sri_glibc_malloc.Metadata.{Metadata}
use sri_glibc_malloc.Metadata.Store.{same_slot-true}
use sri_glibc_malloc.Metadata.Store.Live.{one}
use sri_glibc_malloc.Metadata.Store.Table.{IsTable, IsCounted, buckets_of}
use sri_glibc_malloc.Metadata.Expand.Correct.{CanExpand, Kept}
use sri_glibc_malloc.Metadata.Contract.Table.{CanContract}
use sri_glibc_malloc.Metadata.Access.{metadata_delete}
use sri_glibc_malloc.Metadata.Access.Delete.{Deleted, DeletedFirst, metadata_delete-DeletedFirst}
use sri_glibc_malloc.Metadata.Client.{metadata_insert_chunk}
use sri_glibc_malloc.Metadata.Client.Inserted.{
  Inserted, InsertedOr, metadata_insert_chunk-InsertedOr,
}
use sri_glibc_malloc.Variant.{Variant}

module _ ⦃code : Variant⦄ where
  -- A system that always maps something, and never over what is mapped
  pub record IsAmple (mmap : Mmap) : Type 0 where
    pub mapped : (hint sz : ℕ) → sri_mmap mmap hint sz ≢ null
    pub apart : (hint sz : ℕ) → sri_mmap mmap hint sz ≢ hint

  pub Inserted-of :
      (mmap : Mmap) (t : Metadata) (chunk : ℕ) (t' : Metadata)
      → InsertedOr mmap t chunk (true, t')
      → Inserted t chunk t'
  Inserted-of mmap t chunk t' (inl (e, same, refused)) = absurd (ground (arith, e))
  Inserted-of mmap t chunk t' (inr (i, step)) = i

  -- The deletion takes the bucket that was inserted, and nothing else is different from before.
  Deleted-Kept :
      (t t' t'' : Metadata) (chunk : ℕ) (i : Inserted t chunk t')
      → IsCounted t
      → Deleted t' i.bucket t''
      → Kept t t''
  Deleted-Kept t t' t'' chunk i books d = record {
    table = d.table;
    same = record {
      views = λ k. elim (Bool-cases (chunk == k)) [
        | inl e ↦
            let here : (i.bucket.chunk == k) ≡ true = rw i.named e in
            let front : buckets_of t' k ≡ i.bucket ∷ buckets_of t k = i.chunks k ∙ rw e in
            d.chunks k ∙ rw (here, front)
        | inr e ↦
            let elsewhere : (i.bucket.chunk == k) ≡ false = rw i.named e in
            let other : buckets_of t' k ≡ buckets_of t k = i.chunks k ∙ rw e in
            d.chunks k ∙ rw (elsewhere, other)
      ];
      totals = λ w. omega (arith, d.totals w, i.totals w);
    };
    count = omega (arith, d.books.counted, books.counted, d.totals one, i.totals one);
    used = λ s. elim (Bool-cases (same_slot s i.bucket.slot)) [
      | inl e ↦
          let here : bucket_used t.memcxt s ≡ false =
            ap (bucket_used t.memcxt) (same_slot-true s i.bucket.slot e) ∙ i.was_free in
          ground (arith, d.used s, i.used s)
      | inr e ↦ ground (arith, d.used s, i.used s)
    ];
  }

  DeletedFirst-Kept :
      (t t' : Metadata) (chunk : ℕ) (i : Inserted t chunk t')
      → IsCounted t
      → (r : Bool × Metadata) → DeletedFirst t' chunk r
      → (r.0 ≡ true) × Kept t r.1
  unfolding DeletedFirst
  DeletedFirst-Kept t t' chunk i books r d =
      let named : (chunk == i.bucket.chunk) ≡ true = rw i.named (==_refl chunk) in
      let front : buckets_of t' chunk ≡ i.bucket ∷ buckets_of t chunk =
        i.chunks chunk ∙ rw (==_refl chunk) in
      let (ok, deleted) = rw front at d in (ok, Deleted-Kept t t' r.1 chunk i books deleted)

  -- Let `metadata_insert_chunk` return true on a right table with right books that can expand, with a
  -- count below 2 ^ 64 - 1, pools mapped at new addresses and a system that always maps something and
  -- never over what is mapped. Then `metadata_delete` of the same chunk passes its assertions,
  -- returns true and leaves a right table with the content, the count and the elements in use of the
  -- first.
  pub metadata_delete-metadata_insert_chunk :
      (mmap : Mmap) (t : Metadata) (chunk : ℕ) (t' : Metadata)
      → IsTable t
      → IsCounted t
      → CanExpand mmap t
      → BucketsFresh mmap t.memcxt
      → t.count + 1 < 2 ^ 64
      → IsAmple mmap
      → metadata_insert_chunk mmap t chunk ≡ some (true, t')
      → Returns (metadata_delete mmap t' chunk) (λ r. (r.0 ≡ true) × Kept t r.1)
  metadata_delete-metadata_insert_chunk mmap t chunk t' is books can fresh room ample run =
      let (r, run', post) = metadata_insert_chunk-InsertedOr mmap t is books can fresh room chunk in
      let same : r ≡ (true, t') = eq_of_some r (true, t') (sym run' ∙ run) in
      let i = Inserted-of mmap t chunk t' (subst (InsertedOr mmap t chunk) same post) in
      let can' : CanContract mmap t' = record {
        apart = λ sz. ample.apart t'.directory sz;
        mapped = λ sz. ample.mapped t'.directory sz;
      } in
      let (r', run'', d) = metadata_delete-DeletedFirst t' mmap chunk i.table i.books can' in
      (r', run'', DeletedFirst-Kept t t' chunk i books r' d)
