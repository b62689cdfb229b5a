-- ===== src/Metadata/Client/Inserted.antt =====
-- `metadata_insert_chunk`: a bucket is allocated and added.
use sri_glibc_malloc.Base.{
  ℕ, ◌+◌, ◌*◌, ◌^◌, ◌<◌, ◌≡◌, refl, sym, ap, ◌∙◌, Bool, true, false, ◌||◌, none, some, ◌∷◌, ◌==◌,
  arith, if◌then◌else◌, Returns, Bool-cases, inl, inr, ◌⊎◌,
}
use sri_glibc_malloc.Utils.{Mmap}
use sri_glibc_malloc.Memcxt.{Slot, same_slot}
use sri_glibc_malloc.Memcxt.Laws.{BucketsFresh, Refused, bucket_used}
use sri_glibc_malloc.Metadata.{Bucket, Metadata}
use sri_glibc_malloc.Metadata.Store.{same_slot-true}
use sri_glibc_malloc.Metadata.Store.Live.{at_slot, one}
use sri_glibc_malloc.Metadata.Store.Table.{IsTable, IsCounted, buckets_of, total}
use sri_glibc_malloc.Metadata.Expand.Correct.{CanExpand, Stepped}
use sri_glibc_malloc.Metadata.Access.{metadata_add}
use sri_glibc_malloc.Metadata.Access.Add.{Added, metadata_add-Added}
use sri_glibc_malloc.Metadata.Client.{allocate_chunkinfoptr, metadata_insert_chunk}
use sri_glibc_malloc.Metadata.Client.Allocated.{
  HandedOut, HandedOutOr, allocate_chunkinfoptr-HandedOutOr,
}
use sri_glibc_malloc.Variant.{Variant}

module _ ⦃code : Variant⦄ where
  -- A bucket in use that the table does not hold can be added to the books.
  pub Added-IsCounted :
      (t : Metadata) (b : Bucket) (t' : Metadata)
      → IsCounted t
      → t.count + 1 < 2 ^ 64
      → bucket_used t.memcxt b.slot ≡ true
      → b.slot.index < 64 * code.bp_scale
      → total (at_slot b.slot) t ≡ 0
      → Added t b t'
      → IsCounted t'
  Added-IsCounted t b t' books room used in_range absent added = record {
    counted = omega (arith, added.count, added.totals one, books.counted);
    bound = omega (arith, added.count);
    live = λ s. elim (Bool-cases (same_slot b.slot s)) [
      | inl here ↦
          let e : b.slot ≡ s = same_slot-true b.slot s here in
          let used' : bucket_used t.memcxt s ≡ true = ap (bucket_used t.memcxt) (sym e) ∙ used in
          let absent' : total (at_slot s) t ≡ 0 = ap (λ x. total (at_slot x) t) (sym e) ∙ absent in
          ground (arith, added.used s, added.totals (at_slot s), ap (λ (x : Slot). x.index) e)
      | inr elsewhere ↦ ground (arith, books.live s, added.used s, added.totals (at_slot s))
    ];
  }

  -- The table `t'` holds, besides what `t` holds, a bucket of the chunk that was free.
  pub record Inserted (t : Metadata) (chunk : ℕ) (t' : Metadata) : Type 0 where
    pub bucket : Bucket
    pub named : bucket.chunk ≡ chunk
    pub was_free : bucket_used t.memcxt bucket.slot ≡ false
    pub table : IsTable t'
    pub chunks :
        (k : ℕ) → buckets_of t' k ≡ (if chunk == k then bucket ∷ buckets_of t k else buckets_of t k)
    pub totals : (w : Bucket → ℕ) → total w t' ≡ w bucket + total w t
    pub books : IsCounted t'
    pub used :
        (s : Slot) → bucket_used t'.memcxt s ≡ (same_slot s bucket.slot || bucket_used t.memcxt s)

  -- The table with the bucket, whether or not it could be expanded then; or, if the system refuses
  -- a mapping, the table as it was
  abbrev pub InsertedOr : Mmap → Metadata → ℕ → Bool × Metadata → Type 0
  InsertedOr mmap t chunk (ok, t') =
      ((ok ≡ false) × (t' ≡ t) × Refused mmap) ⊎ (Inserted t chunk t' × Stepped mmap t ok t')

  module _ (mmap : Mmap) (t : Metadata) (is : IsTable t) (books : IsCounted t)
      (can : CanExpand mmap t) (fresh : BucketsFresh mmap t.memcxt) (room : t.count + 1 < 2 ^ 64)
      (chunk : ℕ) where
    -- A bucket that was handed out is added with a key and fields.
    pub with_bucket :
        (b : Bucket) (u : Metadata) (fields : code.Fields)
        → HandedOut t b u
        → Returns (metadata_add mmap u (record b { chunk = chunk; fields = fields })) (λ r.
          (i : Inserted t chunk r.1) × (i.bucket ≡ record b { chunk = chunk; fields = fields })
          × Stepped mmap t r.0 r.1)
    with_bucket b u fields out =
        let c = record b { chunk = chunk; fields = fields } in
        let can' : CanExpand mmap u = record {
          fresh = rw (out.segments) can.fresh;
          apart = rw (out.directory) can.apart;
          few = omega (arith, can.few, out.bincount);
        } in
        let (ok, t', run, added, step) = metadata_add-Added u out.table mmap can' c in
        let books' : IsCounted u = record {
          counted = out.count ∙ (books.counted ∙ sym (out.same.totals one));
          bound = omega (arith, books.bound, out.count);
          live = λ s. ground (arith, books.live s, out.used s, out.same.totals (at_slot s));
        } in
        (
          (ok, t'),
          run,
          (
            record {
              bucket = c;
              named = refl;
              was_free = out.was_free;
              table = added.table;
              chunks = λ k. added.chunks k ∙ rw (out.same.views k);
              totals = λ w. added.totals w ∙ ap (λ n. w c + n) (out.same.totals w);
              books =
                  Added-IsCounted u c t' books' (omega (arith, room, out.count))
                    (ground (arith, out.used b.slot)) out.in_range
                    (ground
                      (arith, books.live b.slot, out.was_free, out.same.totals (at_slot b.slot)))
                    added;
              used = λ s. added.used s ∙ out.used s;
            },
            refl,
            record { bins = omega (arith, step.bins, out.bincount); blame = step.blame },
          ),
        )

    -- In a right table with right books that can expand, with pools mapped at new addresses and a
    -- count below 2 ^ 64 - 1, `metadata_insert_chunk` passes its assertions. It puts a bucket that
    -- was free in front of the chunk's, and keeps the other chunks, the invariant and the books,
    -- whether or not the table can be expanded then; or it returns false and changes nothing. It
    -- returns false only if the system refuses a mapping, and adds at most one bin.
    pub metadata_insert_chunk-InsertedOr :
        Returns (metadata_insert_chunk mmap t chunk) (InsertedOr mmap t chunk)
    unfolding metadata_insert_chunk
    metadata_insert_chunk-InsertedOr = go (allocate_chunkinfoptr-HandedOutOr mmap t is fresh)
      where
        go :
            Returns (allocate_chunkinfoptr mmap t) (HandedOutOr mmap t)
            → Returns (metadata_insert_chunk mmap t chunk) (InsertedOr mmap t chunk)
        go ((none, u), run, same) = ((false, u), rw run, inl (refl, same.0, same.1))
        go ((some b, u), run, out) =
            let (r, run', (i, same, step)) = with_bucket b u b.fields out in
            (r, rw (run, run'), inr (i, step))
