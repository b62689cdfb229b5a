-- ===== src/Metadata/Access/Delete.antt =====
-- `metadata_delete`: the first bucket of the chunk is unlinked, released and counted out.
use sri_glibc_malloc.Base.{
  ℕ, ◌+◌, ◌-◌, ◌%◌, ◌/◌, ◌<◌, ◌≤◌, ◌≡◌, inl, inr, refl, sym, ap, ◌∙◌, Bool, true, false, ◌&&◌, not,
  Option, none, some, List, [], ◌∷◌, ◌++◌, arith, ◌==◌, keep, keep-append, if◌then◌else◌,
  Bool-cases, ==_true, All, Returns,
}
use sri_glibc_malloc.Memcxt.{Memcxt, Slot, same_slot}
use sri_glibc_malloc.Memcxt.Laws.{bucket_used}
use sri_glibc_malloc.Utils.{Mmap, u64_mod}
use sri_glibc_malloc.Metadata.{Bucket, Metadata, write_bin}
use sri_glibc_malloc.Metadata.Hash.{home}
use sri_glibc_malloc.Metadata.Content.{of_chunk, sum, sum-append}
use sri_glibc_malloc.Metadata.Store.{bin_at, read_bin-bin_at}
use sri_glibc_malloc.Metadata.Store.Live.{Live, at_slot, one, Gone, release-Live}
use sri_glibc_malloc.Metadata.Store.Table.{
  IsTable, IsCounted, SameContent, buckets_of, total, fetch_lem, home-lt_bincount,
}
use sri_glibc_malloc.Metadata.Expand.Correct.{Kept}
use sri_glibc_malloc.Metadata.Contract.Table.{CanContract, metadata_contract_check-Kept}
use sri_glibc_malloc.Metadata.Access.{delete_found, release_bucket, metadata_delete}
use sri_glibc_malloc.Metadata.Access.Lookup.{
  nowhere, first, find_bucket-Search, first_bucket, first_of,
}
use sri_glibc_malloc.Metadata.Access.Write.{
  counted_as, written-IsTable, buckets_of-written, total-written, recontext-counted,
}
use sri_glibc_malloc.Variant.{Variant}

module _ ⦃code : Variant⦄ where
  abbrev pub rest_of : List Bucket → List Bucket
  rest_of [] = []
  rest_of (b ∷ bs) = bs

  -- The books and the content after the deletion of the bucket
  pub record Deleted (t : Metadata) (b : Bucket) (t' : Metadata) : Type 0 where
    pub table : IsTable t'
    pub chunks :
        (k : ℕ)
        → buckets_of t' k ≡ (if b.chunk == k then rest_of (buckets_of t k) else buckets_of t k)
    pub totals : (w : Bucket → ℕ) → total w t' + w b ≡ total w t
    pub books : IsCounted t'
    pub used :
        (s : Slot) → bucket_used t'.memcxt s ≡ (bucket_used t.memcxt s && not (same_slot s b.slot))
    pub bins : t'.bincount ≤ t.bincount

  abbrev pub DeletedOr : Metadata → Bool → Metadata → Option Bucket → Type 0
  DeletedOr t ok t' none = (ok ≡ false) × (t' ≡ t)
  DeletedOr t ok t' (some b) = (ok ≡ true) × Deleted t b t'

  -- What `metadata_delete` returns: false and the table unchanged, or true and the table without the
  -- first bucket of the chunk.
  unfoldable pub DeletedFirst : Metadata → ℕ → Bool × Metadata → Type 0
  DeletedFirst t k (ok, t') = DeletedOr t ok t' (first_of (buckets_of t k))

  All-without :
      (p : Bucket → Bool) (pre : List Bucket) (b : Bucket) (rest : List Bucket)
      → All p (pre ++ b ∷ rest)
      → All p (pre ++ rest)
  All-without p [] b rest a = a.1
  All-without p (c ∷ pre) b rest a = (a.0, All-without p pre b rest a.1)

  -- Without a bucket that none of its chunk precedes
  of_chunk-without :
      (j : ℕ) (pre : List Bucket) (b : Bucket) (rest : List Bucket)
      → of_chunk b.chunk pre ≡ []
      → of_chunk j (pre ++ rest) ≡ (
          if b.chunk == j
          then rest_of (of_chunk j (pre ++ b ∷ rest))
          else of_chunk j (pre ++ b ∷ rest))
  unfolding keep
  of_chunk-without j pre b rest before = elim (Bool-cases (b.chunk == j)) [
    | inl e ↦
        let none_before : of_chunk j pre ≡ [] =
          ap (λ x. of_chunk x pre) (sym (==_true b.chunk j e)) ∙ before in
        rw (
          e,
          keep-append (λ c. c.chunk == j) pre rest,
          keep-append (λ c. c.chunk == j) pre (b ∷ rest),
          e,
          none_before,
        )
    | inr e ↦ rw (
      e,
      keep-append (λ c. c.chunk == j) pre rest,
      keep-append (λ c. c.chunk == j) pre (b ∷ rest),
      e,
    )
  ]

  module _ (t : Metadata) (is : IsTable t) (books : IsCounted t) (mmap : Mmap)
      (can : CanContract mmap t) where
    module _ (i : ℕ) (below : i < t.bincount) (s : Slot) (at : t.entries (i / 256) ≡ some s)
        (pre : List Bucket) (b : Bucket) (rest : List Bucket) (bin : bin_at t i ≡ pre ++ b ∷ rest)
        (before : of_chunk b.chunk pre ≡ []) (here : home t.maxp t.p b.chunk ≡ i) where
      abbrev u : Metadata
      u = write_bin t (s, i % 256) (pre ++ rest)

      u_table : IsTable u
      u_table =
          written-IsTable t is i below s at (pre ++ rest)
            (All-without (λ c. home t.maxp t.p c.chunk == i) pre b rest (rw (← bin) (is.placed i)))

      u_chunks :
          (k : ℕ)
          → buckets_of u k ≡ (if b.chunk == k then rest_of (buckets_of t k) else buckets_of t k)
      unfolding buckets_of
      u_chunks k =
          let now = buckets_of-written t is i below s at (pre ++ rest) k in
          elim (Bool-cases (i == home t.maxp t.p k)) [
            | inl e ↦
                now
                ∙ rw (e, ← ==_true i (home t.maxp t.p k) e, bin)
                    (of_chunk-without k pre b rest before)
            | inr e ↦
                let other : (b.chunk == k) ≡ false = elim (Bool-cases (b.chunk == k)) [
                  | inl same ↦
                      absurd (ground (arith, ap (home t.maxp t.p) (==_true b.chunk k same)))
                  | inr ne ↦ ne
                ] in
                now ∙ rw (e, other)
          ]

      u_totals : (w : Bucket → ℕ) → total w u + w b ≡ total w t
      unfolding sum
      u_totals w =
          let now = total-written t is i below s at (pre ++ rest) w in
          let old : sum w (bin_at t i) ≡ sum w (pre ++ b ∷ rest) = ap (sum w) bin in
          omega (arith, now, old, sum-append w pre rest, sum-append w pre (b ∷ rest))

      -- From the table with the bucket released on
      module _ (m : Memcxt) (gone : Gone t.memcxt b m)
          (live : Live m (λ s. total (at_slot s) u)) where
        abbrev n : ℕ
        n = (t.count + u64_mod - 1) % u64_mod

        abbrev v : Metadata
        v = counted_as (record u { memcxt = m }) n

        v_lem : IsTable v × SameContent u v
        unfolding write_bin
        v_lem = recontext-counted u u_table m gone.memcxt gone.segments n

        Deleted-of : (t' : Metadata) → Kept v t' → t'.bincount ≤ t.bincount → Deleted t b t'
        Deleted-of t' kept bins =
            let (table, same) = v_lem in
            let one_less = u_totals one in
            let totals : (w : Bucket → ℕ) → total w t' ≡ total w u =
              λ w. kept.same.totals w ∙ same.totals w in
            record {
              table = kept.table;
              chunks = λ k. kept.same.views k ∙ (same.views k ∙ u_chunks k);
              totals = λ w. ap (λ x. x + w b) (totals w) ∙ u_totals w;
              books = record {
                counted =
                    omega (arith, kept.count, totals one, one_less, books.counted, books.bound);
                bound = omega (arith, kept.count);
                live = λ s. rw (totals (at_slot s), kept.used s) (live s);
              };
              used = λ s. kept.used s ∙ gone.buckets s;
              bins = bins;
            }

      -- From the release on
      found-Deleted :
          Returns
            (delete_found mmap t (s, i % 256) (some (pre, b, rest)))
            (λ r. (r.0 ≡ true) × Deleted t b r.1)
      unfolding release_bucket write_bin
      found-Deleted =
          let (m, run, (gone, live)) =
            release-Live t.memcxt b (λ s. total (at_slot s) u) is.store.memcxt
              (λ s. omega (arith, u_totals (at_slot s), books.live s)) in
          let (table, same) = v_lem m gone live in
          let (t', run', (kept, bins)) =
            metadata_contract_check-Kept (v m gone live) table mmap
              (record { apart = can.apart; mapped = can.mapped }) in
          ((true, t'), rw (run, run'), (refl, Deleted-of m gone live t' kept bins))

    deleted_first : (k : ℕ) → Returns (metadata_delete mmap t k) (DeletedFirst t k)
    unfolding metadata_delete buckets_of DeletedFirst
    deleted_first k =
        let (s, at, fetch) = fetch_lem t is k in
        let read = read_bin-bin_at t is.store (home t.maxp t.p k) s at in
        elim (find_bucket-Search k [] (bin_at t (home t.maxp t.p k))) [
          | nowhere r absent ↦
              let empty : buckets_of t k ≡ [] = absent in
              ((false, t), rw (fetch, read, r), rw empty (refl, refl))
          | first pre b rest r bin before here ↦
              let found = first_bucket t is k s at pre b rest bin before here in
              let (res, run, (ok, post)) =
                found-Deleted (home t.maxp t.p k) (home-lt_bincount t is k) s at pre b rest bin
                  (ap (λ x. of_chunk x pre) here ∙ before) (ap (home t.maxp t.p) here) in
              (res, rw (fetch, read, r) run, rw found (ok, post))
        ]

  -- In a right table with right books, `metadata_delete` passes its assertions and those of the
  -- pools. It returns false and the table as it was if the chunk has no bucket. Else it returns true,
  -- and the first bucket of the chunk is gone: from the buckets of the chunk, from every sum, from
  -- the elements in use and from the count. The other chunks keep their buckets in order. The
  -- invariant and the books are kept, also if the table contracts. The hypothesis `can` is what the
  -- contraction needs of the pools.
  pub metadata_delete-DeletedFirst :
      (t : Metadata) (mmap : Mmap) (k : ℕ)
      → IsTable t
      → IsCounted t
      → CanContract mmap t
      → Returns (metadata_delete mmap t k) (DeletedFirst t k)
  metadata_delete-DeletedFirst t mmap k is books can = deleted_first t is books mmap can k
