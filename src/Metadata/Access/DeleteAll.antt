-- ===== src/Metadata/Access/DeleteAll.antt =====
-- `metadata_delete_all`: the buckets of the chunk are unlinked, released and counted out.
use sri_glibc_malloc.Base.{
  ℕ, ◌+◌, ◌-◌, ◌%◌, ◌/◌, ◌<◌, ◌≡◌, inl, inr, refl, ap, ◌∙◌, false, ◌&&◌, some, [], arith, ltb, ◌==◌,
  if◌then◌else◌, Bool-cases, ==_true, Returns,
}
use sri_glibc_malloc.Memcxt.{Memcxt, Slot}
use sri_glibc_malloc.Memcxt.Laws.{bucket_used}
use sri_glibc_malloc.Utils.{Mmap, u64_mod}
use sri_glibc_malloc.Metadata.{Bucket, Metadata, write_bin}
use sri_glibc_malloc.Metadata.Hash.{home}
use sri_glibc_malloc.Metadata.Content.{sum}
use sri_glibc_malloc.Metadata.Store.{bin_at, read_bin-bin_at}
use sri_glibc_malloc.Metadata.Store.Live.{at_slot, one}
use sri_glibc_malloc.Metadata.Store.Table.{
  IsTable, IsCounted, SameContent, buckets_of, total, fetch_lem, home-lt_bincount,
}
use sri_glibc_malloc.Metadata.Expand.Correct.{Kept, Kept-refl}
use sri_glibc_malloc.Metadata.Contract.{metadata_contract_check}
use sri_glibc_malloc.Metadata.Contract.Table.{CanContract, metadata_contract_check-Kept}
use sri_glibc_malloc.Metadata.Access.{metadata_delete_all}
use sri_glibc_malloc.Metadata.Access.Sweep.{
  others, of_chunk-others, sum-others, All-others, Swept, sweep-Swept,
}
use sri_glibc_malloc.Metadata.Access.Write.{
  counted_as, written-IsTable, buckets_of-written, total-written, recontext-counted,
}
use sri_glibc_malloc.Variant.{Variant}

module _ ⦃code : Variant⦄ where
  -- What `metadata_delete_all` returns: the number of the chunk's buckets, and the table without
  -- them.
  pub record DeletedAll (t : Metadata) (k : ℕ) (c : ℕ) (t' : Metadata) : Type 0 where
    pub deleted : c ≡ sum one (buckets_of t k)
    pub table : IsTable t'
    pub chunks : (j : ℕ) → buckets_of t' j ≡ (if k == j then [] else buckets_of t j)
    pub totals : (w : Bucket → ℕ) → total w t' + sum w (buckets_of t k) ≡ total w t
    pub books : IsCounted t'
    pub used :
        (s : Slot)
        → bucket_used t'.memcxt s
          ≡ (bucket_used t.memcxt s && (sum (at_slot s) (buckets_of t k) == 0))

  module _ (t : Metadata) (is : IsTable t) (books : IsCounted t) (mmap : Mmap)
      (can : CanContract mmap t) (k : ℕ) where
    abbrev i : ℕ
    i = home t.maxp t.p k

    below : i < t.bincount
    below = home-lt_bincount t is k

    -- The number of the chunk's buckets
    abbrev c : ℕ
    c = sum one (buckets_of t k)

    module _ (s : Slot) (at : t.entries (i / 256) ≡ some s) where
      -- The table whose bin holds the others, and with nothing in that bin
      abbrev u : Metadata
      u = write_bin t (s, i % 256) (others k (bin_at t i))

      abbrev e : Metadata
      e = write_bin t (s, i % 256) []

      u_table : IsTable u
      u_table =
          written-IsTable t is i below s at (others k (bin_at t i))
            (All-others (λ b. home t.maxp t.p b.chunk == i) k (bin_at t i) (is.placed i))

      u_chunks : (j : ℕ) → buckets_of u j ≡ (if k == j then [] else buckets_of t j)
      unfolding buckets_of
      u_chunks j =
          let now = buckets_of-written t is i below s at (others k (bin_at t i)) j in
          elim (Bool-cases (i == home t.maxp t.p j)) [
            | inl same ↦
                now
                ∙ rw (same, ← ==_true i (home t.maxp t.p j) same) (of_chunk-others k j (bin_at t i))
            | inr other ↦
                let apart : (k == j) ≡ false = elim (Bool-cases (k == j)) [
                  | inl same ↦ absurd (ground (arith, ap (home t.maxp t.p) (==_true k j same)))
                  | inr ne ↦ ne
                ] in
                now ∙ rw (other, apart)
          ]

      u_totals : (w : Bucket → ℕ) → total w u + sum w (buckets_of t k) ≡ total w t
      unfolding buckets_of
      u_totals w = omega (
        arith,
        total-written t is i below s at (others k (bin_at t i)) w,
        sum-others w k (bin_at t i),
      )

      e_totals : (w : Bucket → ℕ) → total w e + sum w (bin_at t i) ≡ total w t
      unfolding sum
      e_totals w = omega (arith, total-written t is i below s at [] w)

      module _ (m : Memcxt)
          (swept : Swept k t.memcxt (bin_at t i) (λ s. total (at_slot s) e) m) where
        abbrev v : Metadata
        v = counted_as (record u { memcxt = m }) ((t.count + u64_mod - c) % u64_mod)

        v_lem : IsTable v × SameContent u v
        unfolding write_bin
        v_lem =
            recontext-counted u u_table m swept.memcxt swept.segments
              ((t.count + u64_mod - c) % u64_mod)

        DeletedAll-of : (t' : Metadata) → Kept v t' → DeletedAll t k c t'
        unfolding buckets_of
        DeletedAll-of t' kept =
            let (table, same) = v_lem in
            let totals : (w : Bucket → ℕ) → total w t' ≡ total w u =
              λ w. kept.same.totals w ∙ same.totals w in
            record {
              deleted = refl;
              table = kept.table;
              chunks = λ j. kept.same.views j ∙ (same.views j ∙ u_chunks j);
              totals = λ w. ap (λ x. x + sum w (buckets_of t k)) (totals w) ∙ u_totals w;
              books = record {
                counted =
                    omega (arith, kept.count, totals one, u_totals one, books.counted, books.bound);
                bound = omega (arith, kept.count);
                live = λ s.
                    rw (totals (at_slot s), kept.used s)
                      (ground (
                        arith,
                        swept.live s,
                        u_totals (at_slot s),
                        e_totals (at_slot s),
                        sum-others (at_slot s) k (bin_at t i),
                      ));
              };
              used = λ s. kept.used s ∙ swept.buckets s;
            }

        check :
            (t' : Metadata) × ((if ltb 0 c then metadata_contract_check mmap v else some v)
              ≡ some t')
            × Kept v t'
        unfolding write_bin
        check =
            let (table, same) = v_lem in
            elim (Bool-cases (ltb 0 c)) [
              | inl some_gone ↦
                  let (t', run, (kept, bins)) =
                    metadata_contract_check-Kept v table mmap
                      (record { apart = can.apart; mapped = can.mapped }) in
                  (t', rw (some_gone, run), kept)
              | inr none_gone ↦ (v, rw none_gone, Kept-refl v table)
            ]

  -- In a right table with right books, `metadata_delete_all` passes its assertions and those of the
  -- pools. It returns the number of the chunk's buckets, and these are gone: from the chunk, from
  -- every sum, from the elements in use and from the count. The other chunks keep their buckets in
  -- order. The invariant and the books are kept, also if the table contracts. The hypothesis `can` is
  -- what the contraction needs of the pools.
  pub metadata_delete_all-DeletedAll :
      (t : Metadata) (mmap : Mmap) (k : ℕ)
      → IsTable t
      → IsCounted t
      → CanContract mmap t
      → Returns (metadata_delete_all mmap t k) (λ r. DeletedAll t k r.0 r.1)
  unfolding metadata_delete_all buckets_of
  metadata_delete_all-DeletedAll t mmap k is books can =
      let (s, at, fetch) = fetch_lem t is k in
      let read = read_bin-bin_at t is.store (home t.maxp t.p k) s at in
      let (m, run, swept) =
        sweep-Swept k t.memcxt (bin_at t (home t.maxp t.p k))
          (λ x. total (at_slot x) (e t is books mmap can k s at)) is.store.memcxt
          (λ x. omega (arith, books.live x, e_totals t is books mmap can k s at (at_slot x))) in
      let (t', run', kept) = check t is books mmap can k s at m swept in
      (
        (sum one (buckets_of t k), t'),
        rw (fetch, read, run, run'),
        DeletedAll-of t is books mmap can k s at m swept t' kept,
      )
