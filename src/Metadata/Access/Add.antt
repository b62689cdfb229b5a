-- ===== src/Metadata/Access/Add.antt =====
-- `metadata_add`.
use sri_glibc_malloc.Base.{
  ℕ, ◌+◌, ◌%◌, ◌/◌, ◌≡◌, inl, inr, sym, ap, ◌∙◌, Bool, some, ◌∷◌, arith, ◌==◌, keep, if◌then◌else◌,
  Bool-cases, ==_true, ==_refl,
}
use sri_glibc_malloc.Memcxt.{Slot}
use sri_glibc_malloc.Memcxt.Laws.{bucket_used}
use sri_glibc_malloc.Utils.{Mmap, u64_mod}
use sri_glibc_malloc.Metadata.{Bucket, Metadata, write_bin}
use sri_glibc_malloc.Metadata.Hash.{home}
use sri_glibc_malloc.Metadata.Content.{sum}
use sri_glibc_malloc.Metadata.Store.{bin_at, read_bin-bin_at}
use sri_glibc_malloc.Metadata.Store.Table.{IsTable, buckets_of, total, fetch_lem, home-lt_bincount}
use sri_glibc_malloc.Metadata.Expand.Correct.{CanExpand, Stepped, metadata_expand_check-Kept}
use sri_glibc_malloc.Metadata.Access.{metadata_add}
use sri_glibc_malloc.Metadata.Access.Write.{
  counted_as, counted_as-IsTable, counted_as-SameContent, written-IsTable, buckets_of-written,
  total-written,
}
use sri_glibc_malloc.Variant.{Variant}

module _ ⦃code : Variant⦄ where
  -- The table `t'` holds the bucket besides what `t` holds, in front of the others of its chunk.
  pub record Added (t : Metadata) (b : Bucket) (t' : Metadata) : Type 0 where
    pub table : IsTable t'
    pub chunks :
        (k : ℕ) → buckets_of t' k ≡ (if b.chunk == k then b ∷ buckets_of t k else buckets_of t k)
    pub totals : (w : Bucket → ℕ) → total w t' ≡ w b + total w t
    pub count : t'.count ≡ (t.count + 1) % u64_mod
    pub used : (s : Slot) → bucket_used t'.memcxt s ≡ bucket_used t.memcxt s

  module _ (t : Metadata) (is : IsTable t) (b : Bucket) where
    abbrev i : ℕ
    i = home t.maxp t.p b.chunk

    module _ (s : Slot) (at : t.entries (i / 256) ≡ some s) where
      abbrev u : Metadata
      u = write_bin t (s, i % 256) (b ∷ bin_at t i)

      u_table : IsTable u
      u_table =
          written-IsTable t is i (home-lt_bincount t is b.chunk) s at (b ∷ bin_at t i)
            (==_refl i, is.placed i)

      u_chunks :
          (k : ℕ) → buckets_of u k ≡ (if b.chunk == k then b ∷ buckets_of t k else buckets_of t k)
      unfolding buckets_of keep
      u_chunks k =
          let now =
            buckets_of-written t is i (home-lt_bincount t is b.chunk) s at (b ∷ bin_at t i) k in
          elim (Bool-cases (b.chunk == k)) [
            | inl e ↦
                let here : home t.maxp t.p k ≡ i =
                  ap (home t.maxp t.p) (sym (==_true b.chunk k e)) in
                now ∙ rw (e, here, ==_refl i)
            | inr e ↦ elim (Bool-cases (i == home t.maxp t.p k)) [
              | inl here ↦ now ∙ rw (e, here, ==_true i (home t.maxp t.p k) here)
              | inr elsewhere ↦ now ∙ rw (e, elsewhere)
            ]
          ]

      u_totals : (w : Bucket → ℕ) → total w u ≡ w b + total w t
      unfolding sum
      u_totals w =
          let now = total-written t is i (home-lt_bincount t is b.chunk) s at (b ∷ bin_at t i) w in
          omega (arith, now)

  pub metadata_add-Added :
      (t : Metadata)
      → IsTable t
      → (mmap : Mmap) → CanExpand mmap t
      → (b : Bucket)
      → (ok : Bool) × (t' : Metadata) × (metadata_add mmap t b ≡ some (ok, t'))
        × Added t b t'
        × Stepped mmap t ok t'
  unfolding metadata_add write_bin
  metadata_add-Added t is mmap can b =
      let (s, at, fetch) = fetch_lem t is b.chunk in
      let u' = counted_as (u t is b s at) ((t.count + 1) % u64_mod) in
      let same = counted_as-SameContent (u t is b s at) ((t.count + 1) % u64_mod) in
      let (ok, t', run, kept, step) =
        metadata_expand_check-Kept u'
          (counted_as-IsTable (u t is b s at) ((t.count + 1) % u64_mod) (u_table t is b s at)) mmap
          (record { fresh = can.fresh; apart = can.apart; few = can.few }) in
      (
        ok,
        t',
        rw (fetch, read_bin-bin_at t is.store (i t is b) s at) run,
        record {
          table = kept.table;
          chunks = λ k. kept.same.views k ∙ (same.views k ∙ u_chunks t is b s at k);
          totals = λ w. kept.same.totals w ∙ (same.totals w ∙ u_totals t is b s at w);
          count = kept.count;
          used = kept.used;
        },
        record { bins = step.bins; blame = step.blame },
      )
