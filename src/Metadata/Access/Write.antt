-- ===== src/Metadata/Access/Write.antt =====
-- A write of one bin of the table.
use sri_glibc_malloc.Base.{
  ℕ, ◌+◌, ◌/◌, ◌%◌, ◌<◌, ◌≡◌, inl, inr, refl, sym, ◌∙◌, some, List, arith, ◌==◌, if◌then◌else◌,
  Bool-cases, ==_true, All,
}
use sri_glibc_malloc.Memcxt.{Memcxt, Slot}
use sri_glibc_malloc.Memcxt.Laws.{IsMemcxt, segment_used}
use sri_glibc_malloc.Metadata.Expand.Bins.{IsTable-same}
use sri_glibc_malloc.Metadata.{Bucket, Metadata, write_bin}
use sri_glibc_malloc.Metadata.Hash.{home}
use sri_glibc_malloc.Metadata.Content.{of_chunk, sum, sum_bins-change}
use sri_glibc_malloc.Metadata.Store.{bin_at, bin_at-write_bin, write_bin-IsStore}
use sri_glibc_malloc.Metadata.Store.Table.{IsTable, SameContent, buckets_of, total}
use sri_glibc_malloc.Variant.{Variant}

module _ ⦃code : Variant⦄ where
  -- The table with another count
  abbrev pub counted_as : Metadata → ℕ → Metadata
  counted_as t n = record t { count = n }

  pub counted_as-IsTable : (t : Metadata) (n : ℕ) → IsTable t → IsTable (counted_as t n)
  unfolding bin_at
  counted_as-IsTable t n is = record {
    sized = record {
      small = is.sized.small;
      limit = is.sized.limit;
      below = is.sized.below;
      bins = is.sized.bins;
    };
    store = record {
      memcxt = is.store.memcxt;
      filled = is.store.filled;
      beyond = is.store.beyond;
      distinct = is.store.distinct;
      clean = is.store.clean;
      capacity = is.store.capacity;
      length_bound = is.store.length_bound;
    };
    current = is.current;
    placed = is.placed;
  }

  pub counted_as-SameContent : (t : Metadata) (n : ℕ) → SameContent t (counted_as t n)
  unfolding buckets_of total bin_at
  counted_as-SameContent t n = record { views = λ k. refl; totals = λ w. refl }

  -- The table with another context, in which the same segments are in use
  pub recontext :
      (t : Metadata)
      → IsTable t
      → (m : Memcxt) → IsMemcxt m
      → ((s : Slot) → segment_used m s ≡ segment_used t.memcxt s)
      → IsTable (record t { memcxt = m }) × SameContent t (record t { memcxt = m })
  unfolding bin_at
  recontext t is m ok same =
      IsTable-same t (record t { memcxt = m }) is
        (record {
          memcxt = ok;
          filled = λ i h.
              let (s, at, used, index) = is.store.filled i h in (s, at, same s ∙ used, index);
          beyond = is.store.beyond;
          distinct = is.store.distinct;
          clean = λ s j h unused. is.store.clean s j h (sym (same s) ∙ unused);
          capacity = is.store.capacity;
          length_bound = is.store.length_bound;
        })
        (record {
          small = is.sized.small;
          limit = is.sized.limit;
          below = is.sized.below;
          bins = is.sized.bins;
        })
        refl refl refl refl (λ i. refl)

  -- The table with another context and another count
  pub recontext-counted :
      (t : Metadata)
      → IsTable t
      → (m : Memcxt) → IsMemcxt m
      → ((s : Slot) → segment_used m s ≡ segment_used t.memcxt s)
      → (n : ℕ)
      → IsTable (counted_as (record t { memcxt = m }) n)
        × SameContent t (counted_as (record t { memcxt = m }) n)
  recontext-counted t is m ok segments n =
      let (table, same) = recontext t is m ok segments in
      let same' = counted_as-SameContent (record t { memcxt = m }) n in
      (
        counted_as-IsTable (record t { memcxt = m }) n table,
        record {
          views = λ k. same'.views k ∙ same.views k;
          totals = λ w. same'.totals w ∙ same.totals w;
        },
      )

  module _ (t : Metadata) (is : IsTable t) (i : ℕ) (below : i < t.bincount) (s : Slot)
      (at : t.entries (i / 256) ≡ some s) (chain : List Bucket) where
    abbrev pub written : Metadata
    written = write_bin t (s, i % 256) chain

    bins_after : (j : ℕ) → bin_at written j ≡ (if i == j then chain else bin_at t j)
    bins_after = bin_at-write_bin t is.store i s at chain

    -- A write of buckets that belong there keeps the invariant.
    pub written-IsTable : All (λ b. home t.maxp t.p b.chunk == i) chain → IsTable written
    unfolding write_bin
    written-IsTable belong = record {
      sized = record {
        small = is.sized.small;
        limit = is.sized.limit;
        below = is.sized.below;
        bins = is.sized.bins;
      };
      store = write_bin-IsStore t is.store i s at chain;
      current = is.current;
      placed = λ j. elim (Bool-cases (i == j)) [
        | inl e ↦ rw (bins_after j, e, ← ==_true i j e) belong
        | inr e ↦ rw (bins_after j, e) (is.placed j)
      ];
    }

    -- It changes the buckets of the chunks of this bin.
    pub buckets_of-written :
        (k : ℕ)
        → buckets_of written k
          ≡ (if i == home t.maxp t.p k then of_chunk k chain else buckets_of t k)
    unfolding buckets_of write_bin
    buckets_of-written k = elim (Bool-cases (i == home t.maxp t.p k)) [
      | inl e ↦ rw (bins_after (home t.maxp t.p k), e)
      | inr e ↦ rw (bins_after (home t.maxp t.p k), e)
    ]

    -- It changes each sum by what it changes in this bin.
    pub total-written :
        (w : Bucket → ℕ) → total w written + sum w (bin_at t i) ≡ total w t + sum w chain
    unfolding total write_bin
    total-written w =
        let change =
          sum_bins-change w t.bincount i (bin_at t) (bin_at written) below
            (λ j h ne. ground (arith, bins_after j)) in
        ground (arith, change, bins_after i)
