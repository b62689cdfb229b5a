-- ===== src/Metadata/Expand/Correct.antt =====
-- `metadata_expand_table` and `metadata_expand_check`.
use sri_glibc_malloc.Base.{
  ℕ, ◌+◌, ◌^◌, ◌≤◌, ◌<◌, ◌≡◌, inl, inr, refl, ◌∙◌, Bool, true, false, ◌&&◌, Option, some, arith,
  ltb, Bool-cases,
}
use sri_glibc_malloc.Memcxt.{Slot}
use sri_glibc_malloc.Memcxt.Laws.{SegmentsFresh, Refused, bucket_used}
use sri_glibc_malloc.Utils.{Mmap, add_size}
use sri_glibc_malloc.Utils.Sizes.{add_size_lem}
use sri_glibc_malloc.Metadata.{Metadata, bincount_max, metadata_load}
use sri_glibc_malloc.Metadata.Store.{bin_at}
use sri_glibc_malloc.Metadata.Store.Table.{IsTable, SameContent}
use sri_glibc_malloc.Metadata.Expand.{grow_directory, metadata_expand_table, metadata_expand_check}
use sri_glibc_malloc.Metadata.Expand.Directory.{IsApart, moved, moved-IsStore, grow_directory-Grown}
use sri_glibc_malloc.Metadata.Expand.Bins.{Expanded, IsTable-same, expand_bins-ExpandedTo}
use sri_glibc_malloc.Variant.{Variant}

module _ ⦃code : Variant⦄ where
  pub same_trans : (t u v : Metadata) → SameContent t u → SameContent u v → SameContent t v
  same_trans t u v a b = record {
    views = λ k. b.views k ∙ a.views k;
    totals = λ w. b.totals w ∙ a.totals w;
  }

  -- The conditions on a table under which an expansion is certain to pass the code's assertions:
  -- at most 2 ^ 31 - 256 bins, and a system that maps nothing over what is mapped. With one more bin
  -- there are 2 ^ 23 segments, and a directory of that length cannot be doubled: the assertion on
  -- `directory_length_max` fails.
  pub record CanExpand (mmap : Mmap) (t : Metadata) : Type 0 where
    pub fresh : SegmentsFresh mmap t.memcxt
    pub apart : IsApart mmap t
    pub few : t.bincount + 256 ≤ 2 ^ 31

  module _ (t : Metadata) (is : IsTable t) (mmap : Mmap) (can : CanExpand mmap t) where
    module _ (d n : ℕ) (fits : t.directory_current ≤ n) (small : n ≤ 2 ^ 24) where
      abbrev u : Metadata
      u = moved t d n

      moved_table : IsTable u × SameContent t u
      unfolding bin_at
      moved_table =
          IsTable-same t u is (moved-IsStore t is.store d n fits small)
            (record {
              small = is.sized.small;
              limit = is.sized.limit;
              below = is.sized.below;
              bins = is.sized.bins;
            })
            refl refl refl refl (λ i. refl)

      Expanded-moved : (ok : Bool) (t' : Metadata) → Expanded u ok t' → Expanded t ok t'
      Expanded-moved ok t' e = record {
        table = e.table;
        same = same_trans t u t' moved_table.1 e.same;
        count = e.count;
        used = e.used;
        bincount = e.bincount;
      }

    sum_fits : add_size t.maxp t.p ≡ (true, some (t.maxp + t.p))
    sum_fits = ground (arith, add_size_lem t.maxp t.p, is.sized.bins, can.few)

    inside : ltb (t.maxp + t.p) bincount_max ≡ true
    inside = ground (arith, is.sized.bins, can.few)

    abbrev pub ExpandedTable : Option (Bool × Metadata) → Type 0
    ExpandedTable r =
        (ok : Bool) × (t' : Metadata) × (r ≡ some (ok, t'))
        × Expanded t ok t'
        × (ok ≡ false → Refused mmap)

    after_directory :
        (ok : Bool) (d n : ℕ)
        → grow_directory mmap t ≡ some (ok, moved t d n)
        → t.directory_current ≤ n
        → n ≤ 2 ^ 24
        → (ok ≡ true → t.directory_current < n)
        → (ok ≡ false → Refused mmap)
        → ExpandedTable (metadata_expand_table mmap t)
    unfolding metadata_expand_table
    after_directory false d n run fits small more blame =
        let (table, same) = moved_table d n fits small in
        (
          false,
          moved t d n,
          rw (sum_fits, metadata_expand_table, sum_fits, inside, run),
          record { table = table; same = same; count = refl; used = λ s. refl; bincount = refl },
          blame,
        )
    after_directory true d n run fits small more blame =
        let (table, same) = moved_table d n fits small in
        let (ok', t', bins, e, blame') =
          expand_bins-ExpandedTo (moved t d n) table mmap can.fresh can.few (more refl) in
        (
          ok',
          t',
          rw (sum_fits, metadata_expand_table, sum_fits, inside, run, bins),
          Expanded-moved d n fits small ok' t' e,
          blame',
        )

    -- In a right table with at most 2 ^ 31 - 256 bins, on a system that maps no new pool of segments or
    -- directory over the old ones, `metadata_expand_table` passes its assertions. It keeps the
    -- invariant and the content, whether or not memory is exhausted on the way, and adds one bin if it
    -- succeeds. It fails only if the system refuses a mapping.
    pub metadata_expand_table-Expanded : ExpandedTable (metadata_expand_table mmap t)
    metadata_expand_table-Expanded =
        let (ok, d, n, run, fits, small, more, blame) =
          grow_directory-Grown t is.store mmap can.apart (omega (arith, is.current, can.few))
            (omega (arith, is.current, is.sized.bins, is.sized.below, is.store.capacity)) in
        after_directory ok d n run fits small more blame

  -- The table with the same content, the same books, and the invariant
  pub record Kept (t t' : Metadata) : Type 0 where
    pub table : IsTable t'
    pub same : SameContent t t'
    pub count : t'.count ≡ t.count
    pub used : (s : Slot) → bucket_used t'.memcxt s ≡ bucket_used t.memcxt s

  pub Kept-refl : (t : Metadata) → IsTable t → Kept t t
  Kept-refl t is = record {
    table = is;
    same = record { views = λ k. refl; totals = λ w. refl };
    count = refl;
    used = λ s. refl;
  }

  -- At most one bin more, and failure only if the system refuses a mapping
  pub record Stepped (mmap : Mmap) (t : Metadata) (ok : Bool) (t' : Metadata) : Type 0 where
    pub bins : t'.bincount ≤ t.bincount + 1
    pub blame : ok ≡ false → Refused mmap

  -- In a right table with at most 2 ^ 31 - 256 bins, on a system that maps no new pool of segments or
  -- directory over the old ones, `metadata_expand_check` returns, whether or not an expansion is due,
  -- and keeps the invariant, the content and the books. It adds at most one bin, and fails only if the system refuses a mapping.
  pub metadata_expand_check-Kept :
      (t : Metadata)
      → IsTable t
      → (mmap : Mmap) → CanExpand mmap t
      → (ok : Bool) × (t' : Metadata) × (metadata_expand_check mmap t ≡ some (ok, t'))
        × Kept t t'
        × Stepped mmap t ok t'
  unfolding metadata_expand_check
  metadata_expand_check-Kept t is mmap can =
      elim (Bool-cases (ltb t.bincount bincount_max && ltb code.max_load (metadata_load t))) [
        | inl due ↦
            let (ok, t', run, e, blame) = metadata_expand_table-Expanded t is mmap can in
            (
              ok,
              t',
              rw due run,
              record { table = e.table; same = e.same; count = e.count; used = e.used },
              record { bins = ground (arith, e.bincount); blame = blame },
            )
        | inr idle ↦ (
          true,
          t,
          rw idle,
          Kept-refl t is,
          record { bins = omega arith; blame = λ h. absurd (ground arith) },
        )
      ]
