-- ===== src/Metadata/Expand/Bins.antt =====
-- `expand_bins`, the part of `metadata_expand_table` behind the growth of the directory.
use sri_glibc_malloc.Base.{
  ◌≤◌, ℕ, suc, ◌+◌, ◌/◌, ◌%◌, ◌^◌, ◌<◌, ◌≡◌, refl, sym, ◌∙◌, ap, Bool, true, false, Option, some,
  [], arith, if◌then◌else◌,
}
use mathlib.Core.Path.{fun_ext}
use sri_glibc_malloc.Memcxt.{Slot, Memcxt}
use sri_glibc_malloc.Memcxt.Laws.{Refused, SegmentsFresh, bucket_used}
use sri_glibc_malloc.Utils.{Mmap}
use sri_glibc_malloc.Metadata.{Metadata}
use sri_glibc_malloc.Metadata.Hash.{next_limit, next_split, mod_power_of_two_lem}
use sri_glibc_malloc.Metadata.Content.{sum_bins}
use sri_glibc_malloc.Metadata.Content.Split.{split, split-Placed, split-view, split-sum_bins}
use sri_glibc_malloc.Metadata.Store.{IsStore, bin_at}
use sri_glibc_malloc.Metadata.Store.Table.{
  IsSized, IsTable, SameContent, buckets_of, total, Placed-known, buckets_of-known, total-known,
  bin_lem, bin_at-beyond,
}
use sri_glibc_malloc.Metadata.Expand.{grow_segments, split_bin, expand_bins}
use sri_glibc_malloc.Metadata.Expand.Segments.{resegmented, Segmented, grow_segments-SegmentedAt}
use sri_glibc_malloc.Metadata.Expand.Splitting.{IsSplit, split_bin-IsSplit}
use sri_glibc_malloc.Variant.{Variant}

module _ ⦃code : Variant⦄ where
  -- The outcome of an expansion: the invariant, the same content, one bin more if it succeeded and as
  -- many bins if it failed.
  pub record Expanded (t : Metadata) (ok : Bool) (t' : Metadata) : Type 0 where
    pub table : IsTable t'
    pub same : SameContent t t'
    pub count : t'.count ≡ t.count
    pub used : (s : Slot) → bucket_used t'.memcxt s ≡ bucket_used t.memcxt s
    pub bincount : t'.bincount ≡ (if ok then t.bincount + 1 else t.bincount)

  -- A table of the same numbers and bins
  pub IsTable-same :
      (t t' : Metadata)
      → IsTable t
      → IsStore t'
      → IsSized t'
      → t'.maxp ≡ t.maxp
      → t'.p ≡ t.p
      → t'.bincount ≡ t.bincount
      → t'.directory_current ≡ t.directory_current
      → ((i : ℕ) → bin_at t' i ≡ bin_at t i)
      → IsTable t' × SameContent t t'
  unfolding buckets_of total
  IsTable-same t t' is store sized m p n c bins = (
    record {
      sized = sized;
      store = store;
      current = omega (arith, is.current);
      placed = Placed-known t' t.maxp t.p (bin_at t) m p bins is.placed;
    },
    record {
      views = buckets_of-known t' t.maxp t.p (bin_at t) m p bins;
      totals = λ w. total-known t' t.maxp t.p (bin_at t) m p bins w t.bincount n;
    },
  )

  -- A table after Larson's split
  IsTable-split :
      (t v t' : Metadata)
      → IsTable t
      → IsSplit v t'
      → v.maxp ≡ t.maxp
      → v.p ≡ t.p
      → v.bincount ≡ t.bincount
      → t'.directory_current ≡ (t.bincount + 256) / 256
      → ((i : ℕ) → bin_at v i ≡ bin_at t i)
      → IsTable t' × SameContent t t'
  unfolding buckets_of total
  IsTable-split t v t' is parted m p n c bins =
      let lt = is.sized.below in
      let limit : t'.maxp ≡ next_limit t.maxp t.p = parted.maxp ∙ (λ x. next_limit (m x) (p x)) in
      let at : t'.p ≡ next_split t.maxp t.p = parted.p ∙ (λ x. next_split (m x) (p x)) in
      let moved_bins : (i : ℕ) → bin_at t' i ≡ split t.maxp t.p (bin_at t) i =
        λ i. parted.bins i ∙ (λ x. split (m x) (p x) (fun_ext bins x) i) in
      let f = split t.maxp t.p (bin_at t) in
      (
        record {
          sized = parted.sized;
          store = parted.store;
          current = omega (arith, parted.bincount);
          placed =
              Placed-known t' _ _ f limit at moved_bins
                (split-Placed t.maxp t.p lt (bin_at t) is.placed);
        },
        record {
          views = λ k.
              buckets_of-known t' _ _ f limit at moved_bins k
              ∙ split-view t.maxp t.p lt (bin_at t) k;
          totals = λ w.
              total-known t' _ _ f limit at moved_bins w (suc (t.maxp + t.p))
                (omega (arith, parted.bincount, is.sized.bins))
              ∙ split-sum_bins t.maxp t.p lt w (bin_at t)
              ∙ ap (λ n. sum_bins w n (bin_at t)) (sym is.sized.bins);
        },
      )

  module _ (t : Metadata) (is : IsTable t) (mmap : Mmap) (fresh : SegmentsFresh mmap t.memcxt)
      (few : t.bincount + 256 ≤ 2 ^ 31) where
    abbrev pub ExpandedTo : Option (Bool × Metadata) → Type 0
    ExpandedTo r =
        (ok : Bool) × (t' : Metadata) × (r ≡ some (ok, t'))
        × Expanded t ok t'
        × (ok ≡ false → Refused mmap)

    abbrev new : ℕ
    new = t.maxp + t.p

    current : t.directory_current ≡ (new + 255) / 256
    current = omega (arith, is.current, is.sized.bins)

    module _ (room : t.directory_current < t.directory_length) (m : Memcxt) (e : ℕ → Option Slot)
        (c : ℕ) where
      abbrev v : Metadata
      v = resegmented t m e c

      -- The segments could not grow.
      Expanded-failed : Segmented t is.store room mmap fresh new false v → Expanded t false v
      Expanded-failed seg =
          let (table, same) =
            IsTable-same t v is seg.store
              (record {
                small = is.sized.small;
                limit = is.sized.limit;
                below = is.sized.below;
                bins = is.sized.bins;
              })
              refl refl refl (seg.failed refl) seg.bins in
          record { table = table; same = same; count = refl; used = seg.used; bincount = refl }

      -- The segments have room for the new bin: the old bin is split.
      module _ (seg : Segmented t is.store room mmap fresh new true v) where
        split_bin-Expanded :
            (s r : Slot)
            → t.entries (t.p / 256) ≡ some s
            → e (new / 256) ≡ some r
            → (t' : Metadata) × (split_bin v (s, t.p % 256) (r, new % 256) new ≡ some t')
              × Expanded t true t'
        split_bin-Expanded s r at at' =
            let sized : IsSized v = record {
              small = is.sized.small;
              limit = is.sized.limit;
              below = is.sized.below;
              bins = is.sized.bins;
            } in
            let below : t.p / 256 < t.directory_current = omega (arith, current, is.sized.below) in
            let empty : bin_at v new ≡ [] =
              seg.bins new ∙ bin_at-beyond t is new (omega (arith, is.sized.bins)) in
            let (t', run, parted) =
              split_bin-IsSplit v seg.store sized few s r (seg.entries (t.p / 256) below ∙ at) at'
                empty in
            let (table, same) =
              IsTable-split t v t' is parted refl refl refl
                (parted.kept.2 ∙ seg.grown refl ∙ ap (λ x. (x + 256) / 256) (sym is.sized.bins))
                seg.bins in
            (
              t',
              run,
              record {
                table = table;
                same = same;
                count = parted.kept.1;
                used = λ q. ap (λ x. bucket_used x q) parted.kept.0 ∙ seg.used q;
                bincount = parted.bincount;
              },
            )

    module _ (room : t.directory_current < t.directory_length) where
      expand_bins-from :
          (ok : Bool) (m : Memcxt) (e : ℕ → Option Slot) (c : ℕ)
          → grow_segments mmap t (new / 256) (new % 256) ≡ some (ok, resegmented t m e c)
          → Segmented t is.store room mmap fresh new ok (resegmented t m e c)
          → ExpandedTo (expand_bins mmap t new)
      unfolding expand_bins
      expand_bins-from false m e c run seg =
          let (s, at, old) = bin_lem t is t.p (omega (arith, is.sized.bins, is.sized.below)) in
          (
            false,
            resegmented t m e c,
            rw (old, mod_power_of_two_lem new 8 (omega arith), run),
            Expanded-failed room m e c seg,
            seg.refused,
          )
      expand_bins-from true m e c run seg =
          let (s, at, old) = bin_lem t is t.p (omega (arith, is.sized.bins, is.sized.below)) in
          let (r, at', used, index) =
            seg.store.filled (new / 256) (omega (arith, seg.grown refl)) in
          let (t', split, result) = split_bin-Expanded room m e c seg s r at at' in
          (
            true,
            t',
            rw (old, mod_power_of_two_lem new 8 (omega arith), run, at', split),
            result,
            seg.refused,
          )

      pub expand_bins-ExpandedTo : ExpandedTo (expand_bins mmap t new)
      expand_bins-ExpandedTo =
          let (ok, m, e, c, run, seg) =
            grow_segments-SegmentedAt t is.store room mmap fresh new current in
          expand_bins-from ok m e c run seg
