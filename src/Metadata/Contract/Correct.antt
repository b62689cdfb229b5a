-- ===== src/Metadata/Contract/Correct.antt =====
-- The contraction from the two bins on.
use sri_glibc_malloc.Base.{
  ◌>>=◌, ℕ, suc, ◌+◌, ◌/◌, ◌%◌, ◌<◌, ◌≤◌, ◌≡◌, inl, inr, refl, sym, ap, ◌∙◌, true, false, some,
  List, [], ltb, ◌==◌, arith, Bool-cases, Returns, Option,
}
use mathlib.Core.Path.{subst}
use sri_glibc_malloc.Memcxt.{Memcxt, Slot}
use sri_glibc_malloc.Memcxt.Laws.{bucket_used}
use sri_glibc_malloc.Metadata.{Bucket, Metadata}
use sri_glibc_malloc.Metadata.Hash.{next_limit, next_split, mod_power_of_two_lem}
use sri_glibc_malloc.Metadata.Content.{Placed, view, sum_bins}
use sri_glibc_malloc.Metadata.Content.Join.{join, join-Placed, join-view, join-sum_bins}
use sri_glibc_malloc.Metadata.Store.{IsStore, bin_at}
use sri_glibc_malloc.Metadata.Store.Table.{
  IsSized, IsTable, SameContent, buckets_of, total, Placed-known, buckets_of-known, total-known,
  bin_lem, bin_at-beyond,
}
use sri_glibc_malloc.Metadata.Expand.Segments.{resegmented}
use sri_glibc_malloc.Metadata.Contract.{
  move_buckets, shrink_segments, retreat, contract_target, contract_bins,
}
use sri_glibc_malloc.Metadata.Contract.Numbers.{
  last_limit, retreat-numbers, retreat-IsSized, retreat-last,
}
use sri_glibc_malloc.Metadata.Contract.Bins.{move_buckets-Moved}
use sri_glibc_malloc.Metadata.Contract.Segment.{shrink_segments-ShrunkTo}
use sri_glibc_malloc.Variant.{Variant}

module _ ⦃code : Variant⦄ where
  -- The outcome of a contraction: the invariant, the same content and books, and one bin less
  pub record Contracted (t t' : Metadata) : Type 0 where
    pub table : IsTable t'
    pub same : SameContent t t'
    pub count : t'.count ≡ t.count
    pub used : (s : Slot) → bucket_used t'.memcxt s ≡ bucket_used t.memcxt s
    pub bincount : suc t'.bincount ≡ t.bincount

  module _ (t : Metadata) (is : IsTable t) (doubled : 0 < t.doublings) where
    abbrev m : ℕ
    m = last_limit t

    abbrev p : ℕ
    p = contract_target t

    abbrev rebinned : (Slot → ℕ → List Bucket) → Metadata
    rebinned b = record t { bins = b }

    placed_before : Placed (next_limit m p) (next_split m p) (bin_at t)
    placed_before =
        let (lt, source, limit, split, bins) = retreat-numbers t is.sized doubled in
        rw (limit, split) is.placed

    empty-join : (i : ℕ) → m + p ≤ i → join m p (bin_at t) i ≡ []
    empty-join i h =
        let (lt, source, limit, split, bins) = retreat-numbers t is.sized doubled in
        let apart : (i == p) ≡ false = ground arith in
        elim (Bool-cases (i == m + p)) [
          | inl e ↦ rw (apart, e)
          | inr e ↦ rw (apart, e) (bin_at-beyond t is i (ground arith))
        ]

    -- The table that is left
    module _ (b : Slot → ℕ → List Bucket)
        (joined : (i : ℕ) → bin_at (rebinned b) i ≡ join m p (bin_at t) i) (mem : Memcxt)
        (e : ℕ → Option Slot) (c : ℕ) where
      abbrev kept : Metadata
      kept = resegmented (rebinned b) mem e c

      module _ (store : IsStore kept) (bins : (i : ℕ) → bin_at kept i ≡ bin_at (rebinned b) i)
          (used : (s : Slot) → bucket_used mem s ≡ bucket_used t.memcxt s)
          (segments : c ≡ (m + p + 255) / 256) where
        kept-IsSized : IsSized kept
        kept-IsSized = record {
          small = is.sized.small;
          limit = is.sized.limit;
          below = is.sized.below;
          bins = is.sized.bins;
        }

        left-bins : (i : ℕ) → bin_at (retreat kept) i ≡ join m p (bin_at t) i
        unfolding retreat bin_at
        left-bins i = bins i ∙ joined i

        left-IsStore : IsStore (retreat kept)
        unfolding retreat
        left-IsStore = record {
          memcxt = store.memcxt;
          filled = store.filled;
          beyond = store.beyond;
          distinct = store.distinct;
          clean = store.clean;
          capacity = store.capacity;
          length_bound = store.length_bound;
        }

        left-current : (retreat kept).directory_current ≡ ((retreat kept).bincount + 255) / 256
        unfolding retreat
        left-current =
            let (lt, source, limit, split, count) = retreat-numbers t is.sized doubled in
            omega (arith, segments, count)

        left-Contracted : Contracted t (retreat kept)
        unfolding buckets_of total contract_target
        left-Contracted =
            let (lt, source, limit, split, count) = retreat-numbers t is.sized doubled in
            let (m_after, p_after) = retreat-last kept kept-IsSized doubled in
            let less : (retreat kept).bincount ≡ m + p = unfold retreat in omega (arith, count) in
            record {
              table = record {
                sized = retreat-IsSized kept kept-IsSized doubled;
                store = left-IsStore;
                current = left-current;
                placed =
                    Placed-known (retreat kept) m p (join m p (bin_at t)) m_after p_after left-bins
                      (join-Placed m p lt (bin_at t) placed_before);
              };
              same = record {
                views = λ k.
                    buckets_of-known (retreat kept) m p (join m p (bin_at t)) m_after p_after
                      left-bins k
                    ∙ join-view m p lt (bin_at t) placed_before k
                    ∙ (λ i. view (limit i) (split i) (bin_at t) k);
                totals = λ w.
                    total-known (retreat kept) m p (join m p (bin_at t)) m_after p_after left-bins w
                      (m + p) less
                    ∙ join-sum_bins m p lt (bin_at t) placed_before w
                    ∙ (λ i. sum_bins w (sym count i) (bin_at t));
              };
              count = unfold retreat in refl;
              used = unfold retreat in used;
              bincount = omega (arith, less, count);
            }

    -- From the table with the bins joined on
    after_move :
        (moved : Metadata) (b : Slot → ℕ → List Bucket)
        → moved ≡ rebinned b
        → IsStore (rebinned b)
        → ((i : ℕ) → bin_at (rebinned b) i ≡ join m p (bin_at t) i)
        → Returns
            (shrink_segments moved ((m + p) / 256) ((m + p) % 256) >>= (λ t'. some (retreat t')))
            (Contracted t)
    after_move moved b rest store joined =
        let (lt, source, limit, split, count) = retreat-numbers t is.sized doubled in
        let (mem, e, c, shrunk, after) =
          shrink_segments-ShrunkTo (rebinned b) store (m + p) (omega (arith, is.current, count))
            (λ i h. joined i ∙ empty-join i h) in
        (
          retreat (kept b joined mem e c),
          rw (rest, shrunk),
          left-Contracted b joined mem e c after.store after.bins after.used after.segments,
        )

    -- From the two bins on, a contraction passes its assertions, and keeps the invariant, the content
    -- and the books, with one bin less.
    pub contract_bins-Contracted : Returns (contract_bins t (m + p) p) (Contracted t)
    unfolding contract_bins
    contract_bins-Contracted =
        let (lt, source, limit, split, count) = retreat-numbers t is.sized doubled in
        let (src, at, run) = bin_lem t is (m + p) (omega (arith, count)) in
        let (tgt, at', run') = bin_lem t is p (omega (arith, count, lt)) in
        let moved = move_buckets-Moved t is.store m p lt src tgt at at' in
        let b = (move_buckets t (src, (m + p) % 256) (tgt, p % 256)).bins in
        let in_src : ltb (m + p) t.bincount ≡ true = ground arith in
        let in_tgt : ltb p t.bincount ≡ true = ground arith in
        rw (in_src, in_tgt, run, run', mod_power_of_two_lem (m + p) 8 (omega arith))
          (after_move (move_buckets t (src, (m + p) % 256) (tgt, p % 256)) b moved.rest
            (subst IsStore moved.rest moved.store)
            (λ i. ap (λ x. bin_at x i) (sym moved.rest) ∙ moved.joined i))
