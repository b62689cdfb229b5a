-- ===== src/Metadata/Teardown/Released.antt =====
-- `delete_metadata` gives back just the buckets and the segments of the table.
use sri_glibc_malloc.Base.{
  ℕ, zero, suc, ◌+◌, ◌-◌, ◌*◌, ◌/◌, ◌%◌, ◌≤◌, ◌≡◌, refl, ap, ◌∙◌, Bool, true, false, ◌&&◌, ◌||◌,
  not, Option, none, some, arith, ◌==◌, Returns, Bool-cases, inl, inr,
}
use sri_glibc_malloc.Utils.Sizes.{mul_size-fits}
use sri_glibc_malloc.Memcxt.{Memcxt, Slot, same_slot}
use sri_glibc_malloc.Memcxt.Laws.{IsMemcxt, bucket_used, segment_used, release_segment_lem}
use sri_glibc_malloc.Metadata.{Bucket, Metadata}
use sri_glibc_malloc.Metadata.Content.{sum_bins}
use sri_glibc_malloc.Metadata.Store.{IsStore, bin_at, entry_used}
use sri_glibc_malloc.Metadata.Store.Live.{Live, at_slot}
use sri_glibc_malloc.Metadata.Store.Table.{IsTable, IsCounted, total, bin_at-beyond}
use sri_glibc_malloc.Metadata.Teardown.{release_segments, delete_metadata}
use sri_glibc_malloc.Metadata.Teardown.Sums.{rest, rest-add, rest-moved, rest-empty, sum_bins-rest}
use sri_glibc_malloc.Metadata.Teardown.Chains.{release_bins-Torn}
use sri_glibc_malloc.Variant.{Variant}

module _ ⦃code : Variant⦄ where
  both_free :
      (u u1 u2 u3 : Bool) (x y total : ℕ)
      → u1 ≡ (u && (x == 0))
      → u2 ≡ u1
      → u3 ≡ (u2 && (y == 0))
      → total ≡ x + y
      → u3 ≡ (u && (total == 0))
  both_free u u1 u2 u3 x y total first same second all = ground (arith, first, same, second, all)

  neither : (u u2 u3 a b : Bool) → u2 ≡ (u && not a) → u3 ≡ (u2 && not b) → u3 ≡ (u && not (a || b))
  neither u u2 u3 a b first second = ground (arith, first, second)

  module _ (t : Metadata) where
    -- Whether one of the `count` entries of the directory from `k` on is the segment
    abbrev is_entry : Option Slot → Slot → Bool
    is_entry none s = false
    is_entry (some r) s = same_slot s r

    unfoldable pub listed : ℕ → ℕ → Slot → Bool
    listed zero k s = false
    listed (suc count) k s = is_entry (t.entries k) s || listed count (k + 1) s

    -- The entries from `k` on hold segments in use.
    abbrev StillUsed : ℕ → Memcxt → Type 0
    StillUsed k m = (j : ℕ) (r : Slot) → k ≤ j → t.entries j ≡ some r → segment_used m r ≡ true

    -- What the teardown of the `count` segments from `k` on leaves
    record Cleared (m : Memcxt) (count k : ℕ) (m' : Memcxt) : Type 0 where
      memcxt : IsMemcxt m'
      buckets :
          (s : Slot)
          → bucket_used m' s
            ≡ (bucket_used m s && (rest (at_slot s) (count * 256) (k * 256) (bin_at t) == 0))
      segments : (s : Slot) → segment_used m' s ≡ (segment_used m s && not (listed count k s))

    module _ (is : IsStore t) where
      -- The bins of a segment
      bins_of :
          (k : ℕ) (r : Slot)
          → t.entries k ≡ some r
          → (w : Bucket → ℕ) → rest w 256 (k * 256) (bin_at t) ≡ rest w 256 0 (t.bins r)
      unfolding bin_at
      bins_of k r at w = rest-moved w 256 (k * 256) 0 (bin_at t) (t.bins r) (λ j h.
          let row : (k * 256 + j) / 256 ≡ k = omega (arith, h) in
          let column : (k * 256 + j) % 256 ≡ 0 + j = omega (arith, h) in rw (row, column, at))

      -- The other segments stay in use when one is released.
      still-used :
          (k : ℕ) (r : Slot) (m m' : Memcxt)
          → t.entries k ≡ some r
          → ((s : Slot) → segment_used m' s ≡ (segment_used m s && not (same_slot s r)))
          → StillUsed k m
          → StillUsed (k + 1) m'
      still-used k r m m' at released used j s h e = elim (Bool-cases (same_slot s r)) [
        | inl same ↦
            let one : j ≡ k = is.distinct j k s r e at same in absurd (omega (arith, one, h))
        | inr other ↦ ground (arith, released s, used j s (omega (arith, h)) e)
      ]

      release_segments-Cleared :
          (count k : ℕ) (m : Memcxt)
          → k + count ≡ t.directory_current
          → IsMemcxt m
          → StillUsed k m
          → Live m (λ s. rest (at_slot s) (count * 256) (k * 256) (bin_at t))
          → Returns (release_segments t count k m) (Cleared m count k)
      unfolding release_segments listed
      release_segments-Cleared zero k m all ok used live = (
        m,
        refl,
        record {
          memcxt = ok;
          buckets = λ s. unfold rest in ground arith;
          segments = λ s. ground arith;
        },
      )
      release_segments-Cleared (suc count) k m all ok used live =
          let (r, at, held, index) = is.filled k (omega (arith, all)) in
          let size : suc count * 256 ≡ 256 + count * 256 = omega arith in
          let place : k * 256 + 256 ≡ (k + 1) * 256 = omega arith in
          let split : (s : Slot)
              → rest (at_slot s) (suc count * 256) (k * 256) (bin_at t)
                ≡ rest (at_slot s) 256 0 (t.bins r)
                  + rest (at_slot s) (count * 256) ((k + 1) * 256) (bin_at t) =
            λ s.
              ap (λ c. rest (at_slot s) c (k * 256) (bin_at t)) size
              ∙ (rest-add (at_slot s) 256 (count * 256) (k * 256) (bin_at t)
                  ∙ rw (place, bins_of k r at (at_slot s))) in
          let (m1, run1, (torn, live1)) =
            release_bins-Torn t r 256 0 m
              (λ s. rest (at_slot s) (count * 256) ((k + 1) * 256) (bin_at t)) ok
              (λ s. omega (arith, live s, split s)) in
          let (m2, run2, (ok2, released, kept)) =
            release_segment_lem m1 r torn.memcxt index
              (torn.segments r ∙ used k r (omega arith) at) in
          let released' : (s : Slot)
              → segment_used m2 s ≡ (segment_used m s && not (same_slot s r)) =
            λ s. ground (arith, released s, torn.segments s) in
          let (m3, run3, later) =
            release_segments-Cleared count (k + 1) m2 (omega (arith, all)) ok2
              (still-used k r m m2 at released' used) (λ s. ground (arith, live1 s, kept s)) in
          (
            m3,
            rw (at, run1, run2, run3),
            record {
              memcxt = later.memcxt;
              buckets = λ s.
                  both_free (bucket_used m s) (bucket_used m1 s) (bucket_used m2 s)
                    (bucket_used m3 s) (rest (at_slot s) 256 0 (t.bins r))
                    (rest (at_slot s) (count * 256) ((k + 1) * 256) (bin_at t))
                    (rest (at_slot s) (suc count * 256) (k * 256) (bin_at t)) (torn.buckets s)
                    (kept s) (later.buckets s) (split s);
              segments = λ s. rw at (
                  neither (segment_used m s) (segment_used m2 s) (segment_used m3 s) (same_slot s r)
                    (listed count (k + 1) s) (released' s) (later.segments s));
            },
          )

  -- What the teardown leaves: of the buckets those that the table did not hold, of the segments those
  -- that its directory did not list
  pub record Freed (t : Metadata) (m : Memcxt) : Type 0 where
    pub memcxt : IsMemcxt m
    pub buckets :
        (s : Slot) → bucket_used m s ≡ (bucket_used t.memcxt s && (total (at_slot s) t == 0))
    pub segments :
        (s : Slot)
        → segment_used m s ≡ (segment_used t.memcxt s && not (listed t t.directory_current 0 s))

  module _ (t : Metadata) (is : IsTable t) where
    -- All the buckets stand in the segments of the directory.
    all_bins : (w : Bucket → ℕ) → rest w (t.directory_current * 256) 0 (bin_at t) ≡ total w t
    unfolding total
    all_bins w =
        let n = t.directory_current * 256 in
        let room : t.bincount + (n - t.bincount) ≡ n = omega (arith, is.current) in
        let none_behind =
          rest-empty w (n - t.bincount) t.bincount (bin_at t) (bin_at-beyond t is) in
        let split : sum_bins w t.bincount (bin_at t) + rest w (n - t.bincount) t.bincount (bin_at t)
            ≡ sum_bins w n (bin_at t) =
          sum_bins-rest w (n - t.bincount) t.bincount (bin_at t)
          ∙ ap (λ k. sum_bins w k (bin_at t)) room in
        let from_zero : 0 + n ≡ n = omega arith in
        let whole : sum_bins w 0 (bin_at t) + rest w n 0 (bin_at t) ≡ sum_bins w n (bin_at t) =
          sum_bins-rest w n 0 (bin_at t) ∙ ap (λ k. sum_bins w k (bin_at t)) from_zero in
        let nothing : sum_bins w 0 (bin_at t) ≡ 0 = unfold sum_bins in refl in
        omega (arith, whole, nothing, split, none_behind)

  -- In a right table with right books, `delete_metadata` passes its assertions and those of the
  -- pools. All buckets of the table and all segments of its directory are free then, and no others.
  pub delete_metadata-Freed :
      (t : Metadata) → IsTable t → IsCounted t → Returns (delete_metadata t) (Freed t)
  unfolding delete_metadata
  delete_metadata-Freed t is books =
      let bound = is.store.length_bound in
      let size = mul_size-fits t.directory_length 8 (omega arith) (omega arith) (omega arith) in
      let (m, run, cleared) =
        release_segments-Cleared t is.store t.directory_current 0 t.memcxt (omega arith)
          is.store.memcxt (λ j r h e. entry_used t is.store j r e)
          (λ s. omega (arith, books.live s, all_bins t is (at_slot s))) in
      (
        m,
        rw (run, size),
        record {
          memcxt = cleared.memcxt;
          buckets = λ s.
              cleared.buckets s
              ∙ ap (λ x. bucket_used t.memcxt s && (x == 0)) (all_bins t is (at_slot s));
          segments = cleared.segments;
        },
      )
