-- ===== src/Metadata/Contract/Segment.antt =====
-- The release of the last segment once its bins are empty.
use sri_glibc_malloc.Base.{
  ℕ, ◌+◌, ◌-◌, ◌/◌, ◌%◌, ◌<◌, ◌≤◌, ◌≡◌, inl, inr, refl, sym, true, false, ◌&&◌, not, none, some, [],
  ◌==◌, if◌then◌else◌, arith, Bool-cases, ==_true, Option,
}
use sri_glibc_malloc.Memcxt.{Memcxt, Slot, same_slot}
use sri_glibc_malloc.Memcxt.Laws.{IsMemcxt, segment_used, bucket_used, release_segment_lem}
use sri_glibc_malloc.Metadata.{Metadata}
use sri_glibc_malloc.Metadata.Expand.Segments.{resegmented}
use sri_glibc_malloc.Metadata.Store.{IsStore, Holds, bin_at, same_slot-true}
use sri_glibc_malloc.Metadata.Contract.{shrink_segments}
use sri_glibc_malloc.Variant.{Variant}

module _ ⦃code : Variant⦄ where
  module _ (t : Metadata) (is : IsStore t) (src : ℕ)
      (current : t.directory_current ≡ (src + 256) / 256)
      (empty : (i : ℕ) → src ≤ i → bin_at t i ≡ []) where
    -- What the release leaves: every bin as it was, and the segments that the bins below `src` need.
    pub record Shrunk (t' : Metadata) : Type 0 where
      pub store : IsStore t'
      pub bins : (i : ℕ) → bin_at t' i ≡ bin_at t i
      pub used : (s : Slot) → bucket_used t'.memcxt s ≡ bucket_used t.memcxt s
      pub segments : t'.directory_current ≡ (src + 255) / 256

    abbrev pub ShrunkTo : Option Metadata → Type 0
    ShrunkTo r =
        (m : Memcxt) × (e : ℕ → Option Slot) × (c : ℕ) × (r ≡ some (resegmented t m e c))
        × Shrunk (resegmented t m e c)

    abbrev k : ℕ
    k = src / 256

    module _ (first : src % 256 ≡ 0) (s : Slot) (at : t.entries k ≡ some s)
        (used : segment_used t.memcxt s ≡ true) (m : Memcxt) (ok : IsMemcxt m)
        (reads : (r : Slot)
          → segment_used m r ≡ (segment_used t.memcxt r && not (same_slot r s))) where
      abbrev freed : Metadata
      freed = resegmented t m (λ i. if i == k then none else t.entries i) (t.directory_current - 1)

      freed-bins : (i : ℕ) → bin_at freed i ≡ bin_at t i
      unfolding bin_at
      freed-bins i = elim (Bool-cases (i / 256 == k)) [
        | inl here ↦ rw here (sym (empty i (ground arith)))
        | inr there ↦ rw there
      ]

      last_bins : (j : ℕ) → j < 256 → t.bins s j ≡ []
      unfolding bin_at
      last_bins j h =
          let high : (src + j) / 256 ≡ k = omega arith in
          let low : (src + j) % 256 ≡ j = omega arith in
          rw (high, at, low) at (empty (src + j) (omega arith))

      freed-filled : (i : ℕ) → i < t.directory_current - 1 → Holds freed i
      freed-filled i h =
          let (r, at_i, used_r, index) = is.filled i (omega arith) in
          let ne : (i == k) ≡ false = ground (arith, current) in
          let apart : same_slot r s ≡ false = elim (Bool-cases (same_slot r s)) [
            | inl same ↦ absurd (ground (arith, is.distinct i k r s at_i at same))
            | inr differ ↦ differ
          ] in
          (r, rw ne at_i, rw (reads r, used_r, apart), index)

      freed-distinct :
          (i j : ℕ) (a b : Slot)
          → freed.entries i ≡ some a
          → freed.entries j ≡ some b
          → same_slot a b ≡ true
          → i ≡ j
      freed-distinct i j a b e e' same = elim (Bool-cases (i == k)) [
        | inl out ↦ absurd (ground arith)
        | inr in_i ↦ elim (Bool-cases (j == k)) [
          | inl out ↦ absurd (ground arith)
          | inr in_j ↦ is.distinct i j a b (rw in_i at e) (rw in_j at e') same
        ]
      ]

      freed-clean : (r : Slot) (j : ℕ) → j < 256 → segment_used m r ≡ false → t.bins r j ≡ []
      freed-clean r j h unused = elim (Bool-cases (same_slot r s)) [
        | inl same ↦ rw (same_slot-true r s same) (last_bins j h)
        | inr differ ↦ is.clean r j h (ground (arith, reads r))
      ]

      freed-IsStore : IsStore freed
      freed-IsStore = record {
        memcxt = ok;
        filled = freed-filled;
        beyond = λ i h. elim (Bool-cases (i == k)) [
          | inl out ↦ rw out
          | inr other ↦ rw other (is.beyond i (ground (arith, current)))
        ];
        distinct = freed-distinct;
        clean = freed-clean;
        capacity = omega (arith, is.capacity);
        length_bound = is.length_bound;
      }

    pub shrink_segments-ShrunkTo : ShrunkTo (shrink_segments t k (src % 256))
    unfolding shrink_segments
    shrink_segments-ShrunkTo = elim (Bool-cases (src % 256 == 0)) [
      | inr inside ↦ (
        t.memcxt,
        t.entries,
        t.directory_current,
        rw inside,
        record {
          store = is;
          bins = λ i. refl;
          used = λ s. refl;
          segments = ground (arith, current);
        },
      )
      | inl first ↦
          let zero_rest : src % 256 ≡ 0 = ==_true _ _ first in
          let (s, at, used, index) = is.filled k (omega arith) in
          let (m, run, (ok, reads, buckets)) =
            release_segment_lem t.memcxt s is.memcxt index used in
          (
            m,
            (λ i. if i == k then none else t.entries i),
            t.directory_current - 1,
            rw (first, at, run),
            record {
              store = freed-IsStore zero_rest s at used m ok reads;
              bins = freed-bins zero_rest s at used m ok reads;
              used = buckets;
              segments = omega (arith, current, zero_rest);
            },
          )
    ]
