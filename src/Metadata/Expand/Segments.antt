-- ===== src/Metadata/Expand/Segments.antt =====
-- Growth of the segments: the segment of the new bin.
use sri_glibc_malloc.Base.{
  ℕ, ◌+◌, ◌/◌, ◌%◌, ◌<◌, ◌≡◌, inl, inr, refl, sym, Bool, true, false, Option, none, some, arith,
  ◌==◌, if◌then◌else◌, Bool-cases, ==_true, eq_of_some,
}
use sri_glibc_malloc.Utils.{Mmap}
use sri_glibc_malloc.Memcxt.{Memcxt, Slot, Pointer, nowhere, region, element, same_slot}
use sri_glibc_malloc.Memcxt.Laws.{
  SegmentsFresh, segment_used, bucket_used, SegmentTaken, Refused, allocate_segment_lem,
}
use sri_glibc_malloc.Metadata.{Metadata}
use sri_glibc_malloc.Metadata.Expand.{place_segment, grow_segments}
use sri_glibc_malloc.Metadata.Store.{
  IsStore, bin_at, same_slot-true, same_slot_refl, entry_used, Holds,
}
use sri_glibc_malloc.Variant.{Variant}

module _ ⦃code : Variant⦄ where
  -- The table with other segments
  abbrev pub resegmented : Metadata → Memcxt → (ℕ → Option Slot) → ℕ → Metadata
  resegmented t m e c = record t { memcxt = m; entries = e; directory_current = c }

  module _ (t : Metadata) (is : IsStore t) (room : t.directory_current < t.directory_length)
      (mmap : Mmap) (fresh : SegmentsFresh mmap t.memcxt) where
    -- What the growth of the segments for the new bin `new` leaves: every bin as it was, and the
    -- segment of the new bin if it succeeded.
    pub record Segmented (new : ℕ) (ok : Bool) (t' : Metadata) : Type 0 where
      pub store : IsStore t'
      pub bins : (i : ℕ) → bin_at t' i ≡ bin_at t i
      pub used : (s : Slot) → bucket_used t'.memcxt s ≡ bucket_used t.memcxt s
      pub entries : (i : ℕ) → i < t.directory_current → t'.entries i ≡ t.entries i
      pub grown : ok ≡ true → t'.directory_current ≡ (new + 256) / 256
      pub failed : ok ≡ false → t'.directory_current ≡ t.directory_current
      pub refused : ok ≡ false → Refused mmap

    module _ (s : Slot) (m : Memcxt) (got : SegmentTaken mmap t.memcxt (element s, m)) where
      abbrev placed : Metadata
      placed =
          resegmented t m (λ i. if i == t.directory_current then some s else t.entries i)
            (t.directory_current + 1)

      entry_apart : (i : ℕ) (r : Slot) → t.entries i ≡ some r → same_slot s r ≡ false
      entry_apart i r e = elim (Bool-cases (same_slot s r)) [
        | inl same ↦
            let used : segment_used t.memcxt s ≡ true =
              rw (same_slot-true s r same) (entry_used t is i r e) in
            absurd (ground (arith, got.1))
        | inr ne ↦ ne
      ]

      pub place_segment-bins : (i : ℕ) → bin_at placed i ≡ bin_at t i
      unfolding bin_at
      place_segment-bins i = elim (Bool-cases (i / 256 == t.directory_current)) [
        | inl here ↦
            let gone : t.entries (i / 256) ≡ none = is.beyond (i / 256) (ground arith) in
            rw (here, gone) (is.clean s (i % 256) (omega arith) got.1)
        | inr there ↦ rw there
      ]

      place_segment-filled : (i : ℕ) → i < t.directory_current + 1 → Holds placed i
      place_segment-filled i h = elim (Bool-cases (i == t.directory_current)) [
        | inl new ↦ (s, rw new, ground (arith, got.3 s, same_slot_refl s), got.2)
        | inr old ↦
            let (r, at, used, index) = is.filled i (ground arith) in
            (r, rw old at, ground (arith, got.3 r, used), index)
      ]

      place_segment-distinct :
          (i j : ℕ) (a b : Slot)
          → placed.entries i ≡ some a
          → placed.entries j ≡ some b
          → same_slot a b ≡ true
          → i ≡ j
      place_segment-distinct i j a b e e' same = elim (Bool-cases (i == t.directory_current)) [
        | inl new ↦ elim (Bool-cases (j == t.directory_current)) [
          | inl new' ↦ ground arith
          | inr old' ↦
              let here : a ≡ s = eq_of_some a s (sym (rw new at e)) in
              let there : t.entries j ≡ some b = rw old' at e' in
              absurd (ground (arith, entry_apart j b there))
        ]
        | inr old ↦ elim (Bool-cases (j == t.directory_current)) [
          | inl new' ↦
              let there : b ≡ s = eq_of_some b s (sym (rw new' at e')) in
              let here : t.entries i ≡ some a = rw old at e in
              absurd (ground (arith, entry_apart i a here))
          | inr old' ↦ is.distinct i j a b (rw old at e) (rw old' at e') same
        ]
      ]

      pub place_segment-IsStore : IsStore placed
      place_segment-IsStore = record {
        memcxt = got.0;
        filled = λ i h. place_segment-filled i h;
        beyond = λ i h.
            let ne : (i == t.directory_current) ≡ false = ground arith in
            rw ne (is.beyond i (omega arith));
        distinct = λ i j a b e e' same. place_segment-distinct i j a b e e' same;
        clean = λ r j h unused. is.clean r j h (ground (arith, got.3 r));
        capacity = omega arith;
        length_bound = is.length_bound;
      }

    -- The new bin `new` is the next one after the bins that there are.
    module _ (new : ℕ) (current : t.directory_current ≡ (new + 255) / 256) where
      -- The outcome of the growth
      abbrev pub SegmentedAt : Option (Bool × Metadata) → Type 0
      SegmentedAt r =
          (ok : Bool) × (m : Memcxt) × (e : ℕ → Option Slot) × (c : ℕ) × (r
            ≡ some (ok, resegmented t m e c))
          × Segmented new ok (resegmented t m e c)

      unchanged :
          (ok : Bool) (m : Memcxt)
          → m ≡ t.memcxt
          → (ok ≡ true → t.directory_current ≡ (new + 256) / 256)
          → (ok ≡ false → Refused mmap)
          → SegmentedAt (some (ok, record t { memcxt = m }))
      unchanged ok m same grown refused = (
        ok,
        m,
        t.entries,
        t.directory_current,
        refl,
        rw same (record {
          store = is;
          bins = λ i. refl;
          used = λ s. refl;
          entries = λ i h. refl;
          grown = grown;
          failed = λ h. refl;
          refused = refused;
        }),
      )

      place_segment-SegmentedAt :
          (r : Pointer × Memcxt)
          → new % 256 ≡ 0
          → SegmentTaken mmap t.memcxt r
          → SegmentedAt (some (place_segment t (new / 256) r))
      place_segment-SegmentedAt (nowhere, m) z got =
          unchanged false m got.0 (λ h. absurd (ground arith)) (λ h. got.1)
      place_segment-SegmentedAt (region a, m) z got = absurd got
      place_segment-SegmentedAt (element s, m) z got =
          let here : new / 256 ≡ t.directory_current = omega arith in
          (
            true,
            m,
            (λ i. if i == t.directory_current then some s else t.entries i),
            t.directory_current + 1,
            rw here,
            record {
              store = place_segment-IsStore s m got;
              bins = place_segment-bins s m got;
              used = got.4;
              entries = λ i h. ground arith;
              grown = λ h. omega arith;
              failed = λ h. absurd (ground arith);
              refused = λ h. absurd (ground arith);
            },
          )

      pub grow_segments-SegmentedAt : SegmentedAt (grow_segments mmap t (new / 256) (new % 256))
      unfolding grow_segments
      grow_segments-SegmentedAt = elim (Bool-cases (new % 256 == 0)) [
        | inl first ↦
            let gone : t.entries (new / 256) ≡ none = is.beyond (new / 256) (ground arith) in
            let (r, run, got) = allocate_segment_lem mmap t.memcxt 2056 is.memcxt fresh in
            rw (first, gone, run) (place_segment-SegmentedAt r (==_true _ _ first) got)
        | inr inside ↦
            rw inside
              (unchanged true t.memcxt refl (λ h. ground arith) (λ h. absurd (ground arith)))
      ]
