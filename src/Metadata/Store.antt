-- ===== src/Metadata/Store.antt =====
-- Where the bins lie: the directory, the segments in it, and writes to one bin. The invariant of
-- the table.
pub mod Live
pub mod Table
use native.Mathlib.Decide.{dec_lt}
use sri_glibc_malloc.Base.{
  ℕ, zero, suc, ◌+◌, ◌-◌, ◌*◌, ◌/◌, ◌%◌, ◌^◌, ◌≤◌, ◌<◌, ◌≡◌, ◌≢◌, inl, inr, refl, sym, ◌∙◌, ap,
  Bool, true, false, ◌&&◌, not, Option, none, some, List, [], ◌∷◌, arith, ltb, ◌==◌, if◌then◌else◌,
  Bool-cases, ==_true, ==_refl, Returns, Option-cases, eq_of_some,
}
use sri_glibc_malloc.Memcxt.{Memcxt, Slot, same_slot, sp_scale}
use sri_glibc_malloc.Memcxt.Laws.{IsMemcxt, segment_used}
use sri_glibc_malloc.Metadata.{Bucket, Metadata, bindex2bin, read_bin, write_bin}
use sri_glibc_malloc.Metadata.Hash.{mod_power_of_two_lem}
use sri_glibc_malloc.Metadata.Content.{Bins}
use sri_glibc_malloc.Variant.{Variant}

module _ ⦃code : Variant⦄ where
  abbrev pub in_segment : (Slot → ℕ → List Bucket) → Option Slot → ℕ → List Bucket
  in_segment bins none j = []
  in_segment bins (some s) j = bins s j

  -- Bin `i`, wherever it lies; empty where there is no segment.
  unfoldable pub bin_at : Metadata → Bins
  bin_at t i = in_segment t.bins (t.entries (i / 256)) (i % 256)

  -- An entry of the directory that holds a segment in use
  abbrev pub Holds : Metadata → ℕ → Type 0
  Holds t i =
      (s : Slot) × (t.entries i ≡ some s)
      × (segment_used t.memcxt s ≡ true)
      × (s.index < 64 * sp_scale)

  -- The first `directory_current` entries hold distinct segments that are in use, the others hold
  -- none, and the bins of segments that are not in use are empty.
  pub record IsStore (t : Metadata) : Type 0 where
    pub memcxt : IsMemcxt t.memcxt
    pub filled : (i : ℕ) → i < t.directory_current → Holds t i
    pub beyond : (i : ℕ) → t.directory_current ≤ i → t.entries i ≡ none
    pub distinct :
        (i j : ℕ) (s r : Slot)
        → t.entries i ≡ some s
        → t.entries j ≡ some r
        → same_slot s r ≡ true
        → i ≡ j
    pub clean : (s : Slot) (j : ℕ) → j < 256 → segment_used t.memcxt s ≡ false → t.bins s j ≡ []
    pub capacity : t.directory_current ≤ t.directory_length
    pub length_bound : t.directory_length ≤ 2 ^ 24

  pub same_slot_refl : (s : Slot) → same_slot s s ≡ true
  same_slot_refl s = ground arith

  pub same_slot-true : (s r : Slot) → same_slot s r ≡ true → s ≡ r
  same_slot-true s r h = ground arith

  pub entry_below :
      (t : Metadata)
      → IsStore t
      → (i : ℕ) (s : Slot) → t.entries i ≡ some s
      → i < t.directory_current
  entry_below t is i s e = elim (dec_lt i t.directory_current) [
    | yes h ↦ h
    | no h ↦ absurd (ground (arith, is.beyond i))
  ]

  pub entry_used :
      (t : Metadata)
      → IsStore t
      → (i : ℕ) (s : Slot) → t.entries i ≡ some s
      → segment_used t.memcxt s ≡ true
  entry_used t is i s e =
      let (r, at, used, index) = is.filled i (entry_below t is i s e) in ground arith

  -- In a right store `bindex2bin` passes its assertions for a bin that exists in a segment that
  -- exists, and finds where it lies.
  pub bindex2bin_lem :
      (t : Metadata) (i : ℕ)
      → IsStore t
      → i < t.bincount
      → i / 256 < t.directory_current
      → (s : Slot) × (t.entries (i / 256) ≡ some s) × (bindex2bin t i ≡ some (s, i % 256))
  unfolding bindex2bin
  bindex2bin_lem t i is h k =
      let (s, at, used, index) = is.filled (i / 256) k in
      let inside : ltb i t.bincount ≡ true = ground arith in
      let current : ltb (i / 256) t.directory_current ≡ true = ground arith in
      (s, at, rw (inside, current, at, mod_power_of_two_lem i 8 (omega arith)))

  module _ (t : Metadata) (is : IsStore t) (i : ℕ) (s : Slot)
      (at : t.entries (i / 256) ≡ some s) where
    pub read_bin-bin_at : read_bin t (s, i % 256) ≡ bin_at t i
    unfolding read_bin bin_at
    read_bin-bin_at = rw at

    entry_of_same : (j : ℕ) → (i == j) ≡ true → t.entries (j / 256) ≡ some s
    entry_of_same j e = ap (λ x. t.entries (x / 256)) (sym (==_true i j e)) ∙ at

    -- Two bins lie at one place only if they are one.
    same_place :
        (j : ℕ) (r : Slot)
        → t.entries (j / 256) ≡ some r
        → (same_slot s r && i % 256 == j % 256) ≡ (i == j)
    same_place j r e = elim (Bool-cases (i == j)) [
      | inl same ↦
          let slots : s ≡ r = eq_of_some s r (sym (entry_of_same j same) ∙ e) in
          rw (same, ==_true i j same, slots) (ground arith)
      | inr apart ↦ elim (Bool-cases (same_slot s r)) [
        | inl slots ↦
            let segment = is.distinct (i / 256) (j / 256) s r at e slots in
            rw (slots, apart) (ground arith)
        | inr differ ↦ rw (differ, apart)
      ]
    ]

    -- In a right store a write changes the bin that it names, and no other.
    pub bin_at-write_bin :
        (chain : List Bucket) (j : ℕ)
        → bin_at (write_bin t (s, i % 256) chain) j ≡ (if i == j then chain else bin_at t j)
    unfolding bin_at write_bin
    bin_at-write_bin chain j = elim (Option-cases (t.entries (j / 256))) [
      | inl e ↦
          let apart : (i == j) ≡ false = elim (Bool-cases (i == j)) [
            | inl same ↦ absurd (ground (arith, entry_of_same j same))
            | inr ne ↦ ne
          ] in
          rw (e, apart)
      | inr (r, e) ↦ rw (e, same_place j r e)
    ]

    pub write_bin-IsStore : (chain : List Bucket) → IsStore (write_bin t (s, i % 256) chain)
    unfolding write_bin
    write_bin-IsStore chain = record {
      memcxt = is.memcxt;
      filled = is.filled;
      beyond = is.beyond;
      distinct = is.distinct;
      clean = λ r j h unused.
          let apart : same_slot s r ≡ false = elim (Bool-cases (same_slot s r)) [
            | inl same ↦
                let used : segment_used t.memcxt r ≡ true =
                  rw (← same_slot-true s r same) (entry_used t is (i / 256) s at) in
                absurd (ground arith)
            | inr ne ↦ ne
          ] in
          rw apart (is.clean r j h unused);
      capacity = is.capacity;
      length_bound = is.length_bound;
    }
