-- ===== src/Metadata/Expand/Directory.antt =====
-- Growth of the directory and of the segments.
use sri_glibc_malloc.Base.{
  ℕ, ◌*◌, ◌%◌, ◌^◌, ◌≤◌, ◌<◌, ◌≡◌, ◌≢◌, inl, inr, sym, ap, Bool, true, false, Option, none, some,
  arith, ltb, ◌==◌, if◌then◌else◌, Bool-cases, ==_true,
}
use mathlib.Core.Path.{fun_ext}
use sri_glibc_malloc.Utils.{Mmap, null, sri_mmap}
use sri_glibc_malloc.Utils.Sizes.{mul_size-fits}
use sri_glibc_malloc.Memcxt.{Slot, region}
use sri_glibc_malloc.Memcxt.Laws.{Refused}
use sri_glibc_malloc.Memcxt.Context.{memcxt_allocate}
use sri_glibc_malloc.Metadata.{Metadata, directory_length_max}
use sri_glibc_malloc.Metadata.Expand.{
  release_directory, move_directory, expand_into, metadata_expand_directory, grow_directory,
}
use sri_glibc_malloc.Metadata.Store.{IsStore}
use sri_glibc_malloc.Variant.{Variant}

module _ ⦃code : Variant⦄ where
  -- What `mmap` answers is never the directory that it is to replace: the kernel maps nothing over
  -- what is mapped.
  abbrev pub IsApart : Mmap → Metadata → Type 0
  IsApart mmap t = (sz : ℕ) → sri_mmap mmap t.directory sz ≢ t.directory

  -- The table with its directory elsewhere
  abbrev pub moved : Metadata → ℕ → ℕ → Metadata
  moved t d n = record t { directory = d; directory_length = n }

  module _ (t : Metadata) (is : IsStore t) where
    -- A copy of all the entries that hold a segment is the directory itself.
    entries-copy :
        (len : ℕ)
        → t.directory_current ≤ len
        → ◌≡◌ {A = ℕ → Option Slot} (λ i. if ltb i len then t.entries i else none) t.entries
    entries-copy len h = fun_ext (λ i. elim (Bool-cases (ltb i len)) [
      | inl low ↦ rw low
      | inr high ↦ rw high (sym (is.beyond i (ground arith)))
    ])

    -- A directory at a new address, with the old one released, is the table moved.
    pub move_directory-moved :
        (d len n : ℕ)
        → d ≢ t.directory
        → t.directory_current ≤ len
        → release_directory
            (record (move_directory t d len) { directory_length = n })
            t.directory
            t.directory_length
          ≡ moved t d n
    unfolding move_directory release_directory
    move_directory-moved d len n apart h =
        let ne : (d == t.directory) ≡ false = ground arith in
        rw ne (
          rw ne (
            ap (λ e. record t { directory = d; directory_length = n; entries = e })
              (entries-copy len h)))

    pub moved-IsStore : (d n : ℕ) → t.directory_current ≤ n → n ≤ 2 ^ 24 → IsStore (moved t d n)
    moved-IsStore d n h b = record {
      memcxt = is.memcxt;
      filled = is.filled;
      beyond = is.beyond;
      distinct = is.distinct;
      clean = is.clean;
      capacity = h;
      length_bound = b;
    }

    module _ (mmap : Mmap) (apart : IsApart mmap t) (room : t.directory_current < 2 ^ 23) where
      -- What the growth of the directory leaves: the table as it was but for the directory, with room
      -- for one more segment if it succeeded.
      abbrev pub Grown : Option (Bool × Metadata) → Type 0
      Grown r =
          (ok : Bool) × (d : ℕ) × (n : ℕ) × (r ≡ some (ok, moved t d n))
          × (t.directory_current ≤ n)
          × (n ≤ 2 ^ 24)
          × (ok ≡ true → t.directory_current < n)
          × (ok ≡ false → Refused mmap)

      Grown-into :
          (d : ℕ)
          → t.directory_length ≡ t.directory_current
          → 0 < t.directory_length
          → d ≢ t.directory
          → Grown (some (expand_into t (t.directory_length * 2) (region d)))
      Grown-into d full pos ne =
          let size = mul_size-fits t.directory_length 8 (omega arith) (omega arith) (omega arith) in
          (
            true,
            d,
            t.directory_length * 2,
            rw size (
                ap (λ u. some (true, u))
                  (move_directory-moved d t.directory_length (t.directory_length * 2) ne
                    (omega arith))),
            omega arith,
            omega arith,
            λ _. omega arith,
            λ h. absurd (ground arith),
          )

      metadata_expand_directory-Grown :
          t.directory_length ≡ t.directory_current
          → 0 < t.directory_length
          → Grown (metadata_expand_directory mmap t)
      unfolding metadata_expand_directory memcxt_allocate
      metadata_expand_directory-Grown full pos =
          let n = t.directory_length * 2 in
          let same : (t.directory_length == t.directory_current) ≡ true = ground arith in
          let wrap : n % 2 ^ 64 ≡ n = omega arith in
          let below : ltb n directory_length_max ≡ true = ground arith in
          let size = mul_size-fits n 8 (omega arith) (omega arith) (omega arith) in
          elim (Bool-cases (sri_mmap mmap t.directory (n * 8) == null)) [
            | inl failed ↦ (
              false,
              t.directory,
              t.directory_length,
              rw (same, wrap, below, size, wrap, size, failed),
              is.capacity,
              is.length_bound,
              λ h. absurd (ground arith),
              λ h. (t.directory, n * 8, ground arith),
            )
            | inr got ↦
                let (ok, d, m, run, le, small, more, blame) =
                  Grown-into (sri_mmap mmap t.directory (n * 8)) full pos (apart (n * 8)) in
                (
                  ok,
                  d,
                  m,
                  rw (same, wrap, below, size, wrap, size, got) run,
                  le,
                  small,
                  more,
                  blame,
                )
          ]

      pub grow_directory-Grown : 0 < t.directory_length → Grown (grow_directory mmap t)
      unfolding grow_directory
      grow_directory-Grown pos = elim (Bool-cases (t.directory_length == t.directory_current)) [
        | inl full ↦ rw full (metadata_expand_directory-Grown (==_true _ _ full) pos)
        | inr room ↦ (
          true,
          t.directory,
          t.directory_length,
          rw room,
          is.capacity,
          is.length_bound,
          λ _. ground (arith, is.capacity),
          λ h. absurd (ground arith),
        )
      ]
